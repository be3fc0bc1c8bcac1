-- ===== src/Persistence/Format.antt =====
-- The parts of the RDB file: numbers in the byte order of a little-endian machine, `size_t` and
-- `uint64_t` of eight bytes, `int` and the enumeration `cc_type` of four.
use crimson_cache.Base.{
  ℕ, zero, suc, ◌+◌, ◌*◌, ◌/◌, ◌%◌, Bool, true, false, [], ◌∷◌, Option, none, some, ◌==◌,
  if◌then◌else◌,
}
use crimson_cache.CString.{Bytes, codes}
use crimson_cache.Dict.Defs.{CcType, cc_string, cc_list, cc_set, cc_int, cc_float, cc_bool}

abbrev pub rdb_magic : Bytes
rdb_magic = codes "CCDB"

abbrev pub rdb_version : ℕ
rdb_version = 1

abbrev pub rdb_set : ℕ
rdb_set = 1

abbrev pub rdb_end : ℕ
rdb_end = 255

-- A number in k bytes, the lowest first.
unfoldable pub encode : ℕ → ℕ → Bytes
encode zero n = []
encode (suc k) n = n % 256 ∷ encode k (n / 256)

unfoldable pub decode : Bytes → ℕ
decode [] = 0
decode (b ∷ bs) = b + 256 * decode bs

-- The value of a member of `cc_type`.
unfoldable pub type_code : CcType → ℕ
type_code cc_string = 0
type_code cc_list = 1
type_code cc_set = 2
type_code cc_int = 3
type_code cc_float = 4
type_code cc_bool = 5

unfoldable pub is_string : CcType → Bool
is_string cc_string = true
is_string _ = false

-- `fread(p, n, 1, fp)`: n bytes and what is left, or `none` where there are fewer.
unfoldable pub read : ℕ → Bytes → Option (Bytes × Bytes)
read zero bs = some ([], bs)
read (suc n) [] = none
read (suc n) (b ∷ bs) = elim (read n bs) [ none ↦ none | some (x, rest) ↦ some (b ∷ x, rest) ]

-- What a `char *` reads of bytes in memory: those before the first NUL.
unfoldable pub until_nul : Bytes → Bytes
until_nul [] = []
until_nul (c ∷ s) = let rest = until_nul s in if c == 0 then [] else c ∷ rest

infixl 5 ◌>>=◌
abbrev pub ◌>>=◌ {ℓ κ} : {A : Type ℓ} {B : Type κ} → Option A → (A → Option B) → Option B
none >>= f = none
some a >>= f = f a
