-- ===== src/CString.antt =====
-- C strings: the bytes before the terminating NUL, each from 1 to 255. The functions of <string.h>,
-- <strings.h> and <ctype.h> that the program calls, in the C locale (`strcmp(a, b) == 0` is `str_eq`,
-- `strlen` is `length`), and src/commands.c's own `my_strcasecmp`.
use Prim.Native.Char.{code}
use Prim.Native.String.{String}
use crimson_cache.Base.{
  ℕ, ◌+◌, ◌≡◌, refl, Bool, true, false, ◌&&◌, ◌||◌, List, [], ◌∷◌, arith, leb, ◌==◌, if◌then◌else◌,
  ◌↔◌, All, ◌<◌,
}

abbrev pub Bytes : Type 0
Bytes = List ℕ

-- The bytes of an ASCII literal.
abbrev pub codes : String → Bytes
codes String.[] = []
codes (String.◌∷◌ c s) = code c ∷ codes s

-- `strcmp(a, b) == 0`
unfoldable pub str_eq : Bytes → Bytes → Bool
str_eq [] [] = true
str_eq [] (b ∷ t) = false
str_eq (a ∷ s) [] = false
str_eq (a ∷ s) (b ∷ t) = a == b && str_eq s t

pub str_eq_self : (s : Bytes) → str_eq s s ≡ true
unfolding str_eq
str_eq_self [] = refl
str_eq_self (a ∷ s) = ground (arith, str_eq_self s)

pub str_eq→eq : (s t : Bytes) → str_eq s t ≡ true → s ≡ t
unfolding str_eq
str_eq→eq [] [] h = refl
str_eq→eq [] (b ∷ t) h = cc
str_eq→eq (a ∷ s) [] h = cc
str_eq→eq (a ∷ s) (b ∷ t) h = ground (arith, str_eq→eq s t)

pub eq→str_eq : (s t : Bytes) → s ≡ t → str_eq s t ≡ true
eq→str_eq s t e = rw e (str_eq_self t)

pub str_eq_iff : (s t : Bytes) → (str_eq s t ≡ true) ↔ (s ≡ t)
str_eq_iff s t = (str_eq→eq s t, eq→str_eq s t)

-- `tolower`
unfoldable pub tolower : ℕ → ℕ
tolower c = if leb b'A' c && leb c b'Z' then c + 32 else c

-- `isspace`
unfoldable pub isspace : ℕ → Bool
isspace c = c == 32 || (leb 9 c && leb c 13)

-- `my_strcasecmp(s1, s2) == 0`: the loop runs to the end of `s1` or to a difference, and the bytes
-- that it stopped at, the NUL among them, are compared.
unfoldable pub strcasecmp_eq : Bytes → Bytes → Bool
unfolding tolower
strcasecmp_eq [] [] = true
strcasecmp_eq [] (b ∷ t) = tolower b == 0
strcasecmp_eq (a ∷ s) [] = tolower a == 0
strcasecmp_eq (a ∷ s) (b ∷ t) = tolower a == tolower b && strcasecmp_eq s t

-- A value of type `char *` in memory: no NUL inside, each element a byte.
abbrev pub IsCString : Bytes → Type 0
IsCString s = All (λ c. (0 < c) × (c < 256)) s
