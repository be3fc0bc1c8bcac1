-- ===== src/Persistence/Codec.antt =====
-- Reading back what the parts of the RDB file were written as.
use crimson_cache.Base.{
  uint64_max, ℕ, zero, suc, ◌+◌, ◌*◌, ◌/◌, ◌^◌, ◌≤◌, ◌<◌, ◌≡◌, ◌≢◌, refl, sym, ap, ◌∙◌, true, false,
  [], ◌∷◌, ◌++◌, some, arith, ltb, ◌==◌, if◌then◌else◌, length, inl, inr, Bool-cases, word, All,
  ◌⊎◌,
}
use crimson_cache.CString.{Bytes}
use crimson_cache.Dict.Defs.{CcObj, DictEntry, Chain, cc_string}
use crimson_cache.Persistence.Format.{rdb_set, encode, decode, type_code, read, until_nul}
use crimson_cache.Persistence.Load.{
  LoadStep, rdb_load_string, load_typed, text, store, load_value, load_entry,
}
use native.Mathlib.Nat.{pow-suc}

pub decode-encode : (k n : ℕ) → n < 256 ^ k → decode (encode k n) ≡ n
unfolding decode encode
decode-encode zero n h = omega arith
decode-encode (suc k) n h =
    let bound : n < 256 ^ k * 256 = rw pow-suc at h in
    omega (arith, decode-encode k (n / 256) (omega arith))

length-encode : (k n : ℕ) → length (encode k n) ≡ k
unfolding encode
length-encode zero n = refl
length-encode (suc k) n = ap suc (length-encode k (n / 256))

pub read-append : (s rest : Bytes) → read (length s) (s ++ rest) ≡ some (s, rest)
unfolding read
read-append [] rest = refl
read-append (c ∷ s) rest = rw (read-append s rest)

pub read-encode : (k n : ℕ) (rest : Bytes) → read k (encode k n ++ rest) ≡ some (encode k n, rest)
read-encode k n rest =
    ap (λ (m : ℕ). read m (encode k n ++ rest)) (sym (length-encode k n))
    ∙ read-append (encode k n) rest

pub read_one : (c : ℕ) (rest : Bytes) → read 1 (c ∷ rest) ≡ some (c ∷ [], rest)
read_one c rest = read-append (c ∷ []) rest

pub decode_one : (c : ℕ) → decode (c ∷ []) ≡ c
unfolding decode
decode_one c = omega arith

-- A string, an entry and a list of entries before `rest`, as they are written.
unfoldable pub string_before : Bytes → Bytes → Bytes
string_before s rest = encode 8 (length s) ++ (s ++ rest)

unfoldable pub expiry_before : ℕ → Bytes → Bytes
expiry_before expire rest = if expire == 0 then 0 ∷ rest else 1 ∷ (encode 8 expire ++ rest)

unfoldable pub entry_before : DictEntry → Bytes → Bytes
entry_before e rest = string_before e.key (
    encode 4 (type_code e.val.type)
    ++ expiry_before e.val.expire (rdb_set ∷ string_before e.val.ptr rest))

unfoldable pub entries_before : Chain → Bytes → Bytes
entries_before [] rest = rest
entries_before (e ∷ es) rest = entry_before e (entries_before es rest)

pub load-string_before :
    (s rest : Bytes)
    → length s + 1 < word
    → rdb_load_string true (string_before s rest) ≡ some (text s, rest)
unfolding rdb_load_string string_before
load-string_before s rest h =
    let below : (length s == uint64_max) ≡ false = ground arith in
    rw (
      read-encode 8 (length s) (s ++ rest),
      decode-encode 8 (length s) (omega arith),
      below,
      read-append s rest,
    )

abbrev pub NoNul : Bytes → Type 0
NoNul s = All (λ c. c ≢ 0) s

until_nul-NoNul : (s : Bytes) → NoNul s → until_nul s ≡ s
unfolding until_nul
until_nul-NoNul [] h = refl
until_nul-NoNul (c ∷ s) (x, h) = ground (arith, until_nul-NoNul s h)

-- An entry that the format can hold.
pub record CanSave (e : DictEntry) : Type 0 where
  pub key_fits : length e.key + 1 < word
  pub key_text : NoNul e.key
  pub ptr_fits : length e.val.ptr + 1 < word
  pub ptr_text : NoNul e.val.ptr
  pub expire_fits : e.val.expire < word
  pub string : e.val.type ≡ cc_string

-- All memory is granted in a step, and the entry has not expired when it is read.
pub record CanLoad (env : LoadStep) (e : DictEntry) : Type 0 where
  pub key_memory : env.key_granted ≡ true
  pub value_memory : env.value_granted ≡ true
  pub object_memory : env.object_granted ≡ true
  pub in_time : (e.val.expire ≡ 0) ⊎ (env.now_test ≤ e.val.expire)

-- The object that is made of a value that was read.
abbrev pub loaded : LoadStep → CcObj → CcObj
loaded env val = record {
  ptr = val.ptr;
  type = cc_string;
  expire = val.expire;
  size = length val.ptr + 1;
  last_access = env.now_value;
}

module _ {env : LoadStep} {e : DictEntry} (s : CanSave e) (l : CanLoad env e) (rest : Bytes) where
  load_value-before :
      (expire : ℕ)
      → expire ≡ e.val.expire
      → load_value env e.key expire (rdb_set ∷ string_before e.val.ptr rest)
        ≡ some (store e.key (loaded env e.val), rest)
  unfolding load_value
  load_value-before expire same = rw (
    read_one rdb_set (string_before e.val.ptr rest),
    decode_one rdb_set,
    l.value_memory,
    load-string_before e.val.ptr rest s.ptr_fits,
    l.object_memory,
    until_nul-NoNul e.key s.key_text,
    until_nul-NoNul e.val.ptr s.ptr_text,
    same,
  )

  -- An entry that was written is read back.
  pub load-entry_before :
      load_entry env (entry_before e rest) ≡ some (store e.key (loaded env e.val), rest)
  unfolding load_entry load_typed entry_before expiry_before
  load-entry_before =
      let value = string_before e.val.ptr rest in
      elim (Bool-cases (e.val.expire == 0)) [
        | inl never ↦
            let none_set : 0 ≡ e.val.expire = ground arith in
            rw
              (
                never,
                l.key_memory,
                load-string_before e.key _ s.key_fits,
                read-encode 4 (type_code e.val.type) _,
                read_one 0 (rdb_set ∷ value),
                decode_one 0,
              )
              (load_value-before 0 none_set)
        | inr timed ↦
            let later : ltb e.val.expire env.now_test ≡ false = ground (arith, l.in_time) in
            rw
              (
                timed,
                l.key_memory,
                load-string_before e.key _ s.key_fits,
                read-encode 4 (type_code e.val.type) _,
                read_one 1 (encode 8 e.val.expire ++ (rdb_set ∷ value)),
                decode_one 1,
                read-encode 8 e.val.expire (rdb_set ∷ value),
                decode-encode 8 e.val.expire s.expire_fits,
                later,
              )
              (load_value-before e.val.expire refl)
      ]
