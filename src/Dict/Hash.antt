-- ===== src/Dict/Hash.antt =====
-- `dict_hash` of src/dict.c, and the index `hash & mask`.
use crimson_cache.Base.{
  ℕ, ◌+◌, ◌-◌, ◌*◌, ◌%◌, ◌<◌, ◌≤◌, [], ◌∷◌, arith, word, add64, ltb, bit_and, bit_and-le,
  if◌then◌else◌,
}
use crimson_cache.CString.{Bytes}

-- `int c = *key++` on a platform where `char` is signed, converted to `size_t`.
pub char_word : ℕ → ℕ
char_word c = if ltb c 128 then c else c + (word - 256)

-- `hash = ((hash << 5) + hash) + c`
hash_from : ℕ → Bytes → ℕ
unfolding char_word
hash_from hash [] = hash
hash_from hash (c ∷ key) = hash_from (add64 (add64 ((hash * 32) % word) hash) (char_word c)) key

unfoldable pub dict_hash : Bytes → ℕ
unfolding hash_from
dict_hash key = hash_from 5381 key

hash_from-lt : (hash : ℕ) (key : Bytes) → hash < word → hash_from hash key < word
unfolding hash_from
hash_from-lt hash [] h = h
hash_from-lt hash (c ∷ key) h =
    hash_from-lt (add64 (add64 ((hash * 32) % word) hash) (char_word c)) key (omega arith)

pub dict_hash-lt : (key : Bytes) → dict_hash key < word
unfolding dict_hash
dict_hash-lt key = hash_from-lt 5381 key (omega arith)

-- `dict_hash(key) & mask`
abbrev pub index : Bytes → ℕ → ℕ
index key mask = bit_and (dict_hash key) mask

pub index-le : (key : Bytes) (mask : ℕ) → index key mask ≤ mask
index-le key mask = bit_and-le (dict_hash key) mask
