-- ===== src/Dict/Valid.antt =====
-- When a dictionary is well formed, what it means as a map from keys to values, and what a write
-- to one bucket does to both.
use crimson_cache.Base.{
  ℕ, zero, suc, ◌+◌, ◌*◌, ◌%◌, ◌^◌, ◌≤◌, ◌<◌, ◌≡◌, ◌≢◌, false, List, [], ◌∷◌, Option, arith,
  if◌then◌else◌, length, get_or, set, length-set, get_or-set, word,
}
use crimson_cache.CString.{Bytes, str_eq, str_eq_iff}
use crimson_cache.Dict.Hash.{index, index-le}
use crimson_cache.Dict.Defs.{CcObj, DictEntry, Chain, Dict, bucket}
use crimson_cache.Dict.Chain.{chain_find, count, weight, entry_size, one_each}
use crimson_cache.Dict.Lru.{table_weight}

pub table_weight-set :
    (w : DictEntry → ℕ) (bs : List Chain) (i : ℕ) (c : Chain)
    → i < length bs
    → table_weight w (set bs i c) + weight w (get_or bs i []) ≡ table_weight w bs + weight w c
unfolding table_weight
table_weight-set w [] i c h = absurd (omega arith)
table_weight-set w (b ∷ bs) zero c h = omega arith
table_weight-set w (b ∷ bs) (suc i) c h = omega (arith, table_weight-set w bs i c (omega arith))

-- Every key stands at most once in a bucket, and only in its own.
abbrev pub IsPlaced : ℕ → List Chain → Type 0
IsPlaced mask bs =
    (q : Bytes) (i : ℕ)
    → (count q (get_or bs i []) ≤ 1) × (index q mask ≢ i → count q (get_or bs i []) ≡ 0)

pub record IsValid (d : Dict) : Type 0 where
  pub log_size : ℕ
  pub power : d.size ≡ 2 ^ log_size
  pub width : length d.table ≡ d.size
  pub masked : d.mask + 1 ≡ d.size
  pub roomy : d.size * 8 < word
  pub placed : IsPlaced d.mask d.table
  pub counted : d.used ≡ table_weight one_each d.table % word
  pub measured : d.used_memory ≡ table_weight entry_size d.table % word

-- The abstract map.
unfoldable pub view : Dict → Bytes → Option CcObj
view d q = chain_find q (bucket d q)

pub index-lt : {d : Dict} (q : Bytes) → IsValid d → index q d.mask < length d.table
index-lt {d} q v = omega (arith, index-le q d.mask, v.width, v.masked)

module _ {d : Dict} (v : IsValid d) (key : Bytes) (c : Chain) where
  abbrev at_key : List Chain
  at_key = set d.table (index key d.mask) c

  set-IsPlaced :
      ((q : Bytes) → count q c ≤ 1)
      → ((q : Bytes) → str_eq key q ≡ false → count q c ≤ count q (bucket d key))
      → IsPlaced d.mask at_key
  set-IsPlaced once few q i =
      rw (get_or-set d.table (index key d.mask) i c [] (index-lt key v)) (
        ground
          (arith, once q, few q, v.placed q i, v.placed q (index key d.mask), str_eq_iff key q))

  -- A write of one bucket, with counters that follow it.
  pub set-IsValid :
      (used memory : ℕ)
      → ((q : Bytes) → count q c ≤ 1)
      → ((q : Bytes) → str_eq key q ≡ false → count q c ≤ count q (bucket d key))
      → used ≡ table_weight one_each at_key % word
      → memory ≡ table_weight entry_size at_key % word
      → IsValid (record d { table = at_key; used = used; used_memory = memory })
  set-IsValid used memory once few counts sizes = record {
    log_size = v.log_size;
    power = v.power;
    width = rw length-set v.width;
    masked = v.masked;
    roomy = v.roomy;
    placed = set-IsPlaced once few;
    counted = counts;
    measured = sizes;
  }

  pub view-set :
      (o : Option CcObj) (used memory : ℕ)
      → ((q : Bytes) → chain_find q c ≡ (if str_eq key q then o else chain_find q (bucket d key)))
      → (q : Bytes)
      → view (record d { table = at_key; used = used; used_memory = memory }) q
        ≡ (if str_eq key q then o else view d q)
  unfolding view
  view-set o used memory reads q =
      rw (get_or-set d.table (index key d.mask) (index q d.mask) c [] (index-lt key v))
        (ground (arith, reads q, str_eq_iff key q))
