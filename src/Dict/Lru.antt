-- ===== src/Dict/Lru.antt =====
-- The eviction of src/dict.c: `dict_evict_lru_if_needed`, its search and its removal.
use crimson_cache.Base.{
  ℕ, zero, suc, ◌+◌, Bool, true, false, ◌||◌, List, [], ◌∷◌, Option, none, some, ltb, leb, ◌==◌,
  if◌then◌else◌, get_or, set, uint64_max, sub64,
}
use crimson_cache.Dict.Defs.{DictEntry, Chain, Dict}
use crimson_cache.Dict.Chain.{weight, one_each}

-- The variables of the search for the least recently used entry: the oldest time so far, and where
-- the entry with it stands (`lru_idx`, and the position that `lru_prev` tells).
pub record LruScan : Type 0 where
  pub oldest_access : ℕ
  pub found : Option (ℕ × ℕ)

unfoldable pub scan_chain : ℕ → ℕ → Chain → LruScan → LruScan
scan_chain i j [] s = s
scan_chain i j (e ∷ c) s = scan_chain i (suc j) c (
    if ltb e.val.last_access s.oldest_access
    then record { oldest_access = e.val.last_access; found = some (i, j) }
    else s)

unfoldable pub scan_table : ℕ → List Chain → LruScan → LruScan
unfolding scan_chain
scan_table i [] s = s
scan_table i (c ∷ cs) s = scan_table (suc i) cs (scan_chain i 0 c s)

unfoldable pub find_lru : Dict → LruScan
unfolding scan_table
find_lru d = scan_table 0 d.table (record { oldest_access = uint64_max; found = none })

-- The size of the entry at a position of a chain, and the chain without it.
unfoldable pub size_at : ℕ → Chain → ℕ
size_at j [] = 0
size_at zero (e ∷ c) = e.val.size
size_at (suc j) (e ∷ c) = size_at j c

unfoldable pub unlink_at : ℕ → Chain → Chain
unlink_at j [] = []
unlink_at zero (e ∷ c) = c
unlink_at (suc j) (e ∷ c) = e ∷ unlink_at j c

unfoldable pub remove_at : Dict → ℕ → ℕ → Dict
unfolding size_at unlink_at
remove_at d i j =
    let c = get_or d.table i [] in
    record d {
      table = set d.table i (unlink_at j c);
      used_memory = sub64 d.used_memory (size_at j c);
      used = sub64 d.used 1;
    }

abbrev pub within_limit : Dict → Bool
within_limit d = d.max_memory == 0 || leb d.used_memory d.max_memory

-- The recursion of `dict_evict_lru_if_needed`, on fuel.
unfoldable pub evict : ℕ → Dict → Dict
evict zero d = d
evict (suc fuel) d = elim (within_limit d) [
  | true ↦ d
  | false ↦ elim ((find_lru d).found) [ none ↦ d | some (i, j) ↦ evict fuel (remove_at d i j) ]
]

-- How many entries a table holds.
unfoldable pub table_weight : (DictEntry → ℕ) → List Chain → ℕ
table_weight w [] = 0
table_weight w (c ∷ cs) = weight w c + table_weight w cs

-- Each round removes an entry, so one round more than entries is enough.
unfoldable pub dict_evict_lru_if_needed : Dict → Dict
unfolding evict
dict_evict_lru_if_needed d = evict (suc (table_weight one_each d.table)) d
