-- ===== src/Dict/Evict.antt =====
-- `dict_evict_lru_if_needed` deletes least recently used keys until the memory is within its limit.
use crimson_cache.Base.{
  ℕ, zero, suc, ◌+◌, ◌≤◌, ◌<◌, ◌≡◌, ◌≢◌, refl, sym, ap, ◌∙◌, true, false, List, [], ◌∷◌, none, some,
  arith, get_or, get_elem?, inl, inr, Bool-cases, Option-cases, uint64_max, ◌⊎◌, subst,
}
use crimson_cache.CString.{Bytes, str_eq_self}
use crimson_cache.Dict.Hash.{index}
use crimson_cache.Dict.Defs.{CcObj, DictEntry, Chain, Dict, bucket}
use crimson_cache.Dict.Chain.{
  chain_find, chain_delete, count, weight, weight-delete, entry_size, one_each,
}
use crimson_cache.Dict.Lru.{
  find_lru, size_at, unlink_at, remove_at, within_limit, evict, table_weight,
  dict_evict_lru_if_needed,
}
use crimson_cache.Dict.Ops.{dict_delete}
use crimson_cache.Dict.Valid.{IsValid, view}
use crimson_cache.Dict.Access.{totals, dict_delete_lem, delete_some}
use crimson_cache.Dict.Scan.{Stands, NoOlder, find_lru_lem, NoOlder-found}

count_pos : (j : ℕ) (c : Chain) (e : DictEntry) → get_elem? c j ≡ some e → 0 < count e.key c
unfolding count
count_pos j [] e h = cc
count_pos zero (x ∷ c) e h = ground (arith, str_eq_self e.key)
count_pos (suc j) (x ∷ c) e h = omega (arith, count_pos j c e h)

-- The entry at a position, where its key stands once: the chain without it, and what it holds.
unlink_at-delete :
    (j : ℕ) (c : Chain) (e : DictEntry)
    → get_elem? c j ≡ some e
    → count e.key c ≤ 1
    → (unlink_at j c ≡ chain_delete e.key c)
      × (size_at j c ≡ e.val.size)
      × (chain_find e.key c ≡ some e.val)
unfolding unlink_at chain_delete size_at chain_find count
unlink_at-delete j [] e h once = cc
unlink_at-delete zero (x ∷ c) e h once = ground (arith, str_eq_self e.key)
unlink_at-delete (suc j) (x ∷ c) e h once =
    ground (arith, unlink_at-delete j c e h, count_pos j c e h)

module _ {d : Dict} (v : IsValid d) where
  -- A found entry stands in the bucket of its key, and the map has it there.
  Stands-home : (i j : ℕ) (e : DictEntry) → Stands d.table i j e → i ≡ index e.key d.mask
  Stands-home i j e at = ground (arith, v.placed e.key i, count_pos j (get_or d.table i []) e at)

  remove_at-delete :
      (i j : ℕ) (e : DictEntry)
      → Stands d.table i j e
      → (view d e.key ≡ some e.val) × (remove_at d i j ≡ (dict_delete d e.key).1)
  remove_at-delete i j e at =
      let home = Stands-home i j e at in
      let (gone, size, found) =
        unlink_at-delete j (get_or d.table i []) e at (v.placed e.key i).0 in
      let seen : view d e.key ≡ some e.val = unfold view in (rw home at found) in
      (seen, rw (delete_some v e.key e.val seen) (unfold remove_at in rw (gone, size, home)))

-- The times of all entries are before the last millisecond that the clock can show.
abbrev pub Timely : Dict → Type 0
Timely d = (q : Bytes) (val : CcObj) → view d q ≡ some val → val.last_access < uint64_max

-- Runs of the eviction rule: while the memory is over its limit, the key that was used least
-- recently is deleted; within the limit nothing is.
pub data Evictions : Dict → Dict → Type 0 where
  within : {d : Dict} → within_limit d ≡ true → Evictions d d
  evicted :
      {d d' : Dict} (key : Bytes) (val : CcObj)
      → within_limit d ≡ false
      → view d key ≡ some val
      → ((q : Bytes) (w : CcObj) → view d q ≡ some w → val.last_access ≤ w.last_access)
      → Evictions (dict_delete d key).1 d'
      → Evictions d d'

table_weight_empty :
    (w : DictEntry → ℕ) (bs : List Chain) → ((k : ℕ) → get_or bs k [] ≡ []) → table_weight w bs ≡ 0
unfolding table_weight weight
table_weight_empty w [] h = refl
table_weight_empty w (c ∷ cs) h = rw (h 0) (omega (arith, table_weight_empty w cs (λ k. h (suc k))))

module _ {d : Dict} (v : IsValid d) (timely : Timely d) where
  no_entry_at : (k : ℕ) → NoOlder uint64_max (get_or d.table k []) → get_or d.table k [] ≡ []
  no_entry_at k a = go (get_or d.table k []) refl
    where
      go : (c : Chain) → get_or d.table k [] ≡ c → get_or d.table k [] ≡ []
      go [] e = e
      go (x ∷ c) e =
          let at : Stands d.table k 0 x = rw e in
          let late : uint64_max ≤ x.val.last_access = (rw e at a).0 in
          let early = timely x.key x.val (remove_at-delete v k 0 x at).0 in absurd (omega arith)

  -- Over the limit the search finds an entry.
  not_unfound : within_limit d ≡ false → (find_lru d).found ≢ none
  not_unfound over none_found =
      let (scan, all) = find_lru_lem d in
      let empty =
        table_weight_empty entry_size d.table
          (λ k. no_entry_at k (rw (scan.unfound none_found) at (all k))) in
      let nothing : d.used_memory ≡ 0 = omega (arith, v.measured) in ground arith

  Timely-delete : (key : Bytes) → Timely (dict_delete d key).1
  Timely-delete key q val h =
      let b = (dict_delete_lem v key).1 in ground (arith, b.reads q, timely q val)

  fewer :
      (key : Bytes) (val : CcObj)
      → view d key ≡ some val
      → table_weight one_each (dict_delete d key).1.table + 1 ≡ table_weight one_each d.table
  fewer key val e = rw (delete_some v key val e) (
      omega (
        arith,
        totals v key one_each (chain_delete key (bucket d key)),
        weight-delete key (λ o. 1) (bucket d key) val (unfold view in e),
      ))

pub evict_within : (fuel : ℕ) (d : Dict) → within_limit d ≡ true → evict (suc fuel) d ≡ d
unfolding evict
evict_within fuel d ok = rw (ok, evict)

evict_over :
    (fuel : ℕ) (d : Dict) (i j : ℕ)
    → within_limit d ≡ false
    → (find_lru d).found ≡ some (i, j)
    → evict (suc fuel) d ≡ evict fuel (remove_at d i j)
unfolding evict
evict_over fuel d i j over f = rw (over, f, evict)

evict-Evictions :
    (fuel : ℕ) {d : Dict}
    → IsValid d
    → Timely d
    → table_weight one_each d.table < fuel
    → Evictions d (evict fuel d)
evict-Evictions zero v t h = absurd (omega arith)
evict-Evictions (suc fuel) {d} v t h = elim (Bool-cases (within_limit d)) [
  | inl ok ↦ subst (λ (x : Dict). Evictions d x) (sym (evict_within fuel d ok)) (within ok)
  | inr over ↦ elim (Option-cases (find_lru d).found) [
    | inl nothing ↦ absurd (not_unfound v t over nothing)
    | inr ((i, j), f) ↦
        let (scan, all) = find_lru_lem d in
        let (e, at, time) = scan.located i j f in
        let (seen, same) = remove_at-delete v i j e at in
        let rest =
          evict-Evictions fuel (dict_delete_lem v e.key).1.valid (Timely-delete v t e.key)
            (omega (arith, fewer v t e.key e.val seen)) in
        let oldest = λ (q : Bytes) (w : CcObj) (s : view d q ≡ some w).
          (rw (← time) at (
            NoOlder-found (find_lru d).oldest_access q (bucket d q) w (all (index q d.mask))
              (unfold view in s))) in
        subst (λ (x : Dict). Evictions d x)
          (sym (evict_over fuel d i j over f ∙ ap (evict fuel) same))
          (evicted e.key e.val over seen oldest rest)
  ]
]

-- From a well-formed dictionary whose entries have times that the clock can show, the recursion of
-- `dict_evict_lru_if_needed` ends, having deleted a least recently used key in each round, as long
-- as the memory was over its limit and no longer.
pub dict_evict-Evictions :
    {d : Dict} → IsValid d → Timely d → Evictions d (dict_evict_lru_if_needed d)
unfolding dict_evict_lru_if_needed
dict_evict-Evictions {d} v t =
    evict-Evictions (suc (table_weight one_each d.table)) v t (omega arith)

-- What the eviction leaves: a well-formed dictionary within its limit, in which each key has the
-- value that it had or none.
pub record IsTrimmed (d d' : Dict) : Type 0 where
  pub valid : IsValid d'
  pub fits : within_limit d' ≡ true
  pub limit : d'.max_memory ≡ d.max_memory
  pub kept : (q : Bytes) → (view d' q ≡ view d q) ⊎ (view d' q ≡ none)

max_memory-delete : (d : Dict) (key : Bytes) → (dict_delete d key).1.max_memory ≡ d.max_memory
unfolding dict_delete
max_memory-delete d key = ground arith

Evictions-IsTrimmed : {d d' : Dict} → IsValid d → Evictions d d' → IsTrimmed d d'
Evictions-IsTrimmed v (within ok) = record {
  valid = v;
  fits = ok;
  limit = refl;
  kept = λ q. inl refl;
}
Evictions-IsTrimmed {d} v (evicted key val over seen oldest rest) =
    let gone = (dict_delete_lem v key).1 in
    let ih = Evictions-IsTrimmed gone.valid rest in
    record {
      valid = ih.valid;
      fits = ih.fits;
      limit = ih.limit ∙ max_memory-delete d key;
      kept = λ q. ground (arith, ih.kept q, gone.reads q);
    }

-- After `dict_evict_lru_if_needed` the dictionary is well formed and its memory within the limit,
-- and every key that is left has the value that it had.
pub dict_evict-IsTrimmed :
    {d : Dict} → IsValid d → Timely d → IsTrimmed d (dict_evict_lru_if_needed d)
dict_evict-IsTrimmed v t = Evictions-IsTrimmed v (dict_evict-Evictions v t)
