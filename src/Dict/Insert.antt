-- ===== src/Dict/Insert.antt =====
-- A new entry at the front of its bucket, one or many: `dict_add` for a new key, and the moves of
-- `dict_resize`.
use crimson_cache.Base.{
  ℕ, ◌+◌, ◌≤◌, ◌<◌, ◌≡◌, refl, ◌∙◌, List, [], ◌∷◌, ◌++◌, Option, none, some, arith, set, add64,
}
use crimson_cache.CString.{Bytes, str_eq_iff, str_eq_self}
use crimson_cache.Dict.Hash.{index}
use crimson_cache.Dict.Defs.{CcObj, DictEntry, Chain, Dict, bucket}
use crimson_cache.Dict.Chain.{
  chain_find, count, weight, entry_size, one_each, count-eq-zero, chain_find-eq-none,
}
use crimson_cache.Dict.Lru.{table_weight}
use crimson_cache.Dict.Ops.{move_chain, add_insert, touch}
use crimson_cache.Dict.Valid.{IsValid, view, set-IsValid, view-set}
use crimson_cache.Dict.Access.{Becomes, update, totals, old_once}

-- An entry whose key is new, with the counters.
pub place : DictEntry → Dict → Dict
place e d = record d {
  table = set d.table (index e.key d.mask) (e ∷ bucket d e.key);
  used_memory = add64 d.used_memory e.val.size;
  used = add64 d.used 1;
}

pub place_lem :
    {d : Dict} (v : IsValid d) (e : DictEntry)
    → view d e.key ≡ none
    → Becomes (place e d) (update (view d) e.key (some e.val))
      × ((w : DictEntry → ℕ) → table_weight w (place e d).table ≡ table_weight w d.table + w e)
unfolding place view
place_lem {d} v e fresh =
    let c = e ∷ bucket d e.key in
    let sums = λ (w : DictEntry → ℕ). totals v e.key w c in
    (
      record {
        valid =
            set-IsValid v e.key c _ _
              (λ q.
                unfold count in
                ground
                  (arith, count-eq-zero q (bucket d e.key), str_eq_iff e.key q, old_once v e.key q))
              (λ q n. unfold count in rw n (omega arith))
              (unfold weight in omega (arith, v.counted, sums one_each))
              (unfold weight in omega (arith, v.measured, sums entry_size));
        reads =
            view-set v e.key c (some e.val) (add64 d.used 1) (add64 d.used_memory e.val.size)
              (λ q. unfold chain_find in refl);
      },
      λ w. unfold weight in omega (arith, sums w),
    )

-- `dict_add` for a new key, before the eviction
pub add_insert_lem :
    {d : Dict} (v : IsValid d) (now : ℕ) (key : Bytes) (val : CcObj)
    → view d key ≡ none
    → Becomes (add_insert now d key val) (update (view d) key (some (touch now val)))
unfolding add_insert place
add_insert_lem v now key val fresh =
    (place_lem v (record { key = key; val = touch now val }) fresh).0

pub place_all : Chain → Dict → Dict
place_all [] d = d
place_all (e ∷ c) d = place_all c (place e d)

-- The moves of a bucket are placements into the new table, but for the counters.
pub place_all-move_chain :
    (c : Chain) (d : Dict)
    → place_all c d ≡ record d {
      table = move_chain d.mask c d.table;
      used = (place_all c d).used;
      used_memory = (place_all c d).used_memory;
    }
unfolding place_all place move_chain
place_all-move_chain [] d = refl
place_all-move_chain (e ∷ c) d = place_all-move_chain c (place e d)

pub move_chain-append :
    (mask : ℕ) (a b : Chain) (fresh : List Chain)
    → move_chain mask (a ++ b) fresh ≡ move_chain mask b (move_chain mask a fresh)
unfolding move_chain
move_chain-append mask [] b fresh = refl
move_chain-append mask (e ∷ a) b fresh = move_chain-append mask a b _

abbrev pub find_else : Bytes → Chain → Option CcObj → Option CcObj
find_else q c o = elim (chain_find q c) [ none ↦ o | some v ↦ some v ]

pub place_all_lem :
    (c : Chain) {d : Dict} {f : Bytes → Option CcObj}
    → Becomes d f
    → ((q : Bytes) → count q c ≤ 1)
    → ((q : Bytes) → 0 < count q c → f q ≡ none)
    → Becomes (place_all c d) (λ q. find_else q c (f q))
      × ((w : DictEntry → ℕ)
          → table_weight w (place_all c d).table ≡ table_weight w d.table + weight w c)
unfolding place_all count chain_find weight
place_all_lem [] b once apart = (record { valid = b.valid; reads = b.reads }, λ w. omega arith)
place_all_lem (e ∷ c) {d} {f} b once apart =
    let absent : f e.key ≡ none = apart e.key (rw (str_eq_self e.key) (omega arith)) in
    let (step, sums) = place_lem b.valid e (b.reads e.key ∙ absent) in
    let (rest, more) =
      place_all_lem c {f = update f e.key (some e.val)}
        (record { valid = step.valid; reads = λ q. ground (arith, step.reads q, b.reads q) })
        (λ q. omega (arith, once q)) (λ q h. ground (arith, once q, apart q)) in
    (
      record {
        valid = rest.valid;
        reads = λ q. ground (arith, rest.reads q, once q, chain_find-eq-none q c);
      },
      λ w. omega (arith, sums w, more w),
    )
