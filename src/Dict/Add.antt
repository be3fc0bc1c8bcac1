-- ===== src/Dict/Add.antt =====
-- `dict_add` refines an update of the abstract map, up to what the eviction takes away.
use crimson_cache.Base.{
  ℕ, ◌<◌, ◌≡◌, refl, ap, ◌∙◌, Bool, true, false, ◌&&◌, ◌||◌, none, some, arith, if◌then◌else◌, inl,
  inr, leb, Bool-cases, Option-cases, uint64_max, sub64, add64, ◌⊎◌,
}
use crimson_cache.CString.{Bytes}
use crimson_cache.Dict.Defs.{CcObj, Dict, bucket}
use crimson_cache.Dict.Chain.{
  chain_find, chain_assign, chain_find-assign, count-assign, weight-assign, entry_size, one_each,
}
use crimson_cache.Dict.Lru.{within_limit, dict_evict_lru_if_needed}
use crimson_cache.Dict.Ops.{
  AddMemory, touch, add_update, add_insert, add_resized, grow_if_full, dict_add,
}
use crimson_cache.Dict.Valid.{IsValid, view, set-IsValid, view-set}
use crimson_cache.Dict.Access.{Becomes, update, is_some, totals, old_once}
use crimson_cache.Dict.Resize.{dict_resize_lem}
use crimson_cache.Dict.Insert.{add_insert_lem}
use crimson_cache.Dict.Evict.{Timely, dict_evict-IsTrimmed, evict_within}

module _ {d : Dict} (v : IsValid d) (now : ℕ) (key : Bytes) (val : CcObj) where
  add_update_lem :
      (old : CcObj)
      → view d key ≡ some old
      → Becomes (add_update now d key val old) (update (view d) key (some (touch now val)))
  unfolding add_update
  add_update_lem old seen =
      let e : chain_find key (bucket d key) ≡ some old = unfold view in seen in
      let new = touch now val in
      let c = chain_assign key new (bucket d key) in
      record {
        valid =
            set-IsValid v key c _ _
              (λ q. omega (arith, count-assign key q new (bucket d key), old_once v key q))
              (λ q _. omega (arith, count-assign key q new (bucket d key)))
              (omega (
                arith,
                v.counted,
                totals v key one_each c,
                weight-assign key (λ o. 1) new (bucket d key) old e,
              ))
              (omega (
                arith,
                v.measured,
                totals v key entry_size c,
                weight-assign key (λ o. o.size) new (bucket d key) old e,
              ));
        reads =
            view-set v key c (some new) d.used (add64 (sub64 d.used_memory old.size) val.size)
              (λ q. chain_find-assign key q new (bucket d key) old e);
      }

  pub add_resized-found :
      (mem : AddMemory) (old : CcObj)
      → view d key ≡ some old
      → add_resized mem now d key val
        ≡ (true, dict_evict_lru_if_needed (add_update now d key val old))
  unfolding add_resized view
  add_resized-found mem old e = rw (e, add_resized)

  pub add_resized-new :
      (mem : AddMemory)
      → view d key ≡ none
      → add_resized mem now d key val ≡ (
          if mem.entry_granted && mem.key_granted
          then (true, dict_evict_lru_if_needed (add_insert now d key val))
          else (false, d))
  unfolding add_resized view
  add_resized-new mem e = rw (e, add_resized)

abbrev pub granted : AddMemory → Bool
granted mem = mem.entry_granted && mem.key_granted

-- What one `dict_add` of `val` under `key` does: it answers that it stored the value if the key was
-- there or memory was granted for an entry. Then the map is updated at the key, and the eviction
-- runs; else the map is kept.
pub record Adds (mem : AddMemory) (now : ℕ) (d : Dict) (key : Bytes) (val : CcObj) (r : Bool × Dict)
    : Type 0 where
  pub answer : r.0 ≡ is_some (view d key) || granted mem
  pub before : Dict
  pub becomes : Becomes before (update (view d) key (some (touch now val)))
  pub limit : before.max_memory ≡ d.max_memory
  pub stores : r.0 ≡ true → r.1 ≡ dict_evict_lru_if_needed before
  pub keeps : r.0 ≡ false → Becomes r.1 (view d)
  pub keeps_limit : r.0 ≡ false → r.1.max_memory ≡ d.max_memory

add_resized_lem :
    {d : Dict} (v : IsValid d) (mem : AddMemory) (now : ℕ) (key : Bytes) (val : CcObj)
    → Adds mem now d key val (add_resized mem now d key val)
add_resized_lem {d} v mem now key val = elim (Option-cases (view d key)) [
  | inr (old, e) ↦ rw (add_resized-found v now key val mem old e) (record {
    answer = rw e;
    before = add_update now d key val old;
    becomes = add_update_lem v now key val old e;
    limit = unfold add_update in refl;
    stores = λ h. refl;
    keeps = λ h. cc;
    keeps_limit = λ h. cc;
  })
  | inl e ↦ elim (Bool-cases (granted mem)) [
    | inl room ↦ rw (add_resized-new v now key val mem e) (
        rw room (record {
          answer = rw (e, room);
          before = add_insert now d key val;
          becomes = add_insert_lem v now key val e;
          limit = unfold add_insert in refl;
          stores = λ h. refl;
          keeps = λ h. cc;
          keeps_limit = λ h. cc;
        }))
    | inr full ↦ rw (add_resized-new v now key val mem e) (
        rw full (record {
          answer = rw (e, full);
          before = add_insert now d key val;
          becomes = add_insert_lem v now key val e;
          limit = unfold add_insert in refl;
          stores = λ h. cc;
          keeps = λ h. record { valid = v; reads = λ q. refl };
          keeps_limit = λ h. refl;
        }))
  ]
]

grow_if_full_lem :
    {d : Dict}
    → IsValid d
    → (mem : AddMemory)
    → Becomes (grow_if_full mem d) (view d) × ((grow_if_full mem d).max_memory ≡ d.max_memory)
unfolding grow_if_full
grow_if_full_lem {d} v mem = elim (Bool-cases (leb d.size d.used)) [
  | inl full ↦ let (b, limit, size) = dict_resize_lem v mem.table_granted in rw full (b, limit)
  | inr room ↦ rw room (record { valid = v; reads = λ q. refl }, refl)
]

-- `dict_add` on a well-formed dictionary, its resize included.
pub dict_add_lem :
    {d : Dict} (v : IsValid d) (mem : AddMemory) (now : ℕ) (key : Bytes) (val : CcObj)
    → Adds mem now d key val (dict_add mem now d key val)
unfolding dict_add
dict_add_lem {d} v mem now key val =
    let (g, limit) = grow_if_full_lem v mem in
    let a = add_resized_lem g.valid mem now key val in
    record {
      answer = a.answer ∙ ap (λ o. is_some o || granted mem) (g.reads key);
      before = a.before;
      becomes = record {
        valid = a.becomes.valid;
        reads = λ q. ground (arith, a.becomes.reads q, g.reads q);
      };
      limit = a.limit ∙ limit;
      stores = a.stores;
      keeps =
          λ h. let b = a.keeps h in record { valid = b.valid; reads = λ q. b.reads q ∙ g.reads q };
      keeps_limit = λ h. a.keeps_limit h ∙ limit;
    }

evict_unlimited : (d : Dict) → d.max_memory ≡ 0 → dict_evict_lru_if_needed d ≡ d
unfolding dict_evict_lru_if_needed
evict_unlimited d e = evict_within _ d (rw e)

-- With no memory limit `dict_add` succeeds if the key is there or memory for an entry is granted,
-- and then the map is updated at the key; if it fails, the map is as before.
pub dict_add_unlimited :
    {d : Dict} (v : IsValid d) (mem : AddMemory) (now : ℕ) (key : Bytes) (val : CcObj)
    → d.max_memory ≡ 0
    → ((dict_add mem now d key val).0 ≡ is_some (view d key) || granted mem)
      × Becomes (dict_add mem now d key val).1 (
          if (dict_add mem now d key val).0
          then update (view d) key (some (touch now val))
          else view d)
dict_add_unlimited {d} v mem now key val none_set =
    let a = dict_add_lem v mem now key val in
    let kept = evict_unlimited a.before (a.limit ∙ none_set) in
    (
      a.answer,
      elim (Bool-cases (dict_add mem now d key val).0) [
        | inl done ↦ rw (done, a.stores done, kept) a.becomes
        | inr failed ↦ rw failed (a.keeps failed)
      ],
    )

-- Without a limit, a `dict_add` for which memory is granted stores the value, and there still is
-- none.
pub dict_add-granted :
    {d : Dict} (v : IsValid d) (mem : AddMemory) (now : ℕ) (key : Bytes) (val : CcObj)
    → d.max_memory ≡ 0
    → granted mem ≡ true
    → ((dict_add mem now d key val).0 ≡ true)
      × Becomes (dict_add mem now d key val).1 (update (view d) key (some (touch now val)))
      × ((dict_add mem now d key val).1.max_memory ≡ 0)
dict_add-granted {d} v mem now key val none_set room =
    let a = dict_add_lem v mem now key val in
    let done : (dict_add mem now d key val).0 ≡ true = ground (arith, a.answer) in
    let kept = evict_unlimited a.before (a.limit ∙ none_set) in
    (done, rw (a.stores done, kept) a.becomes, rw (a.stores done, kept) (a.limit ∙ none_set))

-- What a dictionary of the program is: well formed, and with no limit on its memory.
pub record IsSound (d : Dict) : Type 0 where
  pub valid : IsValid d
  pub unlimited : d.max_memory ≡ 0

pub dict_add-IsSound :
    {d : Dict}
    → IsSound d
    → (mem : AddMemory) (now : ℕ) (key : Bytes) (val : CcObj)
    → IsSound (dict_add mem now d key val).1
dict_add-IsSound {d} s mem now key val =
    let a = dict_add_lem s.valid mem now key val in
    let kept = evict_unlimited a.before (a.limit ∙ s.unlimited) in
    elim (Bool-cases (dict_add mem now d key val).0) [
      | inl done ↦
          rw (a.stores done, kept)
            (record { valid = a.becomes.valid; unlimited = a.limit ∙ s.unlimited })
      | inr failed ↦ record {
        valid = (a.keeps failed).valid;
        unlimited = a.keeps_limit failed ∙ s.unlimited;
      }
    ]

-- With a limit, a `dict_add` that succeeds leaves the memory within it: every key has what the
-- update gives it, or has been evicted.
pub dict_add-IsTrimmed :
    {d : Dict} (v : IsValid d) (mem : AddMemory) (now : ℕ) (key : Bytes) (val : CcObj)
    → Timely d
    → now < uint64_max
    → (dict_add mem now d key val).0 ≡ true
    → IsValid (dict_add mem now d key val).1
      × (within_limit (dict_add mem now d key val).1 ≡ true)
      × ((q : Bytes)
          → (view (dict_add mem now d key val).1 q ≡ update (view d) key (some (touch now val)) q)
            ⊎ (view (dict_add mem now d key val).1 q ≡ none))
dict_add-IsTrimmed {d} v mem now key val timely early done =
    let a = dict_add_lem v mem now key val in
    let before_timely = λ (q : Bytes) (w : CcObj) (s : view a.before q ≡ some w).
      (let r : w.last_access < uint64_max = ground (arith, a.becomes.reads q, timely q w) in r) in
    let t = dict_evict-IsTrimmed a.becomes.valid before_timely in
    rw (a.stores done) (t.valid, t.fits, λ q. ground (arith, t.kept q, a.becomes.reads q))
