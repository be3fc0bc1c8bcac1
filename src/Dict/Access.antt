-- ===== src/Dict/Access.antt =====
-- `dict_delete` and `dict_get` refine the abstract map.
use crimson_cache.Base.{
  ℕ, ◌+◌, ◌≤◌, ◌≡◌, refl, Bool, true, false, Option, none, some, arith, if◌then◌else◌, set, inl,
  inr, sub64, Option-cases, Bool-cases,
}
use crimson_cache.CString.{Bytes, str_eq, str_eq_iff}
use crimson_cache.Dict.Hash.{index}
use crimson_cache.Dict.Defs.{CcObj, DictEntry, Chain, Dict, bucket}
use crimson_cache.Dict.Chain.{
  chain_find, chain_assign, chain_delete, count, weight, entry_size, one_each, chain_find-assign,
  chain_find-delete, count-assign, count-delete-le, weight-assign, weight-delete,
}
use crimson_cache.Dict.Lru.{table_weight}
use crimson_cache.Dict.Ops.{dict_delete, dict_get, dict_write, is_expired, touch}
use crimson_cache.Dict.Valid.{IsValid, view, table_weight-set, index-lt, set-IsValid, view-set}

abbrev pub is_some {ℓ} : {A : Type ℓ} → Option A → Bool
is_some none = false
is_some (some a) = true

-- What a dictionary is after an operation that turns its map into `f`.
pub record Becomes (d : Dict) (f : Bytes → Option CcObj) : Type 0 where
  pub valid : IsValid d
  pub reads : (q : Bytes) → view d q ≡ f q

abbrev pub update : (Bytes → Option CcObj) → Bytes → Option CcObj → Bytes → Option CcObj
update f key o q = if str_eq key q then o else f q

module _ {d : Dict} (v : IsValid d) (key : Bytes) where
  abbrev pub old_chain : Chain
  old_chain = bucket d key

  pub old_once : (q : Bytes) → count q old_chain ≤ 1
  old_once q = (v.placed q (index key d.mask)).0

  -- The totals of the table after a write of `c` to the bucket.
  pub totals :
      (w : DictEntry → ℕ) (c : Chain)
      → table_weight w (set d.table (index key d.mask) c) + weight w old_chain
        ≡ table_weight w d.table + weight w c
  totals w c = table_weight-set w d.table (index key d.mask) c (index-lt key v)

  delete_found :
      (old : CcObj)
      → chain_find key old_chain ≡ some old
      → Becomes
          (record d {
            table = set d.table (index key d.mask) (chain_delete key old_chain);
            used_memory = sub64 d.used_memory old.size;
            used = sub64 d.used 1;
          })
          (update (view d) key none)
  delete_found old e =
      let c = chain_delete key old_chain in
      record {
        valid =
            set-IsValid v key c _ _
              (λ q. omega (arith, count-delete-le key q old_chain, old_once q))
              (λ q _. count-delete-le key q old_chain)
              (omega
                (arith, v.counted, totals one_each c, weight-delete key (λ o. 1) old_chain old e))
              (omega (
                arith,
                v.measured,
                totals entry_size c,
                weight-delete key (λ o. o.size) old_chain old e,
              ));
        reads = view-set v key c none _ _ (λ q. chain_find-delete key q old_chain (old_once q));
      }

  unchanged_absent : view d key ≡ none → Becomes d (update (view d) key none)
  unchanged_absent e = record { valid = v; reads = λ q. ground (arith, str_eq_iff key q) }

  delete_none : view d key ≡ none → dict_delete d key ≡ (false, d)
  unfolding dict_delete view
  delete_none e = rw (e, dict_delete)

  pub delete_some :
      (old : CcObj)
      → view d key ≡ some old
      → dict_delete d key ≡ (
        true,
        record d {
          table = set d.table (index key d.mask) (chain_delete key old_chain);
          used_memory = sub64 d.used_memory old.size;
          used = sub64 d.used 1;
        },
      )
  unfolding dict_delete view
  delete_some old e = rw (e, dict_delete)

  -- `dict_delete` says whether the key was there, and removes it from the map.
  pub dict_delete_lem :
      ((dict_delete d key).0 ≡ is_some (view d key))
      × Becomes (dict_delete d key).1 (update (view d) key none)
  dict_delete_lem = elim (Option-cases (view d key)) [
    | inl e ↦ rw (delete_none e) (rw e, unchanged_absent e)
    | inr (old, e) ↦ rw (delete_some old e) (rw e, delete_found old (unfold view in e))
  ]

  -- Writing through a pointer to the value of a key, where the size stays.
  pub dict_write_lem :
      (val old : CcObj)
      → view d key ≡ some old
      → val.size ≡ old.size
      → Becomes (dict_write d key val) (update (view d) key (some val))
  unfolding dict_write view
  dict_write_lem val old e same =
      let c = chain_assign key val old_chain in
      record {
        valid =
            set-IsValid v key c d.used d.used_memory
              (λ q. omega (arith, count-assign key q val old_chain, old_once q))
              (λ q _. omega (arith, count-assign key q val old_chain))
              (omega (
                arith,
                v.counted,
                totals one_each c,
                weight-assign key (λ o. 1) val old_chain old e,
              ))
              (omega (
                arith,
                v.measured,
                totals entry_size c,
                weight-assign key (λ o. o.size) val old_chain old e,
              ));
        reads =
            view-set v key c (some val) d.used d.used_memory
              (λ q. chain_find-assign key q val old_chain old e);
      }

-- What a client is shown of the entry under a key: nothing if it has expired, else the entry with
-- its new access time.
abbrev pub shown : ℕ → ℕ → Option CcObj → Option CcObj
shown now later none = none
shown now later (some val) = if is_expired now val then none else some (touch later val)

module _ {d : Dict} (v : IsValid d) (now later : ℕ) (key : Bytes) where
  get_none : view d key ≡ none → dict_get now later d key ≡ (none, d)
  unfolding dict_get view
  get_none e = rw (e, dict_get)

  get_expired :
      (val : CcObj)
      → view d key ≡ some val
      → is_expired now val ≡ true
      → dict_get now later d key ≡ (none, (dict_delete d key).1)
  unfolding dict_get view
  get_expired val e x = rw (e, dict_get) (unfold is_expired in rw x)

  get_live :
      (val : CcObj)
      → view d key ≡ some val
      → is_expired now val ≡ false
      → dict_get now later d key ≡ (some (touch later val), dict_write d key (touch later val))
  unfolding dict_get view
  get_live val e x = rw (e, dict_get) (unfold is_expired in rw x)

  -- `dict_get` returns what is shown of the key, and leaves just that in the map: an expired entry
  -- is deleted, a live one has its access time set, and no other key changes.
  pub dict_get_lem :
      ((dict_get now later d key).0 ≡ shown now later (view d key))
      × Becomes (dict_get now later d key).1 (update (view d) key (shown now later (view d key)))
  dict_get_lem = elim (Option-cases (view d key)) [
    | inl e ↦ rw (get_none e) (rw e (refl, unchanged_absent v key e))
    | inr (val, e) ↦ elim (Bool-cases (is_expired now val)) [
      | inl x ↦ rw (get_expired val e x) (rw e (rw x (refl, (dict_delete_lem v key).1)))
      | inr x ↦
          rw (get_live val e x)
            (rw e (rw x (refl, dict_write_lem v key (touch later val) val e refl)))
    ]
  ]

pub dict_delete-max_memory :
    (d : Dict) (key : Bytes) → (dict_delete d key).1.max_memory ≡ d.max_memory
unfolding dict_delete
dict_delete-max_memory d key = elim (Option-cases (chain_find key (bucket d key))) [
  | inl e ↦ rw (e, dict_delete)
  | inr (old, e) ↦ rw (e, dict_delete)
]

-- `dict_get` leaves the limit alone.
pub dict_get-max_memory :
    (d : Dict) (now later : ℕ) (key : Bytes)
    → (dict_get now later d key).1.max_memory ≡ d.max_memory
unfolding dict_get dict_write
dict_get-max_memory d now later key = elim (Option-cases (chain_find key (bucket d key))) [
  | inl e ↦ rw (e, dict_get)
  | inr (val, e) ↦ elim (Bool-cases (is_expired now val)) [
    | inl gone ↦ rw (e, dict_get) (rw gone (dict_delete-max_memory d key))
    | inr live ↦ rw (e, dict_get) (rw live)
  ]
]
