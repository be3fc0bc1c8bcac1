-- ===== src/Dict/Clear.antt =====
-- `dict_clear_expired` takes exactly the expired keys out of the map.
use crimson_cache.Base.{
  ℕ, zero, suc, ◌+◌, ◌%◌, ◌≤◌, ◌≡◌, refl, sym, ap, ◌∙◌, List, [], ◌∷◌, Option, none, some, arith,
  if◌then◌else◌, length, get_or, word, sub64, map, Bool-cases, inl, inr,
}
use mathlib.Core.Path.{ap₂}
use crimson_cache.CString.{Bytes}
use crimson_cache.Dict.Hash.{index}
use crimson_cache.Dict.Defs.{CcObj, Chain, Dict, bucket}
use crimson_cache.Dict.Chain.{chain_find, count, weight, entry_size, one_each, chain_find-eq-none}
use crimson_cache.Dict.Lru.{table_weight}
use crimson_cache.Dict.Ops.{is_expired, sweep_chain, sweep_table, dict_clear_expired}
use crimson_cache.Dict.Valid.{IsValid, view}
use crimson_cache.Dict.Access.{Becomes}

-- What of a map is left at a time: the values that have not expired.
abbrev pub alive : ℕ → Option CcObj → Option CcObj
alive now none = none
alive now (some val) = if is_expired now val then none else some val

-- The chain without its expired entries.
unfoldable pub live_chain : ℕ → Chain → Chain
live_chain now [] = []
live_chain now (e ∷ c) = if is_expired now e.val then live_chain now c else e ∷ live_chain now c

module _ (now : ℕ) where
  count-live_chain : (q : Bytes) (c : Chain) → count q (live_chain now c) ≤ count q c
  unfolding count live_chain
  count-live_chain q [] = omega arith
  count-live_chain q (e ∷ c) = ground (arith, count-live_chain q c)

  chain_find-live :
      (q : Bytes) (c : Chain)
      → count q c ≤ 1
      → chain_find q (live_chain now c) ≡ alive now (chain_find q c)
  unfolding count chain_find live_chain
  chain_find-live q [] h = refl
  chain_find-live q (e ∷ c) h =
      ground
        (arith, chain_find-live q c, count-live_chain q c, chain_find-eq-none q (live_chain now c))

  -- The loop over one bucket keeps the live entries, and its counters follow what it keeps, where
  -- the rest of the table weighs `m` entries and `n` bytes.
  sweep_chain_lem :
      (c : Chain) (used memory m n : ℕ)
      → used ≡ (weight one_each c + m) % word
      → memory ≡ (weight entry_size c + n) % word
      → ((sweep_chain now c used memory).kept ≡ live_chain now c)
        × ((sweep_chain now c used memory).used_left
            ≡ (weight one_each (live_chain now c) + m) % word)
        × ((sweep_chain now c used memory).memory_left
            ≡ (weight entry_size (live_chain now c) + n) % word)
  unfolding sweep_chain live_chain weight
  sweep_chain_lem [] used memory m n hu hm = (refl, hu, hm)
  sweep_chain_lem (e ∷ c) used memory m n hu hm = elim (Bool-cases (is_expired now e.val)) [
    | inl gone ↦
        rw gone (
          sweep_chain_lem c (sub64 used 1) (sub64 memory e.val.size) m n (omega arith)
            (omega arith))
    | inr stays ↦
        let (k, u, b) =
          sweep_chain_lem c used memory (1 + m) (e.val.size + n) (omega arith) (omega arith) in
        rw stays (ap (λ (r : Chain). e ∷ r) k, omega arith, omega arith)
  ]

  sweep_table_lem :
      (cs : List Chain) (d : Dict) (m n : ℕ)
      → d.used ≡ (table_weight one_each cs + m) % word
      → d.used_memory ≡ (table_weight entry_size cs + n) % word
      → ((sweep_table now cs d).table ≡ map (live_chain now) cs)
        × ((sweep_table now cs d).used
            ≡ (table_weight one_each (map (live_chain now) cs) + m) % word)
        × ((sweep_table now cs d).used_memory
            ≡ (table_weight entry_size (map (live_chain now) cs) + n) % word)
  unfolding sweep_table table_weight
  sweep_table_lem [] d m n hu hm = (refl, hu, hm)
  sweep_table_lem (c ∷ cs) d m n hu hm =
      let (k, u, b) =
        sweep_chain_lem c d.used d.used_memory (table_weight one_each cs + m)
          (table_weight entry_size cs + n) (omega arith) (omega arith) in
      let s = sweep_chain now c d.used d.used_memory in
      let (t, u', b') =
        sweep_table_lem cs (record d { used = s.used_left; used_memory = s.memory_left })
          (weight one_each (live_chain now c) + m) (weight entry_size (live_chain now c) + n)
          (omega arith) (omega arith) in
      (ap₂ (λ (x : Chain) (y : List Chain). x ∷ y) k t, omega arith, omega arith)

  -- The sweep changes the table and the two counters alone.
  sweep_table_rest :
      (cs : List Chain) (d : Dict)
      → ((sweep_table now cs d).size ≡ d.size)
        × ((sweep_table now cs d).mask ≡ d.mask)
        × ((sweep_table now cs d).max_memory ≡ d.max_memory)
  unfolding sweep_table
  sweep_table_rest [] d = (refl, refl, refl)
  sweep_table_rest (c ∷ cs) d = sweep_table_rest cs _

  length-live : (cs : List Chain) → length (map (live_chain now) cs) ≡ length cs
  length-live [] = refl
  length-live (c ∷ cs) = ap suc (length-live cs)

  get_or-live :
      (cs : List Chain) (i : ℕ)
      → get_or (map (live_chain now) cs) i [] ≡ live_chain now (get_or cs i [])
  get_or-live [] i = unfold live_chain in refl
  get_or-live (c ∷ cs) zero = refl
  get_or-live (c ∷ cs) (suc i) = get_or-live cs i

-- `dict_clear_expired` leaves a well-formed dictionary whose map is the old one without the
-- expired values, and leaves the limit alone.
pub dict_clear_expired_lem :
    {d : Dict} (v : IsValid d) (now : ℕ)
    → Becomes (dict_clear_expired now d) (λ q. alive now (view d q))
      × ((dict_clear_expired now d).max_memory ≡ d.max_memory)
unfolding dict_clear_expired view
dict_clear_expired_lem {d} v now =
    let (t, u, b) =
      sweep_table_lem now d.table d 0 0 (omega (arith, v.counted)) (omega (arith, v.measured)) in
    let (size, mask, limit) = sweep_table_rest now d.table d in
    (
      record {
        valid = record {
          log_size = v.log_size;
          power = size ∙ v.power;
          width = rw t (length-live now d.table ∙ v.width ∙ sym size);
          masked = omega (arith, v.masked);
          roomy = omega (arith, v.roomy);
          placed = λ q i.
              rw (t, mask, get_or-live now d.table i)
                (ground (arith, v.placed q i, count-live_chain now q (get_or d.table i [])));
          counted = rw t (omega arith);
          measured = rw t (omega arith);
        };
        reads = λ q.
            rw (t, mask, get_or-live now d.table (index q d.mask))
              (chain_find-live now q (bucket d q) (v.placed q (index q d.mask)).0);
      },
      limit,
    )

-- The table after the sweep.
pub dict_clear_expired-table :
    {d : Dict} (v : IsValid d) (now : ℕ)
    → (dict_clear_expired now d).table ≡ map (live_chain now) d.table
unfolding dict_clear_expired
dict_clear_expired-table {d} v now =
    (sweep_table_lem now d.table d 0 0 (omega (arith, v.counted)) (omega (arith, v.measured))).0
