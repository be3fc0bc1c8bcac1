-- ===== src/Dict/Scan.antt =====
-- What the search of `dict_evict_lru_if_needed` finds: an entry of the table that was used least
-- recently.
use crimson_cache.Base.{
  ℕ, zero, suc, ◌+◌, ◌≤◌, ◌≡◌, refl, ap, List, [], ◌∷◌, none, some, arith, if◌then◌else◌, get_or,
  get_elem?, ltb, inl, inr, Bool-cases, uint64_max, All,
}
use crimson_cache.CString.{Bytes}
use crimson_cache.Dict.Defs.{CcObj, DictEntry, Chain, Dict}
use crimson_cache.Dict.Chain.{chain_find}
use crimson_cache.Dict.Lru.{LruScan, scan_chain, scan_table, find_lru}

-- `entry` stands at position `j` of bucket `i`.
abbrev pub Stands : List Chain → ℕ → ℕ → DictEntry → Type 0
Stands bs i j e = get_elem? (get_or bs i []) j ≡ some e

abbrev pub NoOlder : ℕ → Chain → Type 0
NoOlder t c = All (λ e. t ≤ e.val.last_access) c

-- The search so far has an entry of the table with the oldest time, or none and the starting time.
pub record IsScan (bs : List Chain) (s : LruScan) : Type 0 where
  pub located :
      (i j : ℕ)
      → s.found ≡ some (i, j)
      → (e : DictEntry) × Stands bs i j e × (e.val.last_access ≡ s.oldest_access)
  pub unfound : s.found ≡ none → s.oldest_access ≡ uint64_max

NoOlder-le : {t u : ℕ} (c : Chain) → t ≤ u → NoOlder u c → NoOlder t c
NoOlder-le [] h a = tt
NoOlder-le (e ∷ c) h (x, a) = (omega arith, NoOlder-le c h a)

-- One entry of the walk.
abbrev visit : ℕ → ℕ → DictEntry → LruScan → LruScan
visit i j e s =
    if ltb e.val.last_access s.oldest_access
    then record { oldest_access = e.val.last_access; found = some (i, j) }
    else s

zero_add : (k : ℕ) → 0 + k ≡ k
zero_add k = omega arith

module _ (bs : List Chain) where
  visit-IsScan :
      (i j : ℕ) (e : DictEntry) (s : LruScan)
      → IsScan bs s
      → Stands bs i j e
      → IsScan bs (visit i j e s)
        × ((visit i j e s).oldest_access ≤ s.oldest_access)
        × ((visit i j e s).oldest_access ≤ e.val.last_access)
  visit-IsScan i j e s scan at = elim (Bool-cases (ltb e.val.last_access s.oldest_access)) [
    | inl older ↦ rw older (
      record {
        located = λ a b same.
            let ea : i ≡ a = ground arith in
            let eb : j ≡ b = ground arith in (e, rw (← ea, ← eb) at, refl);
        unfound = λ h. ground arith;
      },
      ground arith,
      ground arith,
    )
    | inr newer ↦ rw newer (scan, ground arith, ground arith)
  ]

  scan_chain_lem :
      (i j : ℕ) (c : Chain) (s : LruScan)
      → IsScan bs s
      → ((k : ℕ) → get_elem? (get_or bs i []) (j + k) ≡ get_elem? c k)
      → IsScan bs (scan_chain i j c s)
        × ((scan_chain i j c s).oldest_access ≤ s.oldest_access)
        × NoOlder (scan_chain i j c s).oldest_access c
  unfolding scan_chain
  scan_chain_lem i j [] s scan rest = (scan, omega arith, tt)
  scan_chain_lem i j (e ∷ c) s scan rest =
      let here : j + 0 ≡ j = omega arith in
      let (next, le_s, le_e) = visit-IsScan i j e s scan (rw here at (rest 0)) in
      let step = λ (k : ℕ).
        (let shift : j + suc k ≡ suc j + k = omega arith in rw shift at (rest (suc k))) in
      let (done, le, all) = scan_chain_lem i (suc j) c (visit i j e s) next step in
      (done, omega arith, (omega arith, all))

  scan_table_lem :
      (i : ℕ) (cs : List Chain) (s : LruScan)
      → IsScan bs s
      → ((k : ℕ) → get_or bs (i + k) [] ≡ get_or cs k [])
      → IsScan bs (scan_table i cs s)
        × ((scan_table i cs s).oldest_access ≤ s.oldest_access)
        × ((k : ℕ) → NoOlder (scan_table i cs s).oldest_access (get_or cs k []))
  unfolding scan_table
  scan_table_lem i [] s scan rest = (scan, omega arith, λ k. tt)
  scan_table_lem i (c ∷ cs) s scan rest =
      let here : i + 0 ≡ i = omega arith in
      let bucket_here : get_or bs i [] ≡ c = rw here at (rest 0) in
      let (next, le_s, all) =
        scan_chain_lem i 0 c s scan (λ k. rw bucket_here (ap (get_elem? c) (zero_add k))) in
      let step = λ (k : ℕ).
        (let shift : i + suc k ≡ suc i + k = omega arith in rw shift at (rest (suc k))) in
      let (done, le, others) = scan_table_lem (suc i) cs (scan_chain i 0 c s) next step in
      (
        done,
        omega arith,
        λ k.
            elim k
              as (λ k. NoOlder (scan_table i (c ∷ cs) s).oldest_access (get_or (c ∷ cs) k [])) [
                | zero ↦ NoOlder-le c le all
                | suc m ↦ others m
              ],
      )

-- The search ends at an entry of the table that no entry is older than, or finds none, and then no
-- entry was used before the last millisecond of the clock.
pub find_lru_lem :
    (d : Dict)
    → IsScan d.table (find_lru d)
      × ((k : ℕ) → NoOlder (find_lru d).oldest_access (get_or d.table k []))
unfolding find_lru
find_lru_lem d =
    let (scan, le, all) =
      scan_table_lem d.table 0 d.table (record { oldest_access = uint64_max; found = none })
        (record { located = λ i j h. cc; unfound = λ h. refl })
        (λ k. ap (λ (n : ℕ). get_or d.table n []) (zero_add k)) in
    (scan, all)

-- What is found under a key is no older than all that its chain is no older than.
pub NoOlder-found :
    (t : ℕ) (q : Bytes) (c : Chain) (val : CcObj)
    → NoOlder t c
    → chain_find q c ≡ some val
    → t ≤ val.last_access
unfolding chain_find
NoOlder-found t q [] val a h = cc
NoOlder-found t q (e ∷ c) val (x, a) h = ground (arith, NoOlder-found t q c val a)
