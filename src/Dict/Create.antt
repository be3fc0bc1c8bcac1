-- ===== src/Dict/Create.antt =====
-- `dict_create`: the size it rounds up to, and the empty dictionary that it makes.
use crimson_cache.Base.{
  ℕ, zero, suc, ◌*◌, ◌%◌, ◌^◌, ◌≤◌, ◌<◌, ◌≡◌, refl, Bool, true, [], none, some, arith,
  if◌then◌else◌, replicate, length-replicate, get_or-replicate, word, ltb, ◌⊎◌, inl, inr,
  Bool-cases, le→ltb, lt→ltb, ap, sym, ◌∙◌, ltb→lt,
}
use crimson_cache.Dict.Defs.{DictEntry, Dict}
use crimson_cache.Dict.Chain.{chain_find, count, weight}
use crimson_cache.Dict.Lru.{table_weight}
use crimson_cache.Dict.Ops.{round_up, new_dict, dict_of_size, dict_create}
use crimson_cache.Dict.Valid.{view}
use crimson_cache.Dict.Access.{Becomes}
use native.Mathlib.Nat.{pow-suc}

pub table_weight-replicate : (w : DictEntry → ℕ) (n : ℕ) → table_weight w (replicate n []) ≡ 0
unfolding table_weight weight
table_weight-replicate w zero = refl
table_weight-replicate w (suc n) = omega (arith, table_weight-replicate w n)

-- An empty table of a power of two that fits is a well-formed dictionary of the empty map.
pub new_dict_lem :
    (k size max_memory : ℕ)
    → size ≡ 2 ^ k
    → 0 < size
    → size * 8 < word
    → Becomes (record (new_dict size) { max_memory = max_memory }) (λ _. none)
unfolding view chain_find count
new_dict_lem k size max_memory e pos fits = record {
  valid = record {
    log_size = k;
    power = e;
    width = length-replicate size [];
    masked = omega arith;
    roomy = fits;
    placed = λ q i. rw get_or-replicate (omega arith);
    counted = rw table_weight-replicate (omega arith);
    measured = rw table_weight-replicate (omega arith);
  };
  reads = λ q. rw get_or-replicate;
}

pow_pos : (n : ℕ) → 0 < 2 ^ n
pow_pos zero = omega arith
pow_pos (suc n) = rw pow-suc (omega (arith, pow_pos n))

round_up_stop :
    (fuel size initial_size : ℕ)
    → initial_size ≤ size
    → round_up (suc fuel) size initial_size ≡ some size
unfolding round_up
round_up_stop fuel size initial_size h = rw (le→ltb size initial_size h)

round_up_go :
    (fuel size initial_size : ℕ)
    → size < initial_size
    → size * 2 < word
    → round_up (suc fuel) size initial_size ≡ round_up fuel (size * 2) initial_size
unfolding round_up
round_up_go fuel size initial_size h fits =
    let wraps : (size * 2) % word ≡ size * 2 = omega arith in rw (lt→ltb size initial_size h, wraps)

double :
    (size n : ℕ) → size * 2 ^ suc n ≡ 2 ^ 63 → (size * 2 * 2 ^ n ≡ 2 ^ 63) × (size * 2 ≤ 2 ^ 63)
double size n e =
    let next : size * 2 * 2 ^ n ≡ 2 ^ 63 =
      omega (arith, e, ap (λ (t : ℕ). size * t) (pow-suc 2 n)) in
    (next, rw (← next) (grind (arith, pow_pos n)))

-- The loop from 2 ^ k: with n doublings left below 2 ^ 63 it ends at the first power of two that
-- is large enough.
round_up_from :
    (n k fuel size initial_size : ℕ)
    → size * 2 ^ n ≡ 2 ^ 63
    → size ≡ 2 ^ k
    → initial_size ≤ 2 ^ 63
    → n < fuel
    → (j : ℕ) × (round_up fuel size initial_size ≡ some (2 ^ j))
      × (initial_size ≤ 2 ^ j)
      × (size ≤ 2 ^ j)
      × (2 ^ j < 2 * initial_size ⊎ 2 ^ j ≡ size)
round_up_from n k zero size initial_size e p small enough = absurd (omega arith)
round_up_from zero k (suc fuel) size initial_size e p small enough =
    let big : initial_size ≤ size = omega arith in
    (
      k,
      round_up_stop fuel size initial_size big ∙ ap some p,
      rw (← p) big,
      rw (← p) (omega arith),
      inr (sym p),
    )
round_up_from (suc n) k (suc fuel) size initial_size e p small enough =
    elim (Bool-cases (ltb size initial_size)) [
      | inr stop ↦
          let big : initial_size ≤ size = ground arith in
          (
            k,
            round_up_stop fuel size initial_size big ∙ ap some p,
            rw (← p) big,
            rw (← p) (omega arith),
            inr (sym p),
          )
      | inl more ↦
          let less = ltb→lt size initial_size more in
          let (next, fits) = double size n e in
          let (j, run, large, up, first) =
            round_up_from n (suc k) fuel (size * 2) initial_size next (rw (p, pow-suc)) small
              (omega arith) in
          let smallest : 2 ^ j < 2 * initial_size = elim first [
            | inl h ↦ h
            | inr h ↦ omega arith
          ] in
          (
            j,
            round_up_go fuel size initial_size less (omega arith) ∙ run,
            large,
            omega arith,
            inl smallest,
          )
    ]

abbrev pub at_least_four : ℕ → ℕ
at_least_four n = if ltb n 4 then 4 else n

-- What a dictionary just made is: the empty map, in a table of the smallest power of two that is
-- large enough, with no limit on its memory.
pub record IsFresh (initial_size : ℕ) (d : Dict) : Type 0 where
  pub empty : Becomes d (λ _. none)
  pub large : at_least_four initial_size ≤ d.size
  pub tight : d.size < 2 * at_least_four initial_size
  pub unlimited : d.max_memory ≡ 0

-- For a size up to 2 ^ 60 and granted allocations, `dict_create` ends after at most 63 doublings
-- and returns a fresh dictionary.
pub dict_create-IsFresh :
    (initial_size : ℕ)
    → initial_size ≤ 2 ^ 60
    → (d : Dict) × (dict_create 64 true true initial_size ≡ some (some d)) × IsFresh initial_size d
unfolding dict_create
dict_create-IsFresh initial_size small =
    let n = at_least_four initial_size in
    let n_small : n ≤ 2 ^ 60 = ground arith in
    let n_large : 4 ≤ n = ground arith in
    let (j, run, large, up, first) =
      round_up_from 63 0 64 1 n (omega arith) (omega arith) (omega arith) (omega arith) in
    let tight : 2 ^ j < 2 * n = elim first [ inl h ↦ h | inr h ↦ omega arith ] in
    (
      new_dict (2 ^ j),
      rw (run, lt→ltb (2 ^ j * 8) word (omega arith)),
      record {
        empty = new_dict_lem j (2 ^ j) 0 refl (omega arith) (omega arith);
        large = large;
        tight = tight;
        unlimited = refl;
      },
    )

round_up_zero : (fuel initial_size : ℕ) → 0 < initial_size → round_up fuel 0 initial_size ≡ none
unfolding round_up
round_up_zero zero initial_size h = refl
round_up_zero (suc fuel) initial_size h =
    rw (lt→ltb 0 initial_size h) (round_up_zero fuel initial_size h)

round_up_stuck :
    (fuel n size initial_size : ℕ)
    → size * 2 ^ n ≡ 2 ^ 63
    → 2 ^ 63 < initial_size
    → round_up fuel size initial_size ≡ none
unfolding round_up
round_up_stuck zero n size initial_size e h = refl
round_up_stuck (suc fuel) zero size initial_size e h =
    let wraps : (size * 2) % word ≡ 0 = omega arith in
    rw (lt→ltb size initial_size (omega arith), wraps)
      (round_up_zero fuel initial_size (omega arith))
round_up_stuck (suc fuel) (suc n) size initial_size e h =
    let (next, fits) = double size n e in
    let wraps : (size * 2) % word ≡ size * 2 = omega arith in
    rw (lt→ltb size initial_size (omega arith), wraps)
      (round_up_stuck fuel n (size * 2) initial_size next h)

-- Above 2 ^ 63 the loop of `dict_create` never ends: the size wraps around to 0 and stays there.
pub dict_create_diverges :
    (fuel initial_size : ℕ) (granted : Bool)
    → 2 ^ 63 < initial_size
    → dict_create fuel true granted initial_size ≡ none
unfolding dict_create dict_of_size
dict_create_diverges fuel initial_size granted h =
    let n_large : 2 ^ 63 < at_least_four initial_size = ground arith in
    rw (round_up_stuck fuel 63 1 (at_least_four initial_size) (omega arith) n_large)
