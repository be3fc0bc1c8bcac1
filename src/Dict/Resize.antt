-- ===== src/Dict/Resize.antt =====
-- `dict_resize` keeps the abstract map.
use crimson_cache.Base.{
  ℕ, zero, suc, ◌+◌, ◌*◌, ◌%◌, ◌^◌, ◌≤◌, ◌<◌, ◌≡◌, ◌≢◌, refl, sym, ap, ◌∙◌, Bool, true, false, ◌&&◌,
  List, [], ◌∷◌, ◌++◌, Option, arith, if◌then◌else◌, get_or, word, ltb, inl, inr, Bool-cases,
  ltb→lt, subst, sub64, replicate,
}
use crimson_cache.CString.{Bytes}
use crimson_cache.Dict.Hash.{index}
use crimson_cache.Dict.Defs.{CcObj, DictEntry, Chain, Dict}
use crimson_cache.Dict.Chain.{chain_find, count, weight, entry_size, one_each, chain_find-eq-none}
use crimson_cache.Dict.Lru.{table_weight}
use crimson_cache.Dict.Ops.{move_chain, move_all, dict_resize, new_dict}
use crimson_cache.Dict.Valid.{IsValid, view}
use crimson_cache.Dict.Access.{Becomes}
use crimson_cache.Dict.Create.{new_dict_lem, table_weight-replicate}
use crimson_cache.Dict.Insert.{
  place_all, place_all-move_chain, move_chain-append, find_else, place_all_lem,
}
use mathlib.Core.List.{flatten}
use native.Mathlib.Nat.{pow-suc}

move_all-flatten :
    (mask : ℕ) (bs fresh : List Chain) → move_all mask bs fresh ≡ move_chain mask (flatten bs) fresh
unfolding move_all flatten
move_all-flatten mask [] fresh = unfold move_chain in refl
move_all-flatten mask (c ∷ cs) fresh =
    move_all-flatten mask cs (move_chain mask c fresh)
    ∙ sym (move_chain-append mask c (flatten cs) fresh)

chain_find-append :
    (q : Bytes) (a b : Chain) → chain_find q (a ++ b) ≡ find_else q a (chain_find q b)
unfolding chain_find
chain_find-append q [] b = refl
chain_find-append q (e ∷ a) b = ground (arith, chain_find-append q a b)

count-append : (q : Bytes) (a b : Chain) → count q (a ++ b) ≡ count q a + count q b
unfolding count
count-append q [] b = omega arith
count-append q (e ∷ a) b = omega (arith, count-append q a b)

weight-append : (w : DictEntry → ℕ) (a b : Chain) → weight w (a ++ b) ≡ weight w a + weight w b
unfolding weight
weight-append w [] b = omega arith
weight-append w (e ∷ a) b = omega (arith, weight-append w a b)

pub weight-flatten :
    (w : DictEntry → ℕ) (bs : List Chain) → weight w (flatten bs) ≡ table_weight w bs
unfolding weight table_weight flatten
weight-flatten w [] = refl
weight-flatten w (c ∷ cs) = omega (arith, weight-append w c (flatten cs), weight-flatten w cs)

count-flatten_nowhere :
    (q : Bytes) (bs : List Chain)
    → ((i : ℕ) → count q (get_or bs i []) ≡ 0)
    → count q (flatten bs) ≡ 0
unfolding flatten
count-flatten_nowhere q [] h = h 0
count-flatten_nowhere q (c ∷ cs) h =
    omega (arith, count-append q c (flatten cs), h 0, count-flatten_nowhere q cs (λ i. h (suc i)))

-- A key that stands in one bucket only is found in the joined buckets as in that one.
flatten_only :
    (q : Bytes) (bs : List Chain) (j : ℕ)
    → ((i : ℕ) → j ≢ i → count q (get_or bs i []) ≡ 0)
    → (chain_find q (flatten bs) ≡ chain_find q (get_or bs j []))
      × (count q (flatten bs) ≡ count q (get_or bs j []))
unfolding flatten
flatten_only q [] j h = (refl, refl)
flatten_only q (c ∷ cs) zero h =
    let rest = count-flatten_nowhere q cs (λ i. h (suc i) (omega arith)) in
    let gone = chain_find-eq-none q (flatten cs) rest in
    (
      ground (arith, chain_find-append q c (flatten cs)),
      omega (arith, count-append q c (flatten cs)),
    )
flatten_only q (c ∷ cs) (suc j) h =
    let here = h 0 (omega arith) in
    let gone = chain_find-eq-none q c here in
    let (same, as_often) = flatten_only q cs j (λ i n. h (suc i) (omega arith)) in
    (
      ground (arith, chain_find-append q c (flatten cs)),
      omega (arith, count-append q c (flatten cs)),
    )

module _ {d : Dict} (v : IsValid d) where
  pub flatten-view :
      (q : Bytes) → (chain_find q (flatten d.table) ≡ view d q) × (count q (flatten d.table) ≤ 1)
  unfolding view
  flatten-view q =
      let (same, as_often) = flatten_only q d.table (index q d.mask) (λ i n. (v.placed q i).1 n) in
      (same, omega (arith, (v.placed q (index q d.mask)).0))

  grown : (size : ℕ) → Dict
  grown size = place_all (flatten d.table) (record (new_dict size) { max_memory = d.max_memory })

  grown_lem :
      (size : ℕ)
      → size ≡ d.size * 2
      → size * 8 < word
      → Becomes (grown size) (view d)
        × ((w : DictEntry → ℕ) → table_weight w (grown size).table ≡ table_weight w d.table)
  unfolding grown
  grown_lem size e fits =
      let power : d.size * 2 ≡ 2 ^ suc v.log_size = rw (v.power, pow-suc) in
      let start = new_dict_lem (suc v.log_size) size d.max_memory (e ∙ power) (omega arith) fits in
      let (all, sums) =
        place_all_lem (flatten d.table) start (λ q. (flatten-view q).1) (λ q _. refl) in
      (
        record { valid = all.valid; reads = λ q. ground (arith, all.reads q, (flatten-view q).0) },
        λ w. omega (arith, sums w, weight-flatten w d.table, table_weight-replicate w size),
      )

-- Other counters that agree with the table do as well.
recount :
    {d : Dict} {f : Bytes → Option CcObj} (used memory : ℕ)
    → Becomes d f
    → used ≡ table_weight one_each d.table % word
    → memory ≡ table_weight entry_size d.table % word
    → Becomes (record d { used = used; used_memory = memory }) f
unfolding view
recount used memory b counts sizes =
    let v = b.valid in
    record {
      valid = record {
        log_size = v.log_size;
        power = v.power;
        width = v.width;
        masked = v.masked;
        roomy = v.roomy;
        placed = v.placed;
        counted = counts;
        measured = sizes;
      };
      reads = b.reads;
    }

-- The dictionary that `dict_resize` leaves where it gets its new table.
abbrev resized : Dict → ℕ → Dict
resized d n = record d {
  table = move_all (sub64 n 1) d.table (replicate n []);
  size = n;
  mask = sub64 n 1;
}

module _ {d : Dict} (v : IsValid d) where
  resized-grown :
      (n : ℕ) → record (grown v n) { used = d.used; used_memory = d.used_memory } ≡ resized d n
  unfolding grown
  resized-grown n =
      let start = record (new_dict n) { max_memory = d.max_memory } in
      rw move_all-flatten (
        ap (λ (x : Dict). record x { used = d.used; used_memory = d.used_memory })
          (place_all-move_chain (flatten d.table) start))

  resized_lem : (n : ℕ) → n ≡ d.size * 2 → n * 8 < word → Becomes (resized d n) (view d)
  resized_lem n e fits =
      let (b, sums) = grown_lem v n e fits in
      subst (λ (x : Dict). Becomes x (view d)) (resized-grown n)
        (recount d.used d.used_memory b (omega (arith, v.counted, sums one_each))
          (omega (arith, v.measured, sums entry_size)))

  -- `dict_resize` keeps the map, whether or not it gets memory for the new table; if it does, the
  -- table is twice as large.
  pub dict_resize_lem :
      (granted : Bool)
      → Becomes (dict_resize granted d) (view d)
        × ((dict_resize granted d).max_memory ≡ d.max_memory)
        × ((dict_resize granted d).size
            ≡ (if granted && ltb (d.size * 2 * 8) word then d.size * 2 else d.size))
  unfolding dict_resize
  dict_resize_lem false = (record { valid = v; reads = λ q. refl }, refl, refl)
  dict_resize_lem true =
      let n : (d.size * 2) % word ≡ d.size * 2 = omega (arith, v.roomy) in
      elim (Bool-cases (ltb (d.size * 2 * 8) word)) [
        | inl fits ↦ rw (n, fits) (resized_lem (d.size * 2) refl (ltb→lt _ _ fits), refl, refl)
        | inr large ↦ rw (n, large) (record { valid = v; reads = λ q. refl }, refl, refl)
      ]
