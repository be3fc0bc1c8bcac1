-- ===== src/Dict/Chain.antt =====
-- The walks along one bucket in src/dict.c, and their laws.
use crimson_cache.Base.{ℕ, ◌+◌, ◌≤◌, ◌≡◌, refl, [], ◌∷◌, Option, none, some, arith, if◌then◌else◌}
use crimson_cache.CString.{Bytes, str_eq, str_eq_iff}
use crimson_cache.Dict.Defs.{CcObj, DictEntry, Chain}

-- `while (entry) if (strcmp(entry->key, key) == 0) …`
unfoldable pub chain_find : Bytes → Chain → Option CcObj
chain_find key [] = none
chain_find key (e ∷ c) = if str_eq e.key key then some e.val else chain_find key c

-- `entry->val = val` at the entry that the walk stops at
unfoldable pub chain_assign : Bytes → CcObj → Chain → Chain
chain_assign key val [] = []
chain_assign key val (e ∷ c) =
    if str_eq e.key key then record e { val = val } ∷ c else e ∷ chain_assign key val c

-- `prev->next = entry->next` or `table[idx] = entry->next`
unfoldable pub chain_delete : Bytes → Chain → Chain
chain_delete key [] = []
chain_delete key (e ∷ c) = if str_eq e.key key then c else e ∷ chain_delete key c

-- How often a key stands in a chain.
unfoldable pub count : Bytes → Chain → ℕ
count q [] = 0
count q (e ∷ c) = (if str_eq e.key q then 1 else 0) + count q c

-- The sum of a measure over a chain.
unfoldable pub weight : (DictEntry → ℕ) → Chain → ℕ
weight w [] = 0
weight w (e ∷ c) = w e + weight w c

abbrev pub entry_size : DictEntry → ℕ
entry_size e = e.val.size

abbrev pub one_each : DictEntry → ℕ
one_each e = 1

pub chain_find-eq-none : (q : Bytes) (c : Chain) → count q c ≡ 0 → chain_find q c ≡ none
unfolding count chain_find
chain_find-eq-none q [] h = refl
chain_find-eq-none q (e ∷ c) h = ground (arith, chain_find-eq-none q c)

pub count-eq-zero : (q : Bytes) (c : Chain) → chain_find q c ≡ none → count q c ≡ 0
unfolding count chain_find
count-eq-zero q [] h = refl
count-eq-zero q (e ∷ c) h = ground (arith, count-eq-zero q c)

module _ (key : Bytes) where
  module _ (q : Bytes) where
    pub chain_find-assign :
        (val : CcObj) (c : Chain) (old : CcObj)
        → chain_find key c ≡ some old
        → chain_find q (chain_assign key val c)
          ≡ (if str_eq key q then some val else chain_find q c)
    unfolding chain_find chain_assign
    chain_find-assign val [] old h = cc
    chain_find-assign val (e ∷ c) old h = ground (
      arith,
      chain_find-assign val c old,
      str_eq_iff e.key key,
      str_eq_iff e.key q,
      str_eq_iff key q,
    )

    pub count-assign : (val : CcObj) (c : Chain) → count q (chain_assign key val c) ≡ count q c
    unfolding count chain_assign
    count-assign val [] = refl
    count-assign val (e ∷ c) = ground (arith, count-assign val c)

    pub count-delete-le : (c : Chain) → count q (chain_delete key c) ≤ count q c
    unfolding count chain_delete
    count-delete-le [] = omega arith
    count-delete-le (e ∷ c) = ground (arith, count-delete-le c)

    pub chain_find-delete :
        (c : Chain)
        → count q c ≤ 1
        → chain_find q (chain_delete key c) ≡ (if str_eq key q then none else chain_find q c)
    unfolding chain_find chain_delete count
    chain_find-delete [] h = ground arith
    chain_find-delete (e ∷ c) h = ground (
      arith,
      chain_find-delete c,
      chain_find-eq-none q c,
      str_eq_iff e.key key,
      str_eq_iff e.key q,
      str_eq_iff key q,
    )

  -- What is found is weighed; writing or deleting takes that much away.
  module _ (w : CcObj → ℕ) where
    pub weight-assign :
        (val : CcObj) (c : Chain) (old : CcObj)
        → chain_find key c ≡ some old
        → weight (λ e. w e.val) (chain_assign key val c) + w old ≡ weight (λ e. w e.val) c + w val
    unfolding chain_find chain_assign weight
    weight-assign val [] old h = cc
    weight-assign val (e ∷ c) old h = ground (arith, weight-assign val c old)

    pub weight-delete :
        (c : Chain) (old : CcObj)
        → chain_find key c ≡ some old
        → weight (λ e. w e.val) (chain_delete key c) + w old ≡ weight (λ e. w e.val) c
    unfolding chain_find chain_delete weight
    weight-delete [] old h = cc
    weight-delete (e ∷ c) old h = ground (arith, weight-delete c old)

  pub chain_delete_absent : (c : Chain) → chain_find key c ≡ none → chain_delete key c ≡ c
  unfolding chain_find chain_delete
  chain_delete_absent [] h = refl
  chain_delete_absent (e ∷ c) h = ground (arith, chain_delete_absent c)
