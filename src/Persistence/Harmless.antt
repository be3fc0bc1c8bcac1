-- ===== src/Persistence/Harmless.antt =====
-- Files that `load_rdb_from_file` reads without running over the heap.
use crimson_cache.Base.{
  subst, ℕ, zero, suc, ◌≡◌, ◌≢◌, refl, sym, ap, ◌∙◌, Bool, false, [], ◌∷◌, ◌++◌, Option, none, some,
  arith, ltb, ◌==◌, length, inl, inr, Bool-cases, Option-cases, uint64_max,
}
use mathlib.Core.List.{append_assoc}
use crimson_cache.CString.{Bytes, str_eq}
use crimson_cache.Persistence.Format.{rdb_set, rdb_magic, rdb_version, decode, read, ◌>>=◌}
use crimson_cache.Persistence.Load.{
  LoadStep, Loaded, text, overrun, rdb_load_string, Action, ruin, skip_value, load_value,
  load_typed, load_entry, load_header, Opened, contents,
}

-- No eight bytes of the file are the length for which `malloc(*len + 1)` wraps around.
abbrev pub IsHarmless : Bytes → Type 0
IsHarmless bs =
    (front part rest : Bytes)
    → bs ≡ front ++ (part ++ rest)
    → length part ≡ 8
    → decode part ≢ uint64_max

abbrev pub IsHarmlessFile : Opened → Type 0
IsHarmlessFile (contents bs) = IsHarmless bs
IsHarmlessFile _ = Unit

-- Where something was read, it is as it should be, and what is left is harmless.
abbrev pub GoodOf {ℓ} : {A : Type ℓ} → (A → Type 0) → Option (A × Bytes) → Type 0
GoodOf P none = Unit
GoodOf P (some (a, rest)) = P a × IsHarmless rest

good_then {ℓ κ} :
    {A : Type ℓ} {B : Type κ} (P : A → Type 0) (Q : B → Type 0) (o : Option (A × Bytes))
    (k : A × Bytes → Option (B × Bytes))
    → GoodOf P o
    → ((a : A) (rest : Bytes) → P a → IsHarmless rest → GoodOf Q (k (a, rest)))
    → GoodOf Q (o >>= k)
good_then P Q none k g next = tt
good_then P Q (some (a, rest)) k (p, h) next = next a rest p h

-- What is read and what is left make up what there was.
abbrev Splits : ℕ → Bytes → Option (Bytes × Bytes) → Type 0
Splits n bs none = Unit
Splits n bs (some (x, rest)) = (bs ≡ x ++ rest) × (length x ≡ n)

read-Splits : (n : ℕ) (bs : Bytes) → Splits n bs (read n bs)
unfolding read
read-Splits zero bs = (refl, refl)
read-Splits (suc n) [] = tt
read-Splits (suc n) (b ∷ bs) = elim (Option-cases (read n bs)) [
  | inl e ↦ rw e tt
  | inr ((x, rest), e) ↦
      let (cut, size) = subst (Splits n bs) e (read-Splits n bs) in
      rw e (ap (λ (r : Bytes). b ∷ r) cut, ap suc size)
]

read-Good :
    (n : ℕ) (bs : Bytes) → IsHarmless bs → GoodOf (λ x. n ≡ 8 → decode x ≢ uint64_max) (read n bs)
read-Good n bs h = elim (Option-cases (read n bs)) [
  | inl e ↦ rw e tt
  | inr ((x, rest), e) ↦
      let (cut, size) = subst (Splits n bs) e (read-Splits n bs) in
      rw e (
        λ eight. h [] x rest cut (size ∙ eight),
        λ front part more f l.
            h (x ++ front) part more
              (cut ∙ ap (λ (r : Bytes). x ++ r) f ∙ sym (append_assoc x front (part ++ more))) l,
      )
]

abbrev IsText : Loaded → Type 0
IsText (text s) = Unit
IsText overrun = ⊥

abbrev pub IsTame : Action → Type 0
IsTame ruin = ⊥
IsTame _ = Unit

string-Good :
    (granted : Bool) (bs : Bytes) → IsHarmless bs → GoodOf IsText (rdb_load_string granted bs)
unfolding rdb_load_string
string-Good granted bs h = good_then _ IsText (read 8 bs) _ (read-Good 8 bs h) λ len rest p m.
    elim (Bool-cases granted) [
      | inr refused ↦ rw refused tt
      | inl has ↦
          let short : (decode len == uint64_max) ≡ false = ground (arith, p refl) in
          rw (has, short)
            (good_then _ IsText (read (decode len) rest) _ (read-Good (decode len) rest m)
              λ s rest' q m'. (tt, m'))
    ]

text_then :
    {B : Type 0} (Q : B → Type 0) (o : Option (Loaded × Bytes))
    (k : Loaded × Bytes → Option (B × Bytes))
    → GoodOf IsText o
    → ((s rest : Bytes) → IsHarmless rest → GoodOf Q (k (text s, rest)))
    → GoodOf Q (o >>= k)
text_then Q none k g next = tt
text_then Q (some (text s, rest)) k (p, h) next = next s rest h
text_then Q (some (overrun, rest)) k (p, h) next = absurd p

module _ (env : LoadStep) where
  skip_value-Good : (bs : Bytes) → IsHarmless bs → GoodOf IsTame (skip_value env bs)
  unfolding skip_value
  skip_value-Good bs h = good_then _ IsTame (read 1 bs) _ (read-Good 1 bs h) λ cmd rest p m.
      elim (Bool-cases (decode cmd == rdb_set)) [
        | inr other ↦ rw other (tt, m)
        | inl known ↦ rw known (
            text_then IsTame (rdb_load_string env.value_granted rest) _
              (string-Good env.value_granted rest m) λ s rest' m'. (tt, m'))
      ]

  load_value-Good :
      (key : Bytes) (expire : ℕ) (bs : Bytes)
      → IsHarmless bs
      → GoodOf IsTame (load_value env key expire bs)
  unfolding load_value
  load_value-Good key expire bs h =
      good_then _ IsTame (read 1 bs) _ (read-Good 1 bs h) λ cmd rest p m.
        elim (Bool-cases (decode cmd == rdb_set)) [
          | inr other ↦ rw other tt
          | inl known ↦ rw known (
              text_then IsTame (rdb_load_string env.value_granted rest) _
                (string-Good env.value_granted rest m)
                λ s rest' m'. elim (Bool-cases env.object_granted) [
                  | inl has ↦ rw has (tt, m')
                  | inr refused ↦ rw refused tt
                ])
        ]

  load_typed-Good : (key bs : Bytes) → IsHarmless bs → GoodOf IsTame (load_typed env key bs)
  unfolding load_typed
  load_typed-Good key bs h = good_then _ IsTame (read 4 bs) _ (read-Good 4 bs h) λ type rest p m.
      good_then _ IsTame (read 1 rest) _ (read-Good 1 rest m) λ has_expiry rest' p' m'.
        elim (Bool-cases (decode has_expiry == 0)) [
          | inl never ↦ rw never (load_value-Good key 0 rest' m')
          | inr timed ↦ rw timed (
              good_then _ IsTame (read 8 rest') _ (read-Good 8 rest' m') λ time rest'' q m''.
                elim (Bool-cases (ltb (decode time) env.now_test)) [
                  | inl gone ↦ rw gone (skip_value-Good rest'' m'')
                  | inr live ↦ rw live (load_value-Good key (decode time) rest'' m'')
                ])
        ]

  pub load_entry-Good : (bs : Bytes) → IsHarmless bs → GoodOf IsTame (load_entry env bs)
  unfolding load_entry
  load_entry-Good bs h =
      text_then IsTame (rdb_load_string env.key_granted bs) _ (string-Good env.key_granted bs h)
        λ s rest m. load_typed-Good s rest m

pub load_header-Good : (bs : Bytes) → IsHarmless bs → GoodOf (λ count. Unit) (load_header bs)
unfolding load_header
load_header-Good bs h =
    good_then _ (λ count. Unit) (read 4 bs) _ (read-Good 4 bs h)
      λ magic rest p m. elim (Bool-cases (str_eq magic rdb_magic)) [
        | inr other ↦ rw other tt
        | inl known ↦ rw known (
            good_then _ (λ count. Unit) (read 4 rest) _ (read-Good 4 rest m)
              λ version rest' p' m'. elim (Bool-cases (decode version == rdb_version)) [
                | inr other ↦ rw other tt
                | inl same ↦ rw same (
                    good_then _ (λ count. Unit) (read 8 rest') _ (read-Good 8 rest' m')
                      λ count rest'' q m''. (tt, m''))
              ])
      ]
