-- ===== src/Process/Chunks.antt =====
-- The replication thread and the cuts in its stream: `recv` may return any part of a line.
use crimson_cache.Base.{
  ℕ, ◌≡◌, refl, sym, ap, subst, ◌∙◌, Bool, true, false, ◌&&◌, List, [], ◌∷◌, ◌++◌, ◌==◌, inl, inr,
  Bool-cases,
}
use mathlib.Core.List.{append_assoc, append-nil, flatten}
use crimson_cache.CString.{Bytes}
use crimson_cache.Tokenizer.{backwards}
use crimson_cache.Process.Follow.{split_lines}

-- The bytes of a line so far, in reverse, before a byte: no NUL, and no "\r\n" with it.
abbrev IsInLine : Bytes → ℕ → Type 0
IsInLine [] c = Unit
IsInLine (s ∷ start) c =
    ((s == 0) ≡ false) × ((s == b'\r' && c == b'\n') ≡ false) × IsInLine start s

abbrev pub is_end : ℕ → ℕ → Bool
is_end c d = c == b'\r' && d == b'\n'

split_alone : (start : Bytes) (c : ℕ) → ([], backwards start (c ∷ [])) ≡ split_lines start (c ∷ [])
unfolding split_lines
split_alone start c = refl

pub split_at_nul :
    (start : Bytes) (c d : ℕ) (bs : Bytes)
    → (c == 0) ≡ true
    → split_lines start (c ∷ d ∷ bs) ≡ ([], backwards start (c ∷ d ∷ bs))
unfolding split_lines
split_at_nul start c d bs e = rw (e, split_lines)

pub split_at_end :
    (start : Bytes) (c d : ℕ) (bs : Bytes)
    → (c == 0) ≡ false
    → is_end c d ≡ true
    → split_lines start (c ∷ d ∷ bs)
      ≡ (backwards start [] ∷ (split_lines [] bs).0, (split_lines [] bs).1)
unfolding split_lines
split_at_end start c d bs e f = rw (e, f, split_lines)

pub split_within :
    (start : Bytes) (c d : ℕ) (bs : Bytes)
    → (c == 0) ≡ false
    → is_end c d ≡ false
    → split_lines start (c ∷ d ∷ bs) ≡ split_lines (c ∷ start) (d ∷ bs)
unfolding split_lines
split_within start c d bs e f = rw (e, f, split_lines)

-- What was passed over can be passed over again.
split_again :
    (start : Bytes) (c : ℕ) (bs : Bytes)
    → IsInLine start c
    → split_lines [] (backwards start (c ∷ bs)) ≡ split_lines start (c ∷ bs)
split_again [] c bs h = refl
split_again (s ∷ start) c bs (nul, end, h) =
    split_again start s (c ∷ bs) h ∙ split_within start s c bs nul end

backwards-append :
    (start rest more : Bytes) → backwards start rest ++ more ≡ backwards start (rest ++ more)
backwards-append [] rest more = refl
backwards-append (s ∷ start) rest more = backwards-append start (s ∷ rest) more

-- The lines of one part, then those of its rest with the next part.
abbrev resplit : List Bytes × Bytes → Bytes → List Bytes × Bytes
resplit (lines, rest) bs =
    (lines ++ (split_lines [] (rest ++ bs)).0, (split_lines [] (rest ++ bs)).1)

resplit_none :
    (start : Bytes) (c : ℕ) (a b : Bytes)
    → IsInLine start c
    → resplit ([], backwards start (c ∷ a)) b ≡ split_lines start (c ∷ (a ++ b))
resplit_none start c a b h =
    ap (λ (bs : Bytes). split_lines [] bs) (backwards-append start (c ∷ a) b)
    ∙ split_again start c (a ++ b) h

-- A part that starts behind the bytes `start` of a line.
abbrev Continues : Bytes → Bytes → Type 0
Continues start [] = start ≡ []
Continues start (c ∷ a) = IsInLine start c

fresh-Continues : (a : Bytes) → Continues [] a
fresh-Continues [] = refl
fresh-Continues (c ∷ a) = tt

split_more :
    (a start b : Bytes)
    → Continues start a
    → split_lines start (a ++ b) ≡ resplit (split_lines start a) b
split_more [] start b h = unfold split_lines in rw h refl
split_more (c ∷ []) start b h =
    sym (resplit_none start c [] b h) ∙ ap (λ x. resplit x b) (split_alone start c)
split_more (c ∷ d ∷ a) start b h = elim (Bool-cases (c == 0)) [
  | inl nul ↦
      sym (resplit_none start c (d ∷ a) b h)
      ∙ ap (λ x. resplit x b) (sym (split_at_nul start c d a nul))
  | inr byte ↦ elim (Bool-cases (is_end c d)) [
    | inl end ↦
        split_at_end start c d (a ++ b) byte end
        ∙ ap (λ (x : List Bytes × Bytes). (backwards start [] ∷ x.0, x.1))
            (split_more a [] b (fresh-Continues a))
        ∙ ap (λ x. resplit x b) (sym (split_at_end start c d a byte end))
    | inr on ↦
        split_within start c d (a ++ b) byte on
        ∙ split_more (d ∷ a) (c ∷ start) b (byte, on, h)
        ∙ ap (λ x. resplit x b) (sym (split_within start c d a byte on))
  ]
]

-- The reads one after the other, each behind what was left: the lines, and what is left at the end.
abbrev pub read_all : Bytes → List Bytes → List Bytes × Bytes
read_all rest [] = ([], rest)
read_all rest (part ∷ parts) =
    let (lines, rest') = split_lines [] (rest ++ part) in
    let (more, last) = read_all rest' parts in (lines ++ more, last)

-- What is left has no full line in it.
abbrev IsLeft : List Bytes × Bytes → Type 0
IsLeft x = split_lines [] x.1 ≡ ([], x.1)

over-IsLeft : (a start : Bytes) → Continues start a → IsLeft (split_lines start a)
over-IsLeft [] start h = unfold split_lines in rw h refl
over-IsLeft (c ∷ []) start h =
    subst IsLeft (split_alone start c) (split_again start c [] h ∙ sym (split_alone start c))
over-IsLeft (c ∷ d ∷ a) start h = elim (Bool-cases (c == 0)) [
  | inl nul ↦
      subst IsLeft (sym (split_at_nul start c d a nul))
        (split_again start c (d ∷ a) h ∙ split_at_nul start c d a nul)
  | inr byte ↦ elim (Bool-cases (is_end c d)) [
    | inl end ↦
        subst IsLeft (sym (split_at_end start c d a byte end))
          (over-IsLeft a [] (fresh-Continues a))
    | inr on ↦
        subst IsLeft (sym (split_within start c d a byte on))
          (over-IsLeft (d ∷ a) (c ∷ start) (byte, on, h))
  ]
]

read_all_from :
    (parts : List Bytes) (rest : Bytes)
    → split_lines [] rest ≡ ([], rest)
    → read_all rest parts ≡ split_lines [] (rest ++ flatten parts)
unfolding flatten
read_all_from [] rest h = sym (ap (λ (bs : Bytes). split_lines [] bs) (append-nil rest) ∙ h)
read_all_from (part ∷ parts) rest h =
    let x = split_lines [] (rest ++ part) in
    ap (λ (y : List Bytes × Bytes). (x.0 ++ y.0, y.1))
      (read_all_from parts x.1 (over-IsLeft (rest ++ part) [] (fresh-Continues (rest ++ part))))
    ∙ sym (split_more (rest ++ part) [] (flatten parts) (fresh-Continues (rest ++ part)))
    ∙ ap (λ (bs : Bytes). split_lines [] bs) (append_assoc rest part (flatten parts))

-- However the stream of the primary is cut into reads, the same lines are found, in the same order,
-- and the same bytes are left for the next line, as if it had come in one piece.
pub read_all-split_lines : (parts : List Bytes) → read_all [] parts ≡ split_lines [] (flatten parts)
read_all-split_lines parts = read_all_from parts [] (unfold split_lines in refl)
