-- ===== src/Tokenizer/Determined.antt =====
-- The words of a line do not depend on the memory that is granted, only whether there are any does.
use crimson_cache.Base.{
  ℕ, ◌+◌, ◌*◌, ◌≡◌, refl, sym, ap, ◌∙◌, not, ◌&&◌, List, [], ◌∷◌, Option, none, some, arith, ◌==◌,
  inl, inr, Bool-cases, Option-cases,
}
use crimson_cache.CString.{Bytes, isspace}
use crimson_cache.Tokenizer.{
  TokenMemory, Mode, skipping, in_token, in_quotes, Tokens, push_token, quote, backslash, scan,
  no_tokens, strip_newline, tokenize_command,
}
use crimson_cache.Tokenizer.Bounds.{
  resume, start_mode, scan_outside, scan_end_of_token, scan_within_token, scan_end_of_quotes,
  scan_within_quotes,
}

-- A run that succeeds got over its first token.
resume-some :
    (mem : TokenMemory) (p : Bytes) (o : Option Tokens) (a : Tokens)
    → resume mem p o ≡ some a
    → (t : Tokens) × (o ≡ some t) × (scan mem skipping p t ≡ some a)
resume-some mem p none a e = cc
resume-some mem p (some t) a e = (t, refl, e)

-- Two runs that both succeed.
module _ (mem mem' : TokenMemory) where
  push_determined :
      (larger : ℕ) (start : Bytes) (t a b : Tokens)
      → push_token mem larger start t ≡ some a
      → push_token mem' larger start t ≡ some b
      → a ≡ b
  unfolding push_token
  push_determined larger start t a b e f = ground arith

  -- Behind a token that both stored.
  stored_determined :
      (larger : ℕ) (start p : Bytes) (t a b : Tokens)
      → ((x : Tokens) → scan mem skipping p x ≡ some a → scan mem' skipping p x ≡ some b → a ≡ b)
      → resume mem p (push_token mem larger start t) ≡ some a
      → resume mem' p (push_token mem' larger start t) ≡ some b
      → a ≡ b
  stored_determined larger start p t a b rest e f =
      let (x, pushed, run) = resume-some mem p _ a e in
      let (y, pushed', run') = resume-some mem' p _ b f in
      let same = push_determined larger start t x y pushed pushed' in rest x run (rw same run')

  scan_determined :
      (p : Bytes) (m : Mode) (t a b : Tokens)
      → scan mem m p t ≡ some a
      → scan mem' m p t ≡ some b
      → a ≡ b
  scan_determined [] skipping t a b e f = unfold scan in cc
  scan_determined [] (in_token start) t a b e f =
      unfold scan in push_determined (t.max_tokens + 1) start t a b e f
  scan_determined [] (in_quotes start prev) t a b e f = unfold scan in cc
  scan_determined (c ∷ p) skipping t a b e f =
      scan_determined p (start_mode c) t a b (sym (scan_outside mem c p t) ∙ e)
        (sym (scan_outside mem' c p t) ∙ f)
  scan_determined (c ∷ p) (in_token start) t a b e f = elim (Bool-cases (isspace c)) [
    | inr word ↦
        scan_determined p (in_token (c ∷ start)) t a b
          (sym (scan_within_token mem start c p t word) ∙ e)
          (sym (scan_within_token mem' start c p t word) ∙ f)
    | inl space ↦
        stored_determined (t.max_tokens * 2) start p t a b (λ x. scan_determined p skipping x a b)
          (sym (scan_end_of_token mem start c p t space) ∙ e)
          (sym (scan_end_of_token mem' start c p t space) ∙ f)
  ]
  scan_determined (c ∷ p) (in_quotes start prev) t a b e f =
      elim (Bool-cases (c == quote && not (prev == backslash))) [
        | inr word ↦
            scan_determined p (in_quotes (c ∷ start) c) t a b
              (sym (scan_within_quotes mem start prev c p t word) ∙ e)
              (sym (scan_within_quotes mem' start prev c p t word) ∙ f)
        | inl closed ↦
            stored_determined (t.max_tokens * 2) start p t a b
              (λ x. scan_determined p skipping x a b)
              (sym (scan_end_of_quotes mem start prev c p t closed) ∙ e)
              (sym (scan_end_of_quotes mem' start prev c p t closed) ∙ f)
      ]

tokenize_some :
    (mem : TokenMemory) (input : Bytes) (ws : List Bytes)
    → tokenize_command mem input ≡ some ws
    → (t : Tokens) × (scan mem skipping (strip_newline input) no_tokens ≡ some t) × (t.items ≡ ws)
unfolding tokenize_command
tokenize_some mem input ws e =
    elim (Option-cases (scan mem skipping (strip_newline input) no_tokens)) [
      | inl stop ↦ elim (Bool-cases mem.array_granted) [
        | inl room ↦ cc (rw (room, stop) at e)
        | inr full ↦ cc (rw full at e)
      ]
      | inr (t, ran) ↦ elim (Bool-cases mem.array_granted) [
        | inl room ↦ (t, ran, cc (rw (room, ran) at e))
        | inr full ↦ cc (rw full at e)
      ]
    ]

-- Whatever memory is granted, a line that is cut into words is always cut into the same.
pub tokenize_determined :
    (mem mem' : TokenMemory) (input : Bytes) (ws ws' : List Bytes)
    → tokenize_command mem input ≡ some ws
    → tokenize_command mem' input ≡ some ws'
    → ws ≡ ws'
tokenize_determined mem mem' input ws ws' e f =
    let (t, run, items) = tokenize_some mem input ws e in
    let (t', run', items') = tokenize_some mem' input ws' f in
    sym items
    ∙ ap (λ (r : Tokens). r.items)
        (scan_determined mem mem' (strip_newline input) skipping no_tokens t t' run run')
    ∙ items'
