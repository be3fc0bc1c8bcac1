-- ===== src/Tokenizer/Bounds.antt =====
-- The array of tokens is never written out of bounds.
use crimson_cache.Base.{
  ℕ, ◌+◌, ◌*◌, ◌≤◌, ◌<◌, ◌≡◌, refl, sym, ◌∙◌, true, false, not, ◌&&◌, [], ◌∷◌, Option, none, some,
  arith, ◌==◌, if◌then◌else◌, length, length-append, inl, inr, Bool-cases,
}
use crimson_cache.CString.{Bytes, isspace}
use crimson_cache.Tokenizer.{
  TokenMemory, Mode, skipping, in_token, in_quotes, Tokens, backwards, quote, backslash, push_token,
  scan,
}

-- The tokens fit their array, which has room for at least one.
pub record Fits (t : Tokens) : Type 0 where
  pub bounded : length t.items ≤ t.max_tokens
  pub some_room : 0 < t.max_tokens

-- The slot that is written lies in the array, the grown one if it was full.
push_token-Fits :
    (mem : TokenMemory) (larger : ℕ) (start : Bytes) (t r : Tokens)
    → Fits t
    → t.max_tokens < larger
    → push_token mem larger start t ≡ some r
    → Fits r × (length r.items ≡ length t.items + 1)
unfolding push_token
push_token-Fits mem larger start t r f grows h =
    ground (arith, length-append t.items (backwards start [] ∷ []))

-- What follows a token that was stored.
abbrev pub resume : TokenMemory → Bytes → Option Tokens → Option Tokens
resume mem p o = elim o [ none ↦ none | some t' ↦ scan mem skipping p t' ]

-- The mode after a byte outside a token.
abbrev pub start_mode : ℕ → Mode
start_mode c =
    if isspace c then skipping else if c == quote then in_quotes [] c else in_token (c ∷ [])

pub scan_outside :
    (mem : TokenMemory) (c : ℕ) (p : Bytes) (t : Tokens)
    → scan mem skipping (c ∷ p) t ≡ scan mem (start_mode c) p t
unfolding scan
scan_outside mem c p t = refl

pub scan_end_of_token :
    (mem : TokenMemory) (start : Bytes) (c : ℕ) (p : Bytes) (t : Tokens)
    → isspace c ≡ true
    → scan mem (in_token start) (c ∷ p) t ≡ resume mem p (push_token mem (t.max_tokens * 2) start t)
unfolding scan
scan_end_of_token mem start c p t e = rw (e, scan)

pub scan_within_token :
    (mem : TokenMemory) (start : Bytes) (c : ℕ) (p : Bytes) (t : Tokens)
    → isspace c ≡ false
    → scan mem (in_token start) (c ∷ p) t ≡ scan mem (in_token (c ∷ start)) p t
unfolding scan
scan_within_token mem start c p t e = rw (e, scan)

pub scan_end_of_quotes :
    (mem : TokenMemory) (start : Bytes) (prev c : ℕ) (p : Bytes) (t : Tokens)
    → (c == quote && not (prev == backslash)) ≡ true
    → scan mem (in_quotes start prev) (c ∷ p) t
      ≡ resume mem p (push_token mem (t.max_tokens * 2) start t)
unfolding scan
scan_end_of_quotes mem start prev c p t e = rw (e, scan)

pub scan_within_quotes :
    (mem : TokenMemory) (start : Bytes) (prev c : ℕ) (p : Bytes) (t : Tokens)
    → (c == quote && not (prev == backslash)) ≡ false
    → scan mem (in_quotes start prev) (c ∷ p) t ≡ scan mem (in_quotes (c ∷ start) c) p t
unfolding scan
scan_within_quotes mem start prev c p t e = rw (e, scan)

resume-Fits :
    (mem : TokenMemory) (start p : Bytes) (t r : Tokens)
    → Fits t
    → ((t' : Tokens) → Fits t' → scan mem skipping p t' ≡ some r → Fits r)
    → (o : Option Tokens) → push_token mem (t.max_tokens * 2) start t ≡ o
    → resume mem p o ≡ some r
    → Fits r
resume-Fits mem start p t r f go none e h = cc
resume-Fits mem start p t r f go (some t') e h =
    go t' (push_token-Fits mem (t.max_tokens * 2) start t t' f (omega (arith, f.some_room)) e).0 h

-- A scan that starts with tokens that fit their array ends so: no slot beyond the array is used.
pub scan-Fits :
    (mem : TokenMemory) (m : Mode) (p : Bytes) (t r : Tokens)
    → Fits t
    → scan mem m p t ≡ some r
    → Fits r
scan-Fits mem skipping [] t r f h = unfold scan in ground arith
scan-Fits mem (in_token start) [] t r f h =
    (push_token-Fits mem (t.max_tokens + 1) start t r f (omega arith) (unfold scan in h)).0
scan-Fits mem (in_quotes start prev) [] t r f h = unfold scan in ground arith
scan-Fits mem skipping (c ∷ p) t r f h =
    scan-Fits mem (start_mode c) p t r f (sym (scan_outside mem c p t) ∙ h)
scan-Fits mem (in_token start) (c ∷ p) t r f h = elim (Bool-cases (isspace c)) [
  | inl e ↦
      resume-Fits mem start p t r f (λ t' f' h'. scan-Fits mem skipping p t' r f' h') _ refl
        (sym (scan_end_of_token mem start c p t e) ∙ h)
  | inr e ↦
      scan-Fits mem (in_token (c ∷ start)) p t r f (sym (scan_within_token mem start c p t e) ∙ h)
]
scan-Fits mem (in_quotes start prev) (c ∷ p) t r f h =
    elim (Bool-cases (c == quote && not (prev == backslash))) [
      | inl e ↦
          resume-Fits mem start p t r f (λ t' f' h'. scan-Fits mem skipping p t' r f' h') _ refl
            (sym (scan_end_of_quotes mem start prev c p t e) ∙ h)
      | inr e ↦
          scan-Fits mem (in_quotes (c ∷ start) c) p t r f
            (sym (scan_within_quotes mem start prev c p t e) ∙ h)
    ]
