-- ===== src/Tokenizer/RoundTrip.antt =====
-- A line that is written word by word is cut into these words again.
use crimson_cache.Base.{
  ℕ, suc, ◌+◌, ◌-◌, ◌*◌, ◌≡◌, ◌≢◌, refl, sym, ap, ◌∙◌, true, false, List, [], ◌∷◌, ◌++◌, Option,
  some, arith, leb, if◌then◌else◌, length, length-append, All, take, get_or,
}
use crimson_cache.CString.{Bytes, isspace}
use crimson_cache.Tokenizer.{
  TokenMemory, Mode, skipping, in_token, in_quotes, Tokens, backwards, quote, backslash, push_token,
  scan, no_tokens, strip_newline, tokenize_command,
}
use crimson_cache.Tokenizer.Bounds.{
  resume, start_mode, scan_outside, scan_end_of_token, scan_within_token, scan_end_of_quotes,
  scan_within_quotes,
}
use mathlib.Core.List.{append-nil, append_assoc}

-- A word as a client writes it: bare, or between double quotes.
pub data Word : Type 0 where
  bare : Bytes → Word
  quoted : Bytes → Word

abbrev pub text : Word → Bytes
text (bare w) = w
text (quoted w) = w

abbrev pub written : Word → Bytes
written (bare w) = w
written (quoted w) = quote ∷ w ++ quote ∷ []

-- The words with a space between each two.
abbrev pub line : List Word → Bytes
line [] = []
line (w ∷ []) = written w
line (w ∷ x ∷ ws) = written w ++ 32 ∷ line (x ∷ ws)

abbrev pub texts : List Word → List Bytes
texts [] = []
texts (w ∷ ws) = text w ∷ texts ws

abbrev pub NoSpace : Bytes → Type 0
NoSpace w = All (λ c. isspace c ≡ false) w

abbrev pub StartsBare : Bytes → Type 0
StartsBare [] = ⊥
StartsBare (c ∷ w) = c ≢ quote

-- The byte that a text ends with, after `prev`.
abbrev pub last_byte : ℕ → Bytes → ℕ
last_byte prev [] = prev
last_byte prev (c ∷ w) = last_byte c w

-- A bare word is not empty, does not begin with a quote and has no white space; a quoted text has
-- no quote and does not end in a backslash.
abbrev pub CanWrite : Word → Type 0
CanWrite (bare w) = StartsBare w × NoSpace w
CanWrite (quoted w) = All (λ c. c ≢ quote) w × (last_byte quote w ≢ backslash)

-- All memory is granted.
abbrev pub ample : TokenMemory
ample = record { array_granted = true; grow_granted = λ n. true; copy_granted = λ n. true }

-- The array after one more token.
abbrev pub grown : ℕ → Bytes → Tokens → Tokens
grown larger token t = record {
  items = t.items ++ token ∷ [];
  max_tokens = if leb t.max_tokens (length t.items) then larger else t.max_tokens;
}

push_ample :
    (larger : ℕ) (start : Bytes) (t : Tokens)
    → push_token ample larger start t ≡ some (grown larger (backwards start []) t)
unfolding push_token
push_ample larger start t = ground arith

-- Scanning the rest of a bare word up to the space behind it.
scan_bare :
    (w start p : Bytes) (t : Tokens)
    → NoSpace w
    → scan ample (in_token start) (w ++ 32 ∷ p) t
      ≡ scan ample skipping p (grown (t.max_tokens * 2) (backwards start w) t)
scan_bare [] start p t h =
    scan_end_of_token ample start 32 p t (unfold isspace in refl)
    ∙ ap (resume ample p) (push_ample (t.max_tokens * 2) start t)
scan_bare (c ∷ w) start p t (x, h) =
    scan_within_token ample start c (w ++ 32 ∷ p) t x ∙ scan_bare w (c ∷ start) p t h

-- Scanning the rest of a quoted text up to the closing quote.
scan_quoted :
    (w start : Bytes) (prev : ℕ) (p : Bytes) (t : Tokens)
    → All (λ c. c ≢ quote) w
    → last_byte prev w ≢ backslash
    → scan ample (in_quotes start prev) (w ++ quote ∷ p) t
      ≡ scan ample skipping p (grown (t.max_tokens * 2) (backwards start w) t)
scan_quoted [] start prev p t h n =
    scan_end_of_quotes ample start prev quote p t (ground arith)
    ∙ ap (resume ample p) (push_ample (t.max_tokens * 2) start t)
scan_quoted (c ∷ w) start prev p t (x, h) n =
    scan_within_quotes ample start prev c (w ++ quote ∷ p) t (ground arith)
    ∙ scan_quoted w (c ∷ start) c p t h n

pub quote_starts : start_mode quote ≡ in_quotes [] quote
unfolding isspace
quote_starts = refl

space_skips : start_mode 32 ≡ skipping
unfolding isspace
space_skips = refl

bare_starts : (c : ℕ) → c ≢ quote → isspace c ≡ false → start_mode c ≡ in_token (c ∷ [])
bare_starts c n x = ground arith

-- One word with its space.
pub scan_word :
    (w : Word) (p : Bytes) (t : Tokens)
    → CanWrite w
    → scan ample skipping (written w ++ 32 ∷ p) t
      ≡ scan ample skipping p (grown (t.max_tokens * 2) (text w) t)
scan_word (bare []) p t (b, h) = absurd b
scan_word (bare (c ∷ w)) p t (b, (x, h)) =
    scan_outside ample c (w ++ 32 ∷ p) t
    ∙ ap (λ (m : Mode). scan ample m (w ++ 32 ∷ p) t) (bare_starts c b x)
    ∙ scan_bare w (c ∷ []) p t h
scan_word (quoted w) p t (h, n) =
    let after = grown (t.max_tokens * 2) w t in
    rw append_assoc (
      scan_outside ample quote (w ++ quote ∷ 32 ∷ p) t
      ∙ ap (λ (m : Mode). scan ample m (w ++ quote ∷ 32 ∷ p) t) quote_starts
      ∙ scan_quoted w [] quote (32 ∷ p) t h n
      ∙ scan_outside ample 32 p after
      ∙ ap (λ (m : Mode). scan ample m p after) space_skips)

-- A bare word that the line ends with.
scan_bare_end :
    (w start : Bytes) (t : Tokens)
    → NoSpace w
    → scan ample (in_token start) w t ≡ some (grown (t.max_tokens + 1) (backwards start w) t)
scan_bare_end [] start t h = unfold scan in push_ample (t.max_tokens + 1) start t
scan_bare_end (c ∷ w) start t (x, h) =
    scan_within_token ample start c w t x ∙ scan_bare_end w (c ∷ start) t h

-- What a scan ends with: one token more for each word.
abbrev pub Scans : List Bytes → Tokens → Option Tokens → Type 0
Scans words t o = (r : Tokens) × (o ≡ some r) × (r.items ≡ t.items ++ words)

scan_last :
    (w : Word) (t : Tokens) → CanWrite w → Scans (text w ∷ []) t (scan ample skipping (written w) t)
scan_last (bare []) t (b, h) = absurd b
scan_last (bare (c ∷ w)) t (b, (x, h)) = (
  _,
  scan_outside ample c w t
      ∙ ap (λ (m : Mode). scan ample m w t) (bare_starts c b x)
      ∙ scan_bare_end w (c ∷ []) t h,
  refl,
)
scan_last (quoted w) t (h, n) = (
  grown (t.max_tokens * 2) w t,
  scan_outside ample quote (w ++ quote ∷ []) t
      ∙ ap (λ (m : Mode). scan ample m (w ++ quote ∷ []) t) quote_starts
      ∙ scan_quoted w [] quote [] t h n
      ∙ unfold scan in refl,
  refl,
)

pub scan-line :
    (ws : List Word) (t : Tokens)
    → All CanWrite ws
    → Scans (texts ws) t (scan ample skipping (line ws) t)
scan-line [] t h = (t, unfold scan in refl, sym (append-nil t.items))
scan-line (w ∷ []) t (h, _) = scan_last w t h
scan-line (w ∷ x ∷ ws) t (h, rest) =
    let (r, run, items) = scan-line (x ∷ ws) (grown (t.max_tokens * 2) (text w) t) rest in
    (r, scan_word w (line (x ∷ ws)) t h ∙ run, items ∙ append_assoc t.items (text w ∷ []) _)

take_prefix : (s r : Bytes) → take (length s) (s ++ r) ≡ s
take_prefix [] r = refl
take_prefix (c ∷ s) r = ap (λ (x : Bytes). c ∷ x) (take_prefix s r)

get_or_here : (s r : Bytes) (c : ℕ) → get_or (s ++ c ∷ r) (length s) 0 ≡ c
get_or_here [] r c = refl
get_or_here (x ∷ s) r c = get_or_here s r c

get_or_next : (s r : Bytes) (b c : ℕ) → get_or (s ++ b ∷ c ∷ r) (suc (length s)) 0 ≡ c
get_or_next [] r b c = refl
get_or_next (x ∷ s) r b c = get_or_next s r b c

pub strip_crlf : (s : Bytes) → strip_newline (s ++ b'\r' ∷ b'\n' ∷ []) ≡ s
unfolding strip_newline
strip_crlf s =
    let len : length (s ++ b'\r' ∷ b'\n' ∷ []) ≡ 2 + length s =
      omega (arith, length-append s (b'\r' ∷ b'\n' ∷ [])) in
    let start : 2 + length s - 2 ≡ length s = omega arith in
    let next : 2 + length s - 1 ≡ suc (length s) = omega arith in
    let enough : leb 2 (2 + length s) ≡ true = ground arith in
    rw (len, start, next, enough, get_or_here, get_or_next) (take_prefix s _)

-- Given memory, the line of any words that can be written, ended by "\r\n", is cut into these words:
-- quoted ones keep their white space, and none is lost, split or joined.
pub tokenize-line :
    (ws : List Word)
    → All CanWrite ws
    → tokenize_command ample (line ws ++ b'\r' ∷ b'\n' ∷ []) ≡ some (texts ws)
unfolding tokenize_command
tokenize-line ws h =
    let (r, run, items) = scan-line ws no_tokens h in rw (strip_crlf (line ws), run, items)
