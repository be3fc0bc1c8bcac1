-- ===== src/Tokenizer/Unclosed.antt =====
-- A command line with a quote that is not closed.
use crimson_cache.Base.{ℕ, ◌*◌, ◌≡◌, ◌≢◌, refl, sym, ap, ◌∙◌, List, [], ◌∷◌, ◌++◌, some, arith, All}
use crimson_cache.CString.{Bytes}
use crimson_cache.Tokenizer.{
  Mode, skipping, in_quotes, Tokens, quote, scan, no_tokens, tokenize_command,
}
use crimson_cache.Tokenizer.Bounds.{scan_outside, scan_within_quotes}
use mathlib.Core.List.{append-nil, append_assoc}
use crimson_cache.Tokenizer.RoundTrip.{
  Word, text, written, texts, CanWrite, ample, grown, quote_starts, scan_word, strip_crlf,
}

-- Words with a space behind each.
abbrev pub spaced : List Word → Bytes
spaced [] = []
spaced (w ∷ ws) = written w ++ 32 ∷ spaced ws

scan-spaced :
    (ws : List Word) (p : Bytes) (t : Tokens)
    → All CanWrite ws
    → (r : Tokens) × (scan ample skipping (spaced ws ++ p) t ≡ scan ample skipping p r)
      × (r.items ≡ t.items ++ texts ws)
scan-spaced [] p t h = (t, refl, sym (append-nil t.items))
scan-spaced (w ∷ ws) p t (h, rest) =
    let (r, run, items) = scan-spaced ws p (grown (t.max_tokens * 2) (text w) t) rest in
    (
      r,
      rw append_assoc (scan_word w (spaced ws ++ p) t h ∙ run),
      items ∙ append_assoc t.items (text w ∷ []) _,
    )

scan_unclosed :
    (w start : Bytes) (prev : ℕ) (t : Tokens)
    → All (λ c. c ≢ quote) w
    → scan ample (in_quotes start prev) w t ≡ some t
scan_unclosed [] start prev t h = unfold scan in refl
scan_unclosed (c ∷ w) start prev t (x, h) =
    scan_within_quotes ample start prev c w t (ground arith) ∙ scan_unclosed w (c ∷ start) c t h

-- A quote that is not closed swallows the rest of the line: the words before it are returned, the
-- text behind it is dropped, and no error is reported.
pub tokenize_unclosed :
    (ws : List Word) (w : Bytes)
    → All CanWrite ws
    → All (λ c. c ≢ quote) w
    → tokenize_command ample ((spaced ws ++ quote ∷ w) ++ b'\r' ∷ b'\n' ∷ []) ≡ some (texts ws)
unfolding tokenize_command
tokenize_unclosed ws w h n =
    let (r, run, items) = scan-spaced ws (quote ∷ w) no_tokens h in
    let last =
      scan_outside ample quote w r
      ∙ ap (λ (m : Mode). scan ample m w r) quote_starts
      ∙ scan_unclosed w [] quote r n in
    rw (strip_crlf (spaced ws ++ quote ∷ w), run, last, items)
