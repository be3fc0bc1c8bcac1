-- ===== src/Tests/Lines.antt =====
-- Command lines, and numbers in print.
use crimson_cache.Base.{◌≡◌, refl, List, [], ◌∷◌, ◌++◌, some, arith, All}
use crimson_cache.CString.{codes, isspace}
use crimson_cache.Tokenizer.{skipping, scan, push_token, no_tokens, tokenize_command, quote}
use crimson_cache.Tokenizer.Bounds.{Fits, scan-Fits}
use crimson_cache.Tokenizer.RoundTrip.{
  Word, bare, quoted, line, texts, CanWrite, ample, tokenize-line,
}
use crimson_cache.Tokenizer.Unclosed.{spaced, tokenize_unclosed}
use crimson_cache.Number.{negsuc, strtoll, print}
use crimson_cache.Number.RoundTrip.{strtoll-print}

-- set k "a b"
abbrev words : List Word
words = bare (codes "set") ∷ bare (codes "k") ∷ quoted (codes "a b") ∷ []

words-CanWrite : All CanWrite words
unfolding isspace
words-CanWrite = (
  (omega arith, (refl, (refl, (refl, tt)))),
  ((omega arith, (refl, tt)), (((omega arith, (omega arith, (omega arith, tt))), omega arith), tt)),
)

tokenize-line_example :
    tokenize_command ample (line words ++ b'\r' ∷ b'\n' ∷ []) ≡ some (texts words)
tokenize-line_example = tokenize-line words words-CanWrite

abbrev two_words : List Word
two_words = bare (codes "set") ∷ bare (codes "k") ∷ []

two_words-CanWrite : All CanWrite two_words
unfolding isspace
two_words-CanWrite = ((omega arith, (refl, (refl, (refl, tt)))), ((omega arith, (refl, tt)), tt))

tokenize_unclosed_example :
    tokenize_command ample ((spaced two_words ++ quote ∷ codes "a b") ++ b'\r' ∷ b'\n' ∷ [])
    ≡ some (texts two_words)
tokenize_unclosed_example =
    tokenize_unclosed two_words (codes "a b") two_words-CanWrite
      (omega arith, (omega arith, (omega arith, tt)))

strtoll-print_example : strtoll (print (negsuc 41)) ≡ (negsuc 41, [])
strtoll-print_example = strtoll-print (negsuc 41) (omega arith)

scan-Fits_example : Fits (record { items = codes "a" ∷ []; max_tokens = 10 })
unfolding scan push_token isspace
scan-Fits_example =
    scan-Fits ample skipping (codes "a ") no_tokens _
      (record { bounded = omega arith; some_room = omega arith }) refl
