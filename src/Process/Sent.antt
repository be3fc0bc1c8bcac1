-- ===== src/Process/Sent.antt =====
-- The lines that a primary sends for an entry, and the words that they are cut into.
use crimson_cache.Base.{
  ℕ, zero, suc, ◌-◌, ◌<◌, ◌≡◌, ◌≢◌, refl, ap, ◌∙◌, true, false, List, [], ◌∷◌, ◌++◌, some, arith,
  ltb, lt→ltb, ◌==◌, if◌then◌else◌, length, get_or, All, inl, inr, Bool-cases,
}
use mathlib.Core.List.{append_assoc}
use crimson_cache.CString.{Bytes, codes, isspace}
use crimson_cache.Tokenizer.{backwards, quote, no_tokens, strip_newline, tokenize_command}
use crimson_cache.Tokenizer.RoundTrip.{
  Word, bare, quoted, text, written, line, texts, CanWrite, ample, scan-line,
}
use crimson_cache.Dict.Defs.{CcObj, DictEntry}
use crimson_cache.Dict.Ops.{is_expired}
use crimson_cache.Persistence.Format.{is_string}
use crimson_cache.Replication.Sync.{
  Memory, SyncStep, needs_quotes, set_line, buffered, sync_entry, expire_lines,
}
use crimson_cache.Process.Follow.{split_lines}
use crimson_cache.Process.Chunks.{split_at_end, split_within}

abbrev pub value_word : Bytes → Word
value_word ptr = if needs_quotes ptr then quoted ptr else bare ptr

-- The bytes that stay within a line.
abbrev pub IsPlain : Bytes → Type 0
IsPlain s = All (λ c. (0 < c) × (c ≢ b'\r') × (c ≢ b'\n')) s

-- An entry that can be sent: its key is a bare word and its value a bare word or, with a space, a tab
-- or a quote in it, a text that can stand between quotes; neither has a line end in it; it is a string
-- that does not expire.
pub record CanSend (e : DictEntry) : Type 0 where
  pub key : CanWrite (bare e.key)
  pub value : CanWrite (value_word e.val.ptr)
  pub plain_key : IsPlain e.key
  pub plain_value : IsPlain e.val.ptr
  pub lasting : e.val.expire ≡ 0
  pub string : is_string e.val.type ≡ true
  pub short : length (set_line e) < 4096

abbrev pub sent_words : DictEntry → List Word
sent_words e = bare (codes "SET") ∷ bare e.key ∷ value_word e.val.ptr ∷ []

pub split_line :
    (start x rest : Bytes)
    → IsPlain x
    → split_lines start (x ++ b'\r' ∷ b'\n' ∷ rest)
      ≡ (backwards start x ∷ (split_lines [] rest).0, (split_lines [] rest).1)
split_line start [] rest h = split_at_end start b'\r' b'\n' rest refl refl
split_line start (c ∷ []) rest ((byte, cr, lf), h) =
    split_within start c b'\r' (b'\n' ∷ rest) (ground arith) (ground arith)
    ∙ split_line (c ∷ start) [] rest h
split_line start (c ∷ d ∷ x) rest ((byte, cr, lf), h) =
    split_within start c d (x ++ b'\r' ∷ b'\n' ∷ rest) (ground arith) (ground arith)
    ∙ split_line (c ∷ start) (d ∷ x) rest h

get_or-plain : (s : Bytes) (i : ℕ) → IsPlain s → (get_or s i 0 == b'\n') ≡ false
get_or-plain [] i h = refl
get_or-plain (c ∷ s) zero (x, h) = ground (arith, x.2)
get_or-plain (c ∷ s) (suc i) (x, h) = get_or-plain s i h

strip_plain : (s : Bytes) → IsPlain s → strip_newline s ≡ s
unfolding strip_newline
strip_plain s h = let last = get_or-plain s (length s - 1) h in rw last (ground arith)

tokenize_plain :
    (ws : List Word)
    → All CanWrite ws
    → IsPlain (line ws)
    → tokenize_command ample (line ws) ≡ some (texts ws)
unfolding tokenize_command
tokenize_plain ws h p =
    let (r, run, items) = scan-line ws no_tokens h in rw (strip_plain (line ws) p, run, items)

IsPlain-append : (a b : Bytes) → IsPlain a → IsPlain b → IsPlain (a ++ b)
IsPlain-append [] b h k = k
IsPlain-append (c ∷ a) b (x, h) k = (x, IsPlain-append a b h k)

plain : (c : ℕ) → b'\r' < c → (0 < c) × (c ≢ b'\r') × (c ≢ b'\n')
plain c h = (omega arith, (λ e. omega arith), (λ e. omega arith))

IsPlain-set : IsPlain (codes "SET ")
IsPlain-set = (
  plain 83 (omega arith),
  (plain 69 (omega arith), (plain 84 (omega arith), (plain 32 (omega arith), tt))),
)

set_word : CanWrite (bare (codes "SET"))
unfolding isspace
set_word = ((λ e. omega arith), (refl, (refl, (refl, tt))))

text-value_word : (ptr : Bytes) → text (value_word ptr) ≡ ptr
text-value_word ptr = elim (Bool-cases (needs_quotes ptr)) [
  | inl spaced ↦ rw spaced refl
  | inr alone ↦ rw alone refl
]

lasting_entry : (now : ℕ) (val : CcObj) → val.expire ≡ 0 → is_expired now val ≡ false
unfolding is_expired
lasting_entry now val h = ground arith

buffered_short : (beyond : Memory) (bs : Bytes) → length bs < 4096 → buffered beyond bs ≡ bs
unfolding buffered
buffered_short beyond bs h = rw (lt→ltb (length bs) 4096 h) refl

expire_none :
    (beyond : Memory) (step : SyncStep) (e : DictEntry)
    → e.val.expire ≡ 0
    → expire_lines beyond step e ≡ []
unfolding expire_lines
expire_none beyond step e h = let never : ltb 0 e.val.expire ≡ false = ground arith in rw never refl

module _ (e : DictEntry) (ok : CanSend e) where
  IsPlain-written : IsPlain (written (value_word e.val.ptr))
  IsPlain-written = elim (Bool-cases (needs_quotes e.val.ptr)) [
    | inl spaced ↦ rw spaced (
      (omega arith, (λ h. omega arith), (λ h. omega arith)),
      IsPlain-append e.val.ptr (quote ∷ []) ok.plain_value
          ((omega arith, (λ h. omega arith), (λ h. omega arith)), tt),
    )
    | inr alone ↦ rw alone ok.plain_value
  ]

  pub set_line-content : set_line e ≡ line (sent_words e) ++ b'\r' ∷ b'\n' ∷ []
  unfolding set_line
  set_line-content = elim (Bool-cases (needs_quotes e.val.ptr)) [
    | inl spaced ↦ rw spaced (simp append_assoc)
    | inr alone ↦ rw alone (simp append_assoc)
  ]

  pub IsPlain-content : IsPlain (line (sent_words e))
  IsPlain-content =
      IsPlain-append (codes "SET ") (e.key ++ 32 ∷ written (value_word e.val.ptr)) IsPlain-set (
        IsPlain-append e.key (32 ∷ written (value_word e.val.ptr)) ok.plain_key
          (plain 32 (omega arith), IsPlain-written))

  pub content_words :
      tokenize_command ample (line (sent_words e)) ≡ some (codes "SET" ∷ e.key ∷ e.val.ptr ∷ [])
  content_words =
      tokenize_plain (sent_words e) (set_word, (ok.key, (ok.value, tt))) IsPlain-content
      ∙ ap (λ (w : Bytes). some (codes "SET" ∷ e.key ∷ w ∷ [])) (text-value_word e.val.ptr)

  -- One entry comes to one SET.
  pub sync_entry-set_line :
      (beyond : Memory) (step : SyncStep)
      → step.set_completes ≡ true
      → sync_entry beyond step e ≡ set_line e ∷ []
  unfolding sync_entry
  sync_entry-set_line beyond step completes =
      rw
        (
          lasting_entry step.now_test e.val ok.lasting,
          ok.string,
          buffered_short beyond (set_line e) ok.short,
          expire_none beyond step e ok.lasting,
          completes,
        )
        refl
