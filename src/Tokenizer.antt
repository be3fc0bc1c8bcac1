-- ===== src/Tokenizer.antt =====
-- `tokenize_command` of src/commands.c: the command line is cut into words at white space, with
-- double quotes round a word that has white space in it. The pointers `start` and `p` are the bytes
-- between them; the byte before `p` is kept where the code reads it.
pub mod Bounds
pub mod RoundTrip
pub mod Unclosed
pub mod Determined
use crimson_cache.Base.{
  ℕ, zero, suc, ◌+◌, ◌-◌, ◌*◌, ◌≤◌, Bool, true, false, not, ◌&&◌, ◌||◌, List, [], ◌∷◌, ◌++◌, Option,
  none, some, leb, ◌==◌, if◌then◌else◌, length, get_or, take,
}
use crimson_cache.CString.{Bytes, isspace}

abbrev pub backslash : ℕ
backslash = 92

abbrev pub quote : ℕ
quote = 34

-- What the allocations give: the array, a larger array for token number n, the copy of token n.
pub record TokenMemory : Type 0 where
  pub array_granted : Bool
  pub grow_granted : ℕ → Bool
  pub copy_granted : ℕ → Bool

-- The trailing "\r\n" or "\n" of the input is cut off.
unfoldable pub strip_newline : Bytes → Bytes
strip_newline input =
    let len = length input in
    if leb 2 len && get_or input (len - 2) 0 == b'\r' && get_or input (len - 1) 0 == b'\n'
    then take (len - 2) input
    else if leb 1 len && get_or input (len - 1) 0 == b'\n'
    then take (len - 1) input
    else input

-- `state`, with the bytes from `start` on in reverse.
pub data Mode : Type 0 where
  skipping : Mode
  in_token : Bytes → Mode
  in_quotes : Bytes → ℕ → Mode

-- `tokens` with `count` and `max_tokens`, the capacity of the array.
pub record Tokens : Type 0 where
  pub items : List Bytes
  pub max_tokens : ℕ

abbrev pub backwards : Bytes → Bytes → Bytes
backwards [] out = out
backwards (c ∷ s) out = backwards s (c ∷ out)

-- `tokens[count] = strdup(start)`, behind the growth of the array to `larger` slots.
unfoldable pub push_token : TokenMemory → ℕ → Bytes → Tokens → Option Tokens
push_token mem larger start t =
    let count = length t.items in
    let full = leb t.max_tokens count in
    if full && not (mem.grow_granted count)
    then none
    else if mem.copy_granted count
    then some (record {
      items = t.items ++ backwards start [] ∷ [];
      max_tokens = if full then larger else t.max_tokens;
    })
    else none

-- The loop, and the last token behind it; `none` is the jump to `cleanup`.
unfoldable pub scan : TokenMemory → Mode → Bytes → Tokens → Option Tokens
scan mem skipping [] t = some t
scan mem (in_token start) [] t = push_token mem (t.max_tokens + 1) start t
scan mem (in_quotes start prev) [] t = some t
scan mem skipping (c ∷ p) t =
    scan mem
      (if isspace c then skipping else if c == quote then in_quotes [] c else in_token (c ∷ [])) p t
scan mem (in_token start) (c ∷ p) t = elim (isspace c) [
  | true ↦ elim (push_token mem (t.max_tokens * 2) start t) [
    | none ↦ none
    | some t' ↦ scan mem skipping p t'
  ]
  | false ↦ scan mem (in_token (c ∷ start)) p t
]
scan mem (in_quotes start prev) (c ∷ p) t = elim (c == quote && not (prev == backslash)) [
  | true ↦ elim (push_token mem (t.max_tokens * 2) start t) [
    | none ↦ none
    | some t' ↦ scan mem skipping p t'
  ]
  | false ↦ scan mem (in_quotes (c ∷ start) c) p t
]

abbrev pub no_tokens : Tokens
no_tokens = record { items = []; max_tokens = 10 }

-- `none` is NULL, with `argc` 0.
unfoldable pub tokenize_command : TokenMemory → Bytes → Option (List Bytes)
unfolding strip_newline scan
tokenize_command mem input =
    if mem.array_granted
    then elim (scan mem skipping (strip_newline input) no_tokens) [
      | none ↦ none
      | some t ↦ some t.items
    ]
    else none
