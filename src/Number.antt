-- ===== src/Number.antt =====
-- The numbers of the C library that src/commands.c reads and prints: `strtoll`, `atoll`, `atol`,
-- `atoi` and `snprintf` with "%lld", "%zu" and "%d", on an LP64 machine.
pub mod RoundTrip
use crimson_cache.Base.{
  ℕ, zero, suc, ◌+◌, ◌-◌, ◌*◌, ◌/◌, ◌%◌, ◌^◌, min, ◌≤◌, Bool, true, false, ◌&&◌, List, [], ◌∷◌, ltb,
  leb, ◌==◌, if◌then◌else◌, word, take,
}
use crimson_cache.CString.{Bytes, isspace}

-- `negsuc n` is -(n + 1).
pub data ℤ : Type 0 where
  pos : ℕ → ℤ
  negsuc : ℕ → ℤ

abbrev pub llong_max : ℕ
llong_max = 2 ^ 63 - 1

-- A `long long`.
abbrev pub InRange : ℤ → Type 0
InRange (pos n) = n ≤ llong_max
InRange (negsuc n) = n ≤ llong_max

abbrev pub negate : ℕ → ℤ
negate zero = pos 0
negate (suc n) = negsuc n

-- The value converted to `uint64_t`.
unfoldable pub to_word : ℤ → ℕ
to_word (pos n) = n % word
to_word (negsuc n) = word - 1 - n % word

-- `value++` on a `long long`; at the largest value, where C leaves it undefined, it wraps around.
unfoldable pub increment : ℤ → ℤ
increment (pos n) = if n == llong_max then negsuc llong_max else pos (n + 1)
increment (negsuc n) = negate n

abbrev pub is_digit : ℕ → Bool
is_digit c = leb b'0' c && leb c b'9'

-- The digits at the front, as a number behind `n`, and the rest.
unfoldable pub digits_value : ℕ → Bytes → ℕ × Bytes
digits_value n [] = (n, [])
digits_value n (c ∷ s) = if is_digit c then digits_value (n * 10 + (c - b'0')) s else (n, c ∷ s)

unfoldable pub skip_space : Bytes → Bytes
skip_space [] = []
skip_space (c ∷ s) = if isspace c then skip_space s else c ∷ s

-- A value out of range is cut to the nearest one in range.
abbrev pub saturate : Bool → ℕ → ℤ
saturate true n = negate (min n (llong_max + 1))
saturate false n = pos (min n llong_max)

-- Behind the sign; with no digit nothing is converted, and the end is `whole`.
convert : Bytes → Bool → Bytes → ℤ × Bytes
unfolding digits_value
convert whole negative [] = (pos 0, whole)
convert whole negative (c ∷ s) =
    if is_digit c
    then (let (n, rest) = digits_value 0 (c ∷ s) in (saturate negative n, rest))
    else (pos 0, whole)

signed : Bytes → Bytes → ℤ × Bytes
unfolding convert
signed whole [] = (pos 0, whole)
signed whole (c ∷ s) =
    if c == b'-'
    then convert whole true s
    else if c == b'+'
    then convert whole false s
    else convert whole false (c ∷ s)

-- `strtoll(s, &end, 10)`: the value, and the text that `end` points to.
unfoldable pub strtoll : Bytes → ℤ × Bytes
unfolding signed skip_space
strtoll s = signed s (skip_space s)

abbrev pub atoll : Bytes → ℤ
atoll s = (strtoll s).0

-- `(int)strtol(s, NULL, 10)`
abbrev pub int_of : ℕ → ℤ
int_of n = if ltb n (2 ^ 31) then pos n else negsuc (2 ^ 32 - 1 - n)

unfoldable pub atoi : Bytes → ℤ
unfolding strtoll to_word
atoi s = int_of (to_word (atoll s) % 2 ^ 32)

-- The decimal digits of a number before `out`, on fuel.
unfoldable pub digits : ℕ → ℕ → Bytes → Bytes
digits zero n out = out
digits (suc fuel) n out =
    let rest = digits fuel (n / 10) ((b'0' + n % 10) ∷ out) in
    if ltb n 10 then (b'0' + n) ∷ out else rest

-- "%zu"
unfoldable pub print_nat : ℕ → Bytes
unfolding digits
print_nat n = digits (suc n) n []

-- "%lld"
unfoldable pub print : ℤ → Bytes
unfolding print_nat
print (pos n) = print_nat n
print (negsuc n) = b'-' ∷ print_nat (n + 1)

-- `snprintf(buffer, size, …)`: what stands in the buffer before its NUL.
unfoldable pub snprintf : ℕ → Bytes → Bytes
snprintf size text = take (size - 1) text
