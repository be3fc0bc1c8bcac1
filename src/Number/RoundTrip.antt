-- ===== src/Number/RoundTrip.antt =====
-- Printing and reading numbers.
use crimson_cache.Base.{
  ℕ, zero, suc, ◌+◌, ◌/◌, ◌%◌, ◌<◌, ◌≡◌, refl, ◌∙◌, ap, min, Bool, true, false, [], ◌∷◌, arith, ltb,
  ◌==◌, inl, inr, Bool-cases,
}
use crimson_cache.CString.{Bytes, isspace}
use crimson_cache.Number.{
  ℤ, pos, negsuc, InRange, llong_max, is_digit, digits_value, skip_space, convert, signed, strtoll,
  digits, print_nat, print, saturate, negate,
}

digits_value-digits :
    (fuel n : ℕ) (out : Bytes) → n < fuel → digits_value 0 (digits fuel n out) ≡ digits_value n out
unfolding digits digits_value
digits_value-digits zero n out h = absurd (omega arith)
digits_value-digits (suc fuel) n out h =
    ground (arith, digits_value-digits fuel (n / 10) ((b'0' + n % 10) ∷ out))

-- The first digit stands at the front.
starts_with_digit :
    (fuel n : ℕ) (out : Bytes)
    → n < fuel
    → (c : ℕ) × (s : Bytes) × (digits fuel n out ≡ c ∷ s) × (is_digit c ≡ true)
unfolding digits
starts_with_digit zero n out h = absurd (omega arith)
starts_with_digit (suc fuel) n out h = elim (Bool-cases (ltb n 10)) [
  | inl small ↦ rw small (b'0' + n, out, refl, ground arith)
  | inr large ↦ rw large (starts_with_digit fuel (n / 10) ((b'0' + n % 10) ∷ out) (ground arith))
]

-- A printed number: its first digit, the others, and that reading them gives it back.
record Printed (n : ℕ) : Type 0 where
  first : ℕ
  others : Bytes
  is : print_nat n ≡ first ∷ others
  digit : is_digit first ≡ true
  value : digits_value 0 (first ∷ others) ≡ (n, [])

printed : (n : ℕ) → Printed n
unfolding print_nat digits_value
printed n =
    let (c, s, e, d) = starts_with_digit (suc n) n [] (omega arith) in
    record {
      first = c;
      others = s;
      is = e;
      digit = d;
      value = rw e at (digits_value-digits (suc n) n [] (omega arith));
    }

convert_digit :
    (whole : Bytes) (negative : Bool) (c : ℕ) (s : Bytes) {n : ℕ} {rest : Bytes}
    → is_digit c ≡ true
    → digits_value 0 (c ∷ s) ≡ (n, rest)
    → convert whole negative (c ∷ s) ≡ (saturate negative n, rest)
unfolding convert
convert_digit whole negative c s d e =
    rw d (rw d at (ap {B = ℤ × Bytes} (λ (p : ℕ × Bytes). (saturate negative p.0, p.1)) e))

convert-print :
    (whole : Bytes) (negative : Bool) (n : ℕ)
    → convert whole negative (print_nat n) ≡ (saturate negative n, [])
convert-print whole negative n =
    let p = printed n in rw p.is (convert_digit whole negative p.first p.others p.digit p.value)

signed-print : (whole : Bytes) (n : ℕ) → signed whole (print_nat n) ≡ (pos (min n llong_max), [])
signed-print whole n =
    let p = printed n in
    let d = p.digit in
    let minus : (p.first == b'-') ≡ false = ground arith in
    let plus : (p.first == b'+') ≡ false = ground arith in
    rw p.is (unfold signed in rw (minus, plus) (rw p.is at (convert-print whole false n)))

skip_space-print : (n : ℕ) → skip_space (print_nat n) ≡ print_nat n
skip_space-print n =
    let p = printed n in let d = p.digit in rw p.is (unfold skip_space isspace in ground arith)

-- Reading a number that was printed gives the number, and nothing is left over.
pub strtoll-print : (z : ℤ) → InRange z → strtoll (print z) ≡ (z, [])
unfolding strtoll print
strtoll-print (pos n) h =
    let fits : min n llong_max ≡ n = omega arith in
    rw (skip_space-print n, signed-print (print_nat n) n, fits)
strtoll-print (negsuc n) h =
    let whole = b'-' ∷ print_nat (n + 1) in
    let fits : min (n + 1) (llong_max + 1) ≡ suc n = omega arith in
    unfold isspace signed in
    (convert-print whole true (n + 1) ∙ ap (λ (m : ℕ). (negate m, [])) fits)
