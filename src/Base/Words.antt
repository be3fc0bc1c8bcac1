-- ===== src/Base/Words.antt =====
-- The C type `size_t` and `uint64_t`: arithmetic modulo 2 ^ 64, and masking by `&`.
use Prim.Native.Nat.{
  ℕ, zero, suc, ◌+◌, ◌-◌, ◌/◌, ◌%◌, ◌^◌, ◌≤◌, min, bit_and, digits, bit_and-bitwise,
}
use native.Mathlib.Omega.{arith}

abbrev pub word : ℕ
word = 2 ^ 64

abbrev pub uint64_max : ℕ
uint64_max = 2 ^ 64 - 1

abbrev pub add64 : ℕ → ℕ → ℕ
add64 a b = (a + b) % word

abbrev pub sub64 : ℕ → ℕ → ℕ
sub64 a b = (a + (word - b % word)) % word

-- A mask never lets more through than itself.
digits-le : (n a b : ℕ) → digits (λ y. zero) min n a b ≤ b
digits-le zero zero b = omega arith
digits-le zero (suc a) b = omega arith
digits-le (suc n) zero b = omega arith
digits-le (suc n) (suc a) b = omega (arith, digits-le n (suc a / 2) (b / 2))

pub bit_and-le : (a b : ℕ) → bit_and a b ≤ b
bit_and-le a b = omega (arith, bit_and-bitwise a b, digits-le a a b)
