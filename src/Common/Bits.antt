-- ===== src/Common/Bits.antt =====
-- `|` of a number and a shifted one, as a sum, from the digit recursion of the native operation.
use Prim.Native.Nat.{
  ℕ, zero, suc, ◌+◌, ◌*◌, ◌/◌, ◌%◌, ◌^◌, ◌≤◌, ◌<◌, max, digits, bit_or, bit_or-bitwise,
}
use mathlib.Core.Path.{◌≡◌, refl}
use native.Mathlib.Nat.{pow-suc}
use native.Mathlib.Omega.{arith}

abbrev or_digits : ℕ → ℕ → ℕ → ℕ
or_digits count a b = digits (λ rest. rest) max count a b

-- The count of digits does not matter once it covers the number.
or_digits-count : (j k a b : ℕ) → a ≤ j → a ≤ k → or_digits j a b ≡ or_digits k a b
or_digits-count zero zero zero b p q = refl
or_digits-count zero (suc k) zero b p q = refl
or_digits-count (suc j) zero zero b p q = refl
or_digits-count (suc j) (suc k) zero b p q = refl
or_digits-count zero k (suc a) b p q = absurd (omega arith)
or_digits-count (suc j) zero (suc a) b p q = absurd (omega arith)
or_digits-count (suc j) (suc k) (suc a) b p q =
    omega (arith, or_digits-count j k (suc a / 2) (b / 2) (omega arith) (omega arith))

zero-bit_or : (b : ℕ) → bit_or 0 b ≡ b
zero-bit_or b = bit_or-bitwise 0 b

bit_or_halves : (a b : ℕ) → bit_or a b ≡ bit_or (a / 2) (b / 2) * 2 + max (a % 2) (b % 2)
bit_or_halves zero b = omega (arith, zero-bit_or b, zero-bit_or (b / 2))
bit_or_halves (suc a) b = omega (
  arith,
  bit_or-bitwise (suc a) b,
  bit_or-bitwise (suc a / 2) (b / 2),
  or_digits-count a (suc a / 2) (suc a / 2) (b / 2) (omega arith) (omega arith),
)

-- `low | (high << k)` where `low` fits k bits.
pub bit_or-shifted : (k low high : ℕ) → low < 2 ^ k → bit_or low (high * 2 ^ k) ≡ low + high * 2 ^ k
bit_or-shifted zero low high fits = ground (arith, zero-bit_or (high * 2 ^ 0))
bit_or-shifted (suc k) low high fits = ground (
  arith,
  bit_or_halves low (high * 2 ^ suc k),
  pow-suc 2 k,
  shifted_twice high (2 ^ k),
  bit_or-shifted k (low / 2) high,
)
  where
    shifted_twice : (h p : ℕ) → h * (2 * p) ≡ 2 * (h * p)
    shifted_twice h p = grind arith
