-- ===== src/Prelude/Bits.antt =====
-- The bit operations of the program at variables: `x & (2^k - 1)` is `x % 2^k`, `x & (2^k - 2)`
-- clears the lowest bit of that, and `x | 1` sets the lowest bit.
use Prim.Native.Nat.{
  ℕ, zero, suc, ◌+◌, ◌-◌, ◌*◌, ◌/◌, ◌%◌, ◌^◌, ◌≤◌, ◌<◌, min, max, bit_and, bit_or, digits,
  bit_and-bitwise, bit_or-bitwise,
}
use mathlib.Core.Path.{◌≡◌, refl, ap, ◌∙◌}
use native.Mathlib.Omega.{arith}
use native.Mathlib.Nat.{pow-suc}

mod_double : (a m : ℕ) → 0 < m → a % (m * 2) ≡ a / 2 % m * 2 + a % 2
mod_double a m h = grind arith

pub pow-two-pos : (k : ℕ) → 0 < 2 ^ k
pow-two-pos zero = omega arith
pow-two-pos (suc k) = omega (arith, pow-suc 2 k, pow-two-pos k)

half_mask : (k : ℕ) → (2 ^ k * 2 - 1) / 2 ≡ 2 ^ k - 1
half_mask k = omega (arith, pow-two-pos k)

odd_mask : (k : ℕ) → (2 ^ k * 2 - 1) % 2 ≡ 1
odd_mask k = omega (arith, pow-two-pos k)

zero_mod : (m : ℕ) → 0 < m → 0 ≡ 0 % m
zero_mod m h = grind arith

-- The digits that a mask of `k` ones keeps, when the fuel is enough.
low_digits : (n k a : ℕ) → a ≤ n → digits (λ b. 0) min n a (2 ^ k - 1) ≡ a % 2 ^ k
low_digits zero k zero h = zero_mod (2 ^ k) (pow-two-pos k)
low_digits (suc n) k zero h = zero_mod (2 ^ k) (pow-two-pos k)
low_digits zero k (suc a) h = absurd (omega arith)
low_digits (suc n) zero (suc a) h = omega (arith, low_digits n zero (suc a / 2) (omega arith))
low_digits (suc n) (suc k) (suc a) h =
    rw (pow-suc 2 k, mod_double (suc a) (2 ^ k) (pow-two-pos k), half_mask k, odd_mask k)
      (omega (arith, low_digits n k (suc a / 2) (omega arith)))

-- A mask of `k` ones keeps the low `k` bits.
pub bit_and_mask : (k a : ℕ) → bit_and a (2 ^ k - 1) ≡ a % 2 ^ k
bit_and_mask k a = bit_and-bitwise a (2 ^ k - 1) ∙ low_digits a k a (omega arith)

pub bit_and-one : (a : ℕ) → bit_and a 1 ≡ a % 2
bit_and-one = bit_and_mask 1

-- A mask of `k` ones before a zero keeps those bits and clears the lowest.
pub bit_and-even_mask : (k a : ℕ) → bit_and a (2 ^ k * 2 - 2) ≡ a / 2 % 2 ^ k * 2
bit_and-even_mask k zero =
    bit_and-bitwise 0 (2 ^ k * 2 - 2) ∙ ap (λ x. x * 2) (zero_mod (2 ^ k) (pow-two-pos k))
bit_and-even_mask k (suc a) =
    let half : (2 ^ k * 2 - 2) / 2 ≡ 2 ^ k - 1 = omega arith in
    bit_and-bitwise (suc a) (2 ^ k * 2 - 2)
    ∙ rw half (omega (arith, low_digits a k (suc a / 2) (omega arith)))

or_digits : (n a : ℕ) → a ≤ n → digits (λ b. b) max n a 0 ≡ a
or_digits zero zero h = refl
or_digits (suc n) zero h = refl
or_digits zero (suc a) h = absurd (omega arith)
or_digits (suc n) (suc a) h = omega (arith, or_digits n (suc a / 2) (omega arith))

-- Or with 1 sets the lowest bit and keeps the others.
pub bit_or-one : (a : ℕ) → bit_or a 1 ≡ a / 2 * 2 + 1
bit_or-one zero = refl
bit_or-one (suc a) = omega (arith, bit_or-bitwise (suc a) 1, or_digits a (suc a / 2) (omega arith))

pub pow-two_mono : (k m : ℕ) → k ≤ m → 2 ^ k ≤ 2 ^ m
pow-two_mono zero m h = pow-two-pos m
pow-two_mono (suc k) zero h = absurd (omega arith)
pow-two_mono (suc k) (suc m) h =
    omega (arith, pow-suc 2 k, pow-suc 2 m, pow-two_mono k m (omega arith))
