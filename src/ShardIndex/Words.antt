-- ===== src/ShardIndex/Words.antt =====
-- Rust's `count_ones`, `trailing_zeros` and `ilog2` on a word of `w` bits, and what they say of
-- powers of two.
use sdarc.Prelude.{
  ℕ, zero, suc, ◌+◌, ◌*◌, ◌/◌, ◌%◌, ◌^◌, ◌≤◌, ◌<◌, ◌≡◌, refl, arith, ltb, ◌==◌, Bool-cases, ==_iff,
  inl, inr, if◌then◌else◌,
}
use native.Mathlib.Nat.{pow-suc}

unfoldable pub count_ones : ℕ → ℕ → ℕ
count_ones zero n = 0
count_ones (suc w) n = n % 2 + count_ones w (n / 2)

unfoldable pub trailing_zeros : ℕ → ℕ → ℕ
trailing_zeros zero n = 0
trailing_zeros (suc w) n = let rest = trailing_zeros w (n / 2) in if n % 2 == 1 then 0 else suc rest

unfoldable pub ilog2 : ℕ → ℕ → ℕ
ilog2 zero n = 0
ilog2 (suc w) n = let rest = ilog2 w (n / 2) in if ltb n 2 then 0 else suc rest

count_ones-eq-zero : (w n : ℕ) → n < 2 ^ w → count_ones w n ≡ 0 → n ≡ 0
unfolding count_ones
count_ones-eq-zero zero n h e = omega arith
count_ones-eq-zero (suc w) n h e =
    omega
      (arith, pow-suc 2 w, count_ones-eq-zero w (n / 2) (omega (arith, pow-suc 2 w)) (omega arith))

-- A number with one bit set is the power of two that its trailing zeros name.
pub power_of_one_bit : (w n : ℕ) → n < 2 ^ w → count_ones w n ≡ 1 → 2 ^ trailing_zeros w n ≡ n
unfolding count_ones trailing_zeros
power_of_one_bit zero n h e = absurd (omega arith)
power_of_one_bit (suc w) n h e = elim (Bool-cases (n % 2 == 1)) [
  | inl odd ↦ rw odd (
      omega (
        arith,
        count_ones-eq-zero w (n / 2) (omega (arith, pow-suc 2 w)) (ground arith),
        (==_iff (n % 2) 1).0 odd,
      ))
  | inr even ↦
      rw (even, pow-suc 2 (trailing_zeros w (n / 2)))
        (ground (arith, pow-suc 2 w, power_of_one_bit w (n / 2)))
]

count_ones_zero : (w : ℕ) → count_ones w 0 ≡ 0
unfolding count_ones
count_ones_zero zero = refl
count_ones_zero (suc w) = omega (arith, count_ones_zero w)

-- A power of two has one bit set.
pub count_ones-pow : (w k : ℕ) → k < w → count_ones w (2 ^ k) ≡ 1
unfolding count_ones
count_ones-pow zero k h = absurd (omega arith)
count_ones-pow (suc w) zero h = rw (count_ones_zero w)
count_ones-pow (suc w) (suc k) h =
    let half : 2 ^ suc k / 2 ≡ 2 ^ k = omega (arith, pow-suc 2 k) in
    rw half (omega (arith, pow-suc 2 k, count_ones-pow w k (omega arith)))

pub ilog2_bounds : (w n : ℕ) → 0 < n → n < 2 ^ w → (2 ^ ilog2 w n ≤ n) × (n < 2 ^ ilog2 w n * 2)
unfolding ilog2
ilog2_bounds zero n p h = absurd (omega arith)
ilog2_bounds (suc w) n p h = elim (Bool-cases (ltb n 2)) [
  | inl one ↦ rw one (ground arith)
  | inr more ↦
      rw (more, pow-suc 2 (ilog2 w (n / 2))) (ground (arith, pow-suc 2 w, ilog2_bounds w (n / 2)))
]

pub ilog2-lt : (w n : ℕ) → n < 2 ^ w → 0 < w → ilog2 w n < w
unfolding ilog2
ilog2-lt zero n h p = absurd (omega arith)
ilog2-lt (suc zero) n h p = ground arith
ilog2-lt (suc (suc w)) n h p = ground (arith, pow-suc 2 (suc w), ilog2-lt (suc w) (n / 2))
