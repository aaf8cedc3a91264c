-- ===== src/ShardIndex/Count.antt =====
-- src/shard_index.rs, `ShardCount`: the count is the least power of two that is enough, and the
-- mask takes the remainder by it.
use sdarc.Prelude.{
  ℕ, ◌+◌, ◌-◌, ◌*◌, ◌%◌, ◌^◌, ◌≤◌, ◌<◌, ◌≡◌, ◌≢◌, refl, ap, ◌⊎◌, inl, inr, arith, ltb, ◌==◌, ==_iff,
  true, false, Bool-cases, if◌then◌else◌, dec_lt,
}
use sdarc.Prelude.Bits.{bit_and_mask, pow-two-pos, pow-two_mono}
use sdarc.Outcome.{done}
use native.Mathlib.Nat.{pow-suc, mod-lt, mod-eq_of_lt}
use native.Mathlib.Numerals.{add-one}
use sdarc.ShardIndex.{ShardCount, from_exponent_adjusted, from_usize_adjusted, modulo}
use sdarc.ShardIndex.Words.{
  count_ones, trailing_zeros, ilog2, power_of_one_bit, ilog2_bounds, ilog2-lt, count_ones-pow,
}

-- What every `ShardCount` of the program is.
pub record IsShardCount (c : ShardCount) : Type 0 where
  pub exponent : ℕ
  pub small : exponent ≤ 8
  pub count : c.shard_count ≡ 2 ^ exponent
  pub mask : c.mask ≡ c.shard_count - 1

pub from_exponent_adjusted-IsShardCount : (e : ℕ) → IsShardCount (from_exponent_adjusted e)
unfolding from_exponent_adjusted
from_exponent_adjusted-IsShardCount e = record {
  exponent = if ltb e 0 then 0 else if ltb 8 e then 8 else e;
  small = ground arith;
  count = refl;
  mask = refl;
}

pub count-le_256 : (c : ShardCount) → IsShardCount c → (0 < c.shard_count) × (c.shard_count ≤ 256)
count-le_256 c v = rw v.count (pow-two-pos v.exponent, pow-two_mono v.exponent 8 v.small)

-- `modulo` is the remainder by the shard count, so it is the index of a shard, and the cast to
-- `u8` loses nothing.
pub modulo-lt :
    (c : ShardCount) (num : ℕ)
    → IsShardCount c
    → (modulo c num ≡ num % c.shard_count) × (modulo c num < c.shard_count)
unfolding modulo
modulo-lt c num v =
    rw (v.mask, v.count, bit_and_mask v.exponent num, mod-eq_of_lt fits) (refl, within)
  where
    within : num % 2 ^ v.exponent < 2 ^ v.exponent
    within = mod-lt num (pow-two-pos v.exponent)

    fits : num % 2 ^ v.exponent < 256
    fits = omega (arith, within, pow-two_mono v.exponent 8 v.small)

clamped : (e : ℕ) → e ≤ 8 → (from_exponent_adjusted e).shard_count ≡ 2 ^ e
unfolding from_exponent_adjusted
clamped e h = ap (λ k. 2 ^ k) (ground arith)

clamped_above : (e : ℕ) → 8 ≤ e → (from_exponent_adjusted e).shard_count ≡ 256
unfolding from_exponent_adjusted
clamped_above e h =
    let full : (if ltb e 0 then 0 else if ltb 8 e then 8 else e) ≡ 8 = ground arith in
    ap (λ k. 2 ^ k) full

-- What `from_usize_adjusted` promises of its result.
abbrev pub Enough : ℕ → ShardCount → Type 0
Enough num c =
    ((num ≤ 256) × (num ≤ c.shard_count) × (c.shard_count < num * 2))
    ⊎ ((256 < num) × (c.shard_count ≡ 256))

-- An exponent whose power is the least that is enough gives the count that is promised.
from_exponent_adjusted-Enough :
    (num e : ℕ) → num ≤ 2 ^ e → 2 ^ e < num * 2 → Enough num (from_exponent_adjusted e)
from_exponent_adjusted-Enough num e above least = elim (dec_lt 8 e) [
  | yes large ↦ inr (omega (arith, pow-two_mono 9 e large), clamped_above e (omega arith))
  | no small ↦ inl (
    omega (arith, pow-two_mono e 8 (omega arith)),
    omega (arith, clamped e (omega arith)),
    omega (arith, clamped e (omega arith)),
  )
]

-- The shard count for `num` is the least power of two that is at least `num`, and 256 for a `num`
-- beyond that; there is no panic.
pub from_usize_adjusted_least :
    (num : ℕ)
    → 0 < num
    → num < 2 ^ 64
    → (c : ShardCount) × (from_usize_adjusted num ≡ done c) × IsShardCount c × Enough num c
unfolding from_usize_adjusted
from_usize_adjusted_least num p h = elim (Bool-cases (count_ones 64 num == 1)) [
  | inl one ↦ (
    from_exponent_adjusted (trailing_zeros 64 num),
    ground arith,
    from_exponent_adjusted-IsShardCount _,
    from_exponent_adjusted-Enough num _ (omega (arith, one_bit one)) (omega (arith, one_bit one)),
  )
  | inr more ↦ (
    from_exponent_adjusted (ilog2 64 num + 1),
    ground arith,
    from_exponent_adjusted-IsShardCount _,
    from_exponent_adjusted-Enough num _ (omega (arith, rounded more)) (omega (arith, rounded more)),
  )
]
  where
    one_bit : (count_ones 64 num == 1) ≡ true → 2 ^ trailing_zeros 64 num ≡ num
    one_bit one = power_of_one_bit 64 num h ((==_iff _ 1).0 one)

    not_power : (count_ones 64 num == 1) ≡ false → 2 ^ ilog2 64 num ≢ num
    not_power more e =
        ground (arith, rw e at (count_ones-pow 64 (ilog2 64 num) (ilog2-lt 64 num h (omega arith))))

    rounded :
        (count_ones 64 num == 1) ≡ false
        → (num ≤ 2 ^ (ilog2 64 num + 1)) × (2 ^ (ilog2 64 num + 1) < num * 2)
    rounded more =
        rw (add-one (ilog2 64 num), pow-suc 2 (ilog2 64 num))
          (omega (arith, ilog2_bounds 64 num p h, not_power more))
