-- ===== src/TaggedCounter/Refine.antt =====
-- The word of a counter shard and the cell that it stands for: away from the ends of the range
-- each operation on words is the operation on cells.
use Prim.Native.Nat.{bit_and}
use sdarc.Prelude.{
  ℕ, ◌-◌, ◌*◌, ◌/◌, ◌%◌, ◌^◌, ◌<◌, ◌≡◌, ◌≢◌, refl, true, false, not, arith, ◌==◌, ==_iff,
  Bool-cases, inl, inr, if◌then◌else◌,
}
use sdarc.Prelude.Int.{pos, negsuc, ◌+ℤ◌, ◌-ℤ◌}
use sdarc.Prelude.Bits.{bit_and-one, bit_or-one, bit_and-even_mask}
use sdarc.Cell
use sdarc.Cell.{Cell}
use sdarc.TaggedCounter.{
  TaggedCounter, ref_count, tag, increment_ref_count_relaxed, decremented,
  fetch_and_clear_tag_acquire,
}

abbrev pub cell : TaggedCounter → Cell
cell v = record { count = ref_count v; tag = tag v }

-- The count of a word is not the greatest; nor the least.
abbrev pub CanIncrement : TaggedCounter → Type 0
CanIncrement v = (v < 2 ^ 64) × (v / 2 ≢ 2 ^ 62 - 1)

abbrev pub CanDecrement : TaggedCounter → Type 0
CanDecrement v = (v < 2 ^ 64) × (v / 2 ≢ 2 ^ 62)

-- Clearing the tag takes the lowest bit away.
pub bit_and-mask_lem : (v : ℕ) → v < 2 ^ 64 → bit_and v (2 ^ 64 - 2) ≡ v / 2 * 2
bit_and-mask_lem v h = omega (arith, bit_and-even_mask 63 v)

pub tag_iff : (v : ℕ) → tag v ≡ not (v % 2 == 0)
unfolding tag
tag_iff v = rw (bit_and-one v)

ref_count-increment :
    (v : ℕ) → CanIncrement v → ref_count (increment_ref_count_relaxed v) ≡ ref_count v +ℤ pos 1
unfolding ref_count increment_ref_count_relaxed ◌+ℤ◌
ref_count-increment v h = ground arith

ref_count-decremented : (v : ℕ) → CanDecrement v → ref_count (decremented v) ≡ ref_count v -ℤ pos 1
unfolding ref_count decremented ◌-ℤ◌
ref_count-decremented v h = rw (bit_or-one v) (ground arith)

ref_count-even : (v : ℕ) → ref_count (v / 2 * 2) ≡ ref_count v
unfolding ref_count
ref_count-even v = ground arith

tag-increment : (v : ℕ) → tag (increment_ref_count_relaxed v) ≡ tag v
tag-increment v = rw (tag_iff (increment_ref_count_relaxed v), tag_iff v, parity)
  where
    parity : (increment_ref_count_relaxed v) % 2 ≡ v % 2
    parity = unfold increment_ref_count_relaxed in omega arith

tag-decremented : (v : ℕ) → tag (decremented v) ≡ true
tag-decremented v = rw (tag_iff, parity)
  where
    parity : decremented v % 2 ≡ 1
    parity = unfold decremented in rw (bit_or-one v) (omega arith)

-- `fetch_add(2)` counts one reference more and keeps the tag.
pub increment_refines :
    (v : TaggedCounter)
    → CanIncrement v
    → cell (increment_ref_count_relaxed v) ≡ Cell.increment (cell v)
increment_refines v h = λ i. record { count = ref_count-increment v h i; tag = tag-increment v i }

-- The new value of the exchange counts one reference less and has the tag set.
pub decremented_refines :
    (v : TaggedCounter) → CanDecrement v → cell (decremented v) ≡ Cell.decrement (cell v)
decremented_refines v h =
    λ i. record { count = ref_count-decremented v h i; tag = tag-decremented v i }

-- Clearing returns the old word and leaves the same count with no tag.
pub clear_tag_refines :
    (v : TaggedCounter)
    → v < 2 ^ 64
    → let (old, kept) = fetch_and_clear_tag_acquire v in
      (old ≡ v) × (cell kept ≡ Cell.clear_tag (cell v))
unfolding fetch_and_clear_tag_acquire
clear_tag_refines v h =
    rw (bit_and-mask_lem v h) (refl, (λ i. record { count = ref_count-even v i; tag = unmarked i }))
  where
    unmarked : tag (v / 2 * 2) ≡ false
    unmarked = rw (tag_iff) (ground arith)

-- At the ends of the range
ref_count-increment_greatest :
    (v : ℕ) → v / 2 ≡ 2 ^ 62 - 1 → ref_count (increment_ref_count_relaxed v) ≡ negsuc (2 ^ 62 - 1)
unfolding ref_count increment_ref_count_relaxed
ref_count-increment_greatest v h = ground arith

ref_count-decremented_least :
    (v : ℕ) → v / 2 ≡ 2 ^ 62 → ref_count (decremented v) ≡ pos (2 ^ 62 - 1)
unfolding ref_count decremented
ref_count-decremented_least v h = rw (bit_or-one v) (ground arith)

-- Every 64-bit word stands for a signed count and a tag. `fetch_add(2)` counts one reference more and
-- keeps the tag, the new value of the decrement's exchange counts one less and has the tag set; the
-- greatest count wraps to the least, and the least to the greatest. Clearing the tag returns the old
-- word and leaves the same count with no tag.
pub words_refine :
    (v : TaggedCounter)
    → v < 2 ^ 64
    → (cell (increment_ref_count_relaxed v) ≡ (
        if v / 2 == 2 ^ 62 - 1
        then record { count = negsuc (2 ^ 62 - 1); tag = tag v }
        else Cell.increment (cell v)))
      × (cell (decremented v) ≡ (
          if v / 2 == 2 ^ 62
          then record { count = pos (2 ^ 62 - 1); tag = true }
          else Cell.decrement (cell v)))
      × (let (old, kept) = fetch_and_clear_tag_acquire v in
          (old ≡ v) × (cell kept ≡ Cell.clear_tag (cell v)))
words_refine v h = (
  elim (Bool-cases (v / 2 == 2 ^ 62 - 1)) [
    | inl greatest ↦
        let e : v / 2 ≡ 2 ^ 62 - 1 = (==_iff _ _).0 greatest in
        rw greatest
          (λ i. record { count = ref_count-increment_greatest v e i; tag = tag-increment v i })
    | inr inner ↦ rw inner (increment_refines v (h, λ e. ground arith))
  ],
  elim (Bool-cases (v / 2 == 2 ^ 62)) [
    | inl least ↦
        let e : v / 2 ≡ 2 ^ 62 = (==_iff _ _).0 least in
        rw least
          (λ i. record { count = ref_count-decremented_least v e i; tag = tag-decremented v i })
    | inr inner ↦ rw inner (decremented_refines v (h, λ e. ground arith))
  ],
  clear_tag_refines v h,
)
