-- ===== src/TaggedCounter.antt =====
-- src/tagged_counter.rs: the reference count of one shard and a tag, in one `i64`.
-- A word is the bit pattern of the `i64`, a number below 2^64.
pub mod Refine
pub mod Loop
mod Tests
use Prim.Native.Nat.{bit_and, bit_or}
use sdarc.Prelude.{
  ℕ, ◌+◌, ◌-◌, ◌/◌, ◌%◌, ◌^◌, Bool, not, List, [], ◌∷◌, Option, none, some, ltb, ◌==◌, ◌&&◌,
  if◌then◌else◌,
}
use sdarc.Prelude.Int.{ℤ, pos, negsuc}

-- `TaggedCounter` and the `AtomicI64` of `AtomicTaggedCounter`
abbrev pub TaggedCounter : Type 0
TaggedCounter = ℕ

-- the number that a bit pattern stands for
abbrev pub signed : ℕ → ℤ
signed w = if ltb w (2 ^ 63) then pos w else negsuc (2 ^ 64 - w - 1)

-- `self.0 >> 1` copies the sign bit.
unfoldable pub ref_count : TaggedCounter → ℤ
ref_count v = signed (v / 2 + (if ltb v (2 ^ 63) then 0 else 2 ^ 63))

-- `self.0 & 1 != 0`
unfoldable pub tag : TaggedCounter → Bool
tag v = not (bit_and v 1 == 0)

abbrev pub new : TaggedCounter
new = 0

-- `fetch_add(2)` wraps.
unfoldable pub increment_ref_count_relaxed : TaggedCounter → TaggedCounter
increment_ref_count_relaxed v = (v + 2) % 2 ^ 64

-- `(value | 1) - 2`, with the wrap of a release build at the least `i64`
unfoldable pub decremented : TaggedCounter → TaggedCounter
decremented value = (bit_or value 1 + 2 ^ 64 - 2) % 2 ^ 64

-- `!1`
abbrev mask_for_clearing_tag : ℕ
mask_for_clearing_tag = 2 ^ 64 - 2

-- `fetch_and`: what was there, and what is there now
unfoldable pub fetch_and_clear_tag_acquire : TaggedCounter → TaggedCounter × TaggedCounter
fetch_and_clear_tag_acquire v = (v, bit_and v mask_for_clearing_tag)

-- What other threads make of the word just before one `compare_exchange_weak`, and whether that
-- exchange fails though the word is as expected.
pub record Attempt : Type 0 where
  pub others : TaggedCounter → TaggedCounter
  pub spurious : Bool

-- The loop of `decrement_ref_count_and_set_tag_release`, from the value that it holds and the word
-- in memory; `none` means that it has used up the attempts and goes on.
unfoldable pub exchange_loop : List Attempt → TaggedCounter → TaggedCounter → Option TaggedCounter
exchange_loop [] value memory = none
exchange_loop (a ∷ rest) value memory =
    let seen = a.others memory in
    let again = exchange_loop rest seen seen in
    if value == seen && not a.spurious then some (decremented value) else again

unfoldable pub decrement_ref_count_and_set_tag_release :
    List Attempt → TaggedCounter → Option TaggedCounter
decrement_ref_count_and_set_tag_release attempts memory = exchange_loop attempts memory memory
