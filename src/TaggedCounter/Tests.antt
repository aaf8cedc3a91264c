-- ===== src/TaggedCounter/Tests.antt =====
-- Runs of the definitions for src/tagged_counter.rs, and its theorems at concrete inputs.
use sdarc.Prelude.{
  ℕ, suc, ◌-◌, ◌^◌, ◌<◌, ◌≡◌, refl, arith, List, [], ◌∷◌, ◌++◌, some, false, length,
}
use sdarc.Prelude.Int.{negsuc}
use sdarc.Cell
use sdarc.TaggedCounter.{
  TaggedCounter, Attempt, ref_count, tag, increment_ref_count_relaxed, decremented, exchange_loop,
  fetch_and_clear_tag_acquire, decrement_ref_count_and_set_tag_release,
}
use sdarc.TaggedCounter.Refine.{cell, words_refine}
use sdarc.TaggedCounter.Loop.{disturbed, decrement_atomic, decrement_ends}

-- the word of count -1 with the tag set
abbrev minus_one_tagged : TaggedCounter
minus_one_tagged = 2 ^ 64 - 1

minus_one_counts : ref_count minus_one_tagged ≡ negsuc 0
unfolding ref_count
minus_one_counts = refl

decrement_below_zero : decremented 0 ≡ minus_one_tagged
unfolding decremented
decrement_below_zero = refl

-- another thread increments before the first exchange
abbrev contended : List Attempt
contended = record { others = increment_ref_count_relaxed; spurious = false } ∷ []

abbrev calm : Attempt
calm = record { others = λ m. m; spurious = false }

-- The greatest count
abbrev greatest : TaggedCounter
greatest = 2 ^ 63 - 2

words_refine_example :
    (cell (increment_ref_count_relaxed greatest)
      ≡ record { count = negsuc (2 ^ 62 - 1); tag = tag greatest })
    × (cell (decremented greatest) ≡ Cell.decrement (cell greatest))
    × (let (old, kept) = fetch_and_clear_tag_acquire greatest in
        (old ≡ greatest) × (cell kept ≡ Cell.clear_tag (cell greatest)))
words_refine_example = words_refine greatest (omega arith)

contended_run : decrement_ref_count_and_set_tag_release (contended ++ calm ∷ []) 2 ≡ some 3
unfolding decrement_ref_count_and_set_tag_release exchange_loop increment_ref_count_relaxed
    decremented
contended_run = refl

decrement_atomic_example :
    (k : ℕ) × (k < length (contended ++ calm ∷ []))
    × (3 ≡ decremented (disturbed (suc k) (contended ++ calm ∷ []) 2))
decrement_atomic_example = decrement_atomic (contended ++ calm ∷ []) 2 contended_run

decrement_ends_example :
    (result : TaggedCounter) × (decrement_ref_count_and_set_tag_release (contended ++ calm ∷ []) 2
      ≡ some result)
decrement_ends_example = decrement_ends contended [] calm 2 (λ m. refl) refl
