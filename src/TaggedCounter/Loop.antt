-- ===== src/TaggedCounter/Loop.antt =====
-- The compare-exchange loop of `decrement_ref_count_and_set_tag_release` against one atomic step.
use sdarc.Prelude.{
  ℕ, zero, suc, ◌<◌, ◌≡◌, refl, false, List, [], ◌∷◌, ◌++◌, some, arith, length, ◌==◌, ==_iff,
  Bool-cases, inl, inr, ◌&&◌, not,
}
use sdarc.TaggedCounter.{
  TaggedCounter, Attempt, exchange_loop, decremented, decrement_ref_count_and_set_tag_release,
}

-- the word after what the others do before the first `k` exchanges
abbrev pub disturbed : ℕ → List Attempt → TaggedCounter → TaggedCounter
disturbed zero attempts memory = memory
disturbed (suc k) [] memory = memory
disturbed (suc k) (a ∷ rest) memory = disturbed k rest (a.others memory)

exchange_loop_atomic :
    (attempts : List Attempt) (memory : TaggedCounter) {result : TaggedCounter}
    → exchange_loop attempts memory memory ≡ some result
    → (k : ℕ) × (k < length attempts) × (result ≡ decremented (disturbed (suc k) attempts memory))
unfolding exchange_loop
exchange_loop_atomic [] memory h = cc
exchange_loop_atomic (a ∷ rest) memory h =
    elim (Bool-cases (memory == a.others memory && not a.spurious)) [
      | inl now ↦ (0, omega arith, ground arith)
      | inr again ↦
          let (k, below, e) = exchange_loop_atomic rest (a.others memory) (rw again at h) in
          (suc k, omega arith, e)
    ]

-- When the loop ends, it has made one decrement, of the word as the other threads left it before
-- one of its exchanges, however often it failed before.
pub decrement_atomic :
    (attempts : List Attempt) (memory : TaggedCounter) {result : TaggedCounter}
    → decrement_ref_count_and_set_tag_release attempts memory ≡ some result
    → (k : ℕ) × (k < length attempts) × (result ≡ decremented (disturbed (suc k) attempts memory))
unfolding decrement_ref_count_and_set_tag_release
decrement_atomic = exchange_loop_atomic

-- The loop ends as soon as an exchange does not fail spuriously and no other thread changes the
-- word just before it, whatever happened before.
pub decrement_ends :
    (before after : List Attempt) (calm : Attempt) (memory : TaggedCounter)
    → ((m : TaggedCounter) → calm.others m ≡ m)
    → calm.spurious ≡ false
    → (result : TaggedCounter) × (decrement_ref_count_and_set_tag_release
          (before ++ calm ∷ after)
          memory
        ≡ some result)
unfolding decrement_ref_count_and_set_tag_release exchange_loop
decrement_ends [] after calm memory keeps fair =
    (decremented memory, rw (keeps memory, fair, (==_iff memory memory).1 refl))
decrement_ends (a ∷ before) after calm memory keeps fair =
    elim (Bool-cases (memory == a.others memory && not a.spurious)) [
      | inl now ↦ (decremented memory, rw now)
      | inr again ↦ rw again (decrement_ends before after calm (a.others memory) keeps fair)
    ]
