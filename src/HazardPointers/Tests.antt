-- ===== src/HazardPointers/Tests.antt =====
-- The hazard pointers of src/atomic_sdarc.rs at concrete inputs.
use sdarc.Prelude.{ℕ, ◌≡◌, refl, List, [], ◌∷◌, some}
use sdarc.Outcome.{Outcome, done, panic, Returns}
use sdarc.HazardPointers.{
  publish_from, try_publish_maybe_dangling_hazard_pointer, try_borrow, ok, err, slot_full,
}
use sdarc.HazardPointers.Slots.{Borrows, try_borrow-Borrows}
use sdarc.HazardPointers.Registry.{
  Access, begin, look, release, write_slots, Registry, Claim, holding, nothing, access, accesses,
  empty_registry,
}
use sdarc.HazardPointers.Registry.Changes.{IsRegistry}
use sdarc.HazardPointers.Registry.Exclusive.{accesses-IsRegistry}

-- Two slots are taken.
abbrev two_taken : List ℕ
two_taken = 40 ∷ 48 ∷ 0 ∷ 0 ∷ []

second_load_agrees :
    try_borrow 56 56 two_taken
    ≡ (ok (some (record { hazard_slot_index = 2; loaded_ptr = 56 })), 40 ∷ 48 ∷ 56 ∷ 0 ∷ [])
unfolding try_borrow try_publish_maybe_dangling_hazard_pointer publish_from
second_load_agrees = refl

no_slot_free : try_borrow 56 56 (40 ∷ 48 ∷ []) ≡ (err slot_full, 40 ∷ 48 ∷ [])
unfolding try_borrow try_publish_maybe_dangling_hazard_pointer publish_from
no_slot_free = refl

try_borrow-Borrows_example : Borrows 56 56 two_taken (try_borrow 56 56 two_taken)
try_borrow-Borrows_example = try_borrow-Borrows 56 56 two_taken

-- Threads 1 and 2 look at the registry at the same time; thread 1 gives its entry back, and thread 3
-- gets it.
abbrev two_threads : List Access
two_threads =
    begin 1
    ∷ begin 2
    ∷ look 1
    ∷ look 2
    ∷ write_slots 1 (40 ∷ [])
    ∷ write_slots 1 (0 ∷ [])
    ∷ release 1
    ∷ begin 3
    ∷ look 3
    ∷ []

abbrev holder : ℕ → Outcome Registry → Claim
holder t (done r) = r.thread t
holder t panic = nothing

third_thread : holder 3 (accesses two_threads empty_registry) ≡ holding 0
unfolding accesses access
third_thread = refl

accesses-IsRegistry_example : Returns IsRegistry (accesses two_threads empty_registry)
accesses-IsRegistry_example = accesses-IsRegistry two_threads
