-- ===== src/ShardedAlloc/Concurrent/Tests.antt =====
-- Runs of the definitions for src/sharded_alloc.rs with other threads, and the theorems at inputs.
use sdarc.Prelude.{
  ℕ, ◌≡◌, refl, inl, inr, Bool, false, ◌&&◌, ◌||◌, Bool-cases, List, [], ◌∷◌, Option, none, some,
  ltb, leb, if◌then◌else◌, arith,
}
use sdarc.Outcome.{Outcome, done, Gives}
use sdarc.ShardedAlloc.Concurrent.{
  takes, gives_back, Flags, Run, Group, do_maintenance_at, take_free_at, tick_by, accesses,
  flag_access, other_takes, other_gives_back, release, any_flag_at, retain_used_at, indexes_at,
}
use sdarc.ShardedAlloc.Concurrent.Allocation.{
  allocate_at, turn_at, turn_ends_at, initialize_at, allocate_in_new_unit_at, new_unit_at,
  clear_flags, push_new_unit_at,
}
use sdarc.ShardedAlloc.Concurrent.Agreed.{Agreed}
use sdarc.ShardedAlloc.Concurrent.Scans.{Covers}
use sdarc.ShardedAlloc.Concurrent.Kept.{In}
use sdarc.ShardedAlloc.Concurrent.Maintained.{IsMaintained, do_maintenance_at-IsMaintained}
use sdarc.ShardedAlloc.Concurrent.NewUnit.{Served}
use sdarc.ShardedAlloc.Concurrent.Exclusive.{allocate_at-Served}

-- One unit at 1000, of which the others have every slot
abbrev in_unit : ℕ → Bool
in_unit a = leb 1000 a && ltb a 1016

abbrev nobody : ℕ → Bool
nobody a = false

abbrev all_used : Flags
all_used = record {
  value = λ a. if in_unit a then 1 else 0;
  others = λ a. if in_unit a then 1 else 0;
}

all_used-Agreed : Agreed in_unit nobody all_used
all_used-Agreed = record {
  single = λ a. elim (Bool-cases (in_unit a)) [
    | inl inside ↦ inr (rw inside (refl, refl, refl))
    | inr outside ↦ inl (rw outside refl)
  ];
  held = λ a h. cc;
  free = λ a m o z. absurd (ground (arith, m, z));
}

abbrev one_unit : Group
one_unit = record { all_units = 1000 ∷ []; indexes = 0 ∷ [] }

one_unit-Covers : (d : ℕ) → In d (1000 ∷ []) → Covers in_unit d
one_unit-Covers d (inl e) j lt = rw e (ground (arith, lt))
one_unit-Covers d (inr m) j lt = absurd m

-- The others take slot 3 back and forth while the scan goes on.
abbrev released_and_taken : Run
released_and_taken = record {
  flags = all_used;
  future =
      (gives_back 1003 ∷ [])
      ∷ (takes 1003 ∷ gives_back 1001 ∷ takes 1001 ∷ [])
      ∷ (gives_back 1002 ∷ [])
      ∷ [];
}

abbrev address_of : Option (Outcome (Option ℕ × Group × Run)) → Option ℕ
address_of (some (done (a, group, r))) = a
address_of _ = none

-- It gets slot 2, which is released just in time.
allocates_slot_two :
    address_of (allocate_at false 2 (some 2000) one_unit released_and_taken) ≡ some 1002
unfolding allocate_at turn_at turn_ends_at initialize_at take_free_at tick_by accesses flag_access
    other_takes other_gives_back release
allocates_slot_two = refl

-- With nothing released, it needs a new unit.
allocates_in_new_unit :
    address_of (allocate_at false 2 (some 2000) one_unit (record { flags = all_used; future = [] }))
    ≡ some 2000
unfolding allocate_at turn_at turn_ends_at initialize_at take_free_at tick_by
    allocate_in_new_unit_at new_unit_at clear_flags push_new_unit_at
allocates_in_new_unit = refl

allocate_at-Served_example :
    (x : Option ℕ × Group × Run) × (allocate_at false 2 (some 2000) one_unit released_and_taken
      ≡ some (done x))
    × Served in_unit nobody false x
allocate_at-Served_example =
    allocate_at-Served in_unit nobody false 2000 2 one_unit released_and_taken (omega arith)
      (record { covered = one_unit-Covers; indexes_valid = (omega arith, tt) }) all_used-Agreed
      ((tt, tt), ((λ j lt e. omega arith, (tt, (λ j lt e. omega arith, tt))), ((tt, tt), tt)))
      (λ j lt. ground (arith, lt))

-- With a vacant unit at 2000 before it
abbrev in_units : ℕ → Bool
in_units a = in_unit a || (leb 2000 a && ltb a 2016)

abbrev two_units : Group
two_units = record { all_units = 2000 ∷ 1000 ∷ []; indexes = [] }

two_units-Covers : (d : ℕ) → In d (2000 ∷ 1000 ∷ []) → Covers in_units d
two_units-Covers d (inl e) j lt = rw e (ground (arith, lt))
two_units-Covers d (inr (inl e)) j lt = rw e (ground (arith, lt))
two_units-Covers d (inr (inr m)) j lt = absurd m

two_units-Agreed : Agreed in_units nobody all_used
two_units-Agreed = record {
  single = all_used-Agreed.single;
  held = λ a h. cc;
  free = λ a m o z. elim (Bool-cases (in_unit a)) [
    | inl inside ↦ absurd (ground (arith, inside, z))
    | inr outside ↦ rw outside refl
  ];
}

abbrev released : Run
released = record { flags = all_used; future = [] ∷ (gives_back 1005 ∷ []) ∷ [] }

abbrev group_after : Outcome (Group × Run) → List ℕ × List ℕ
group_after (done (group, r)) = (group.all_units, group.indexes)
group_after _ = ([], [])

drops_the_vacant_unit : group_after (do_maintenance_at two_units released) ≡ (1000 ∷ [], 0 ∷ [])
unfolding do_maintenance_at retain_used_at indexes_at any_flag_at tick_by accesses flag_access
    other_gives_back release
drops_the_vacant_unit = refl

do_maintenance_at-IsMaintained_example :
    Gives (IsMaintained in_units nobody two_units all_used) (do_maintenance_at two_units released)
do_maintenance_at-IsMaintained_example =
    do_maintenance_at-IsMaintained in_units nobody two_units released two_units-Covers
      two_units-Agreed (tt, ((λ d m. tt, tt), tt))
