-- ===== src/ShardedAlloc/Maintained.antt =====
-- What the collector's maintenance in src/sharded_alloc.rs keeps and brings about, and what the
-- report of the slots adds up to.
use sdarc.Prelude.{
  ℕ, suc, ◌+◌, ◌≡◌, refl, ap, inl, inr, Bool-cases, List, [], ◌∷◌, arith, length, ltb,
  if◌then◌else◌,
}
use sdarc.Outcome.{done}
use sdarc.ShardedAlloc.{AllocUnit, AllocUnitGroup, count_flags}
use sdarc.ShardedAlloc.Usage.{any_flag-counts}
use sdarc.ShardedAlloc.Groups.{
  AllUnits, AllBelow, IsValidGroup, used_slots, group_of, AllBelow-weaken,
}
use sdarc.ShardedAlloc.Maintenance.{retain_used, indexes_from, do_maintenance}

-- The units with a used slot, in their order
abbrev pub used_units : List AllocUnit → List AllocUnit
used_units [] = []
used_units (unit ∷ units) =
    if ltb 0 (count_flags 1 unit.usage_flags) then unit ∷ used_units units else used_units units

-- The indexes, from `i` on, of the units with a free slot
abbrev pub free_indexes : ℕ → List AllocUnit → List ℕ
free_indexes i [] = []
free_indexes i (unit ∷ units) =
    if ltb 0 (count_flags 0 unit.usage_flags)
    then i ∷ free_indexes (suc i) units
    else free_indexes (suc i) units

retain_used-eq :
    (units : List AllocUnit) → AllUnits units → retain_used units ≡ done (used_units units)
unfolding retain_used
retain_used-eq [] v = refl
retain_used-eq (unit ∷ units) v = elim (Bool-cases (ltb 0 (count_flags 1 unit.usage_flags))) [
  | inl used ↦
      rw (any_flag-counts 1 unit.usage_flags v.0.flags_valid, used, retain_used-eq units v.1) refl
  | inr unused ↦
      rw (any_flag-counts 1 unit.usage_flags v.0.flags_valid, unused, retain_used-eq units v.1) refl
]

indexes_from-eq :
    (i : ℕ) (units : List AllocUnit)
    → AllUnits units
    → indexes_from i units ≡ done (free_indexes i units)
unfolding indexes_from
indexes_from-eq i [] v = refl
indexes_from-eq i (unit ∷ units) v =
    rw (any_flag-counts 0 unit.usage_flags v.0.flags_valid, indexes_from-eq (suc i) units v.1) refl

used_units-AllUnits : (units : List AllocUnit) → AllUnits units → AllUnits (used_units units)
used_units-AllUnits [] v = tt
used_units-AllUnits (unit ∷ units) v = elim (Bool-cases (ltb 0 (count_flags 1 unit.usage_flags))) [
  | inl used ↦ rw used (v.0, used_units-AllUnits units v.1)
  | inr unused ↦ rw unused (used_units-AllUnits units v.1)
]

pub used_units-used_slots :
    (units : List AllocUnit) → used_slots (used_units units) ≡ used_slots units
unfolding used_slots
used_units-used_slots [] = refl
used_units-used_slots (unit ∷ units) = elim (Bool-cases (ltb 0 (count_flags 1 unit.usage_flags))) [
  | inl used ↦ rw used (ap (λ x. count_flags 1 unit.usage_flags + x) (used_units-used_slots units))
  | inr unused ↦
      let no_slot : count_flags 1 unit.usage_flags ≡ 0 = ground arith in
      rw (unused, no_slot) (omega (arith, used_units-used_slots units))
]

free_indexes_below :
    (i : ℕ) (units : List AllocUnit) → AllBelow (i + length units) (free_indexes i units)
free_indexes_below i [] = tt
free_indexes_below i (unit ∷ units) =
    let later : AllBelow (i + suc (length units)) (free_indexes (suc i) units) =
      AllBelow-weaken (suc i + length units) _ _ (omega arith) (free_indexes_below (suc i) units) in
    elim (Bool-cases (ltb 0 (count_flags 0 unit.usage_flags))) [
      | inl free ↦ rw free (omega arith, later)
      | inr not_free ↦ rw not_free later
    ]

-- On a group of valid units, maintenance does not panic. It keeps exactly the units with a used
-- slot, in their order, so as many slots are used as before; the indexes to check are then those
-- of all units with a free slot, and the group is well formed.
pub do_maintenance-eq :
    (group : AllocUnitGroup)
    → AllUnits group.all_units
    → let units = used_units group.all_units in
      let after = group_of units (free_indexes 0 units) in
      (do_maintenance group ≡ done after)
      × IsValidGroup after
      × (used_slots units ≡ used_slots group.all_units)
unfolding do_maintenance
do_maintenance-eq group v =
    let units = used_units group.all_units in
    let valid = used_units-AllUnits group.all_units v in
    (
      rw (retain_used-eq group.all_units v, indexes_from-eq 0 units valid) refl,
      record {
        units_valid = valid;
        indexes_valid = AllBelow-weaken _ _ _ (omega arith) (free_indexes_below 0 units);
      },
      used_units-used_slots group.all_units,
    )
