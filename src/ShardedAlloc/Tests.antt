-- ===== src/ShardedAlloc/Tests.antt =====
-- Runs of the definitions for src/sharded_alloc.rs, and its theorems at concrete inputs.
use sdarc.Prelude.{
  ℕ, zero, suc, ◌≡◌, ◌+◌, ◌*◌, ◌≤◌, ◌⊎◌, inl, inr, refl, arith, [], ◌∷◌, Option, none, some, false,
  set, replicate,
}
use sdarc.Outcome.{done}
use sdarc.ShardedAlloc.{
  AllocUnit, AllocUnitGroup, Memory, Attempted, GroupResult, slot_count_per_unit, ptr_at_shard,
  data_len_in_bytes, with_flags, count_flags, take_free, allocate_without_initializing,
  deallocate_without_dropping, allocate_and_initialize, allocate_loop,
}
use sdarc.ShardedAlloc.Address.{slot_ptr, ptr_at_shard_bounds, ptr_at_shard_injective}
use sdarc.ShardedAlloc.Usage.{
  AllValid, IsValidUnit, IsFirstFree, allocate_without_initializing-IsFirstFree,
  deallocate-allocate,
}
use sdarc.ShardedAlloc.Unwind.{Settled, allocate_and_initialize-Settled}
use sdarc.ShardedAlloc.Groups.{AllUnits, IsValidGroup, used_slots, group_of}
use sdarc.ShardedAlloc.Allocate.{Served, fresh_unit, allocate_loop-Served}
use sdarc.ShardedAlloc.Maintenance.{
  FullShardAlloc, do_maintenance, do_maintenance_by_collector, empty_group,
}
use sdarc.ShardedAlloc.Maintained.{used_units, free_indexes, do_maintenance-eq}
use sdarc.ShardedAlloc.Report.{
  Lends, total_used, all_maintained, all_taken, do_maintenance_by_collector-used,
}

-- slots 0 and 2 used
abbrev unit_a : AllocUnit
unit_a = record { data_ptr = 1000; usage_flags = 1 ∷ 0 ∷ 1 ∷ replicate 13 0 }

-- nothing free
abbrev unit_b : AllocUnit
unit_b = record { data_ptr = 2000; usage_flags = replicate 16 1 }

zeros-AllValid : (n : ℕ) → AllValid (replicate n 0)
zeros-AllValid zero = tt
zeros-AllValid (suc n) = (inl refl, zeros-AllValid n)

ones-AllValid : (n : ℕ) → AllValid (replicate n 1)
ones-AllValid zero = tt
ones-AllValid (suc n) = (inr refl, ones-AllValid n)

unit_a-IsValid : IsValidUnit unit_a
unit_a-IsValid = record {
  flag_count = refl;
  flags_valid = (inr refl, (inl refl, (inr refl, zeros-AllValid 13)));
}

unit_b-IsValid : IsValidUnit unit_b
unit_b-IsValid = record { flag_count = refl; flags_valid = ones-AllValid 16 }

abbrev empty_memory : Memory ℕ
empty_memory a = none

-- `init_func` panics at shard 2.
abbrev panics_at_two : ℕ → Option ℕ
panics_at_two zero = some 0
panics_at_two (suc zero) = some 1
panics_at_two _ = none

unit_a_gives_slot_1 :
    allocate_without_initializing unit_a
    ≡ done (some (record { base_ptr = 1001 }), with_flags unit_a (set unit_a.usage_flags 1 1))
unfolding allocate_without_initializing take_free
unit_a_gives_slot_1 = refl

ptr_at_shard_bounds_example :
    (1000 + slot_count_per_unit ≤ ptr_at_shard (slot_ptr 1000 15) 3)
    × (8 * suc (ptr_at_shard (slot_ptr 1000 15) 3) ≤ 8 * 1000 + data_len_in_bytes 4)
ptr_at_shard_bounds_example = ptr_at_shard_bounds 1000 15 3 4 (omega arith) (omega arith)

abbrev three : ℕ
three = 3

abbrev two : ℕ
two = 2

ptr_at_shard_injective_example : (three ≡ three) × (two ≡ two)
ptr_at_shard_injective_example =
    ptr_at_shard_injective 1000 three three two two (omega arith) (omega arith) refl

allocate_without_initializing-IsFirstFree_example :
    ((i : ℕ) × IsFirstFree i unit_a.usage_flags
      × (allocate_without_initializing unit_a
          ≡ done (
            some (record { base_ptr = 1000 + i }),
            with_flags unit_a (set unit_a.usage_flags i 1),
          )))
    ⊎ ((allocate_without_initializing unit_a ≡ done (none, unit_a))
        × (count_flags 0 unit_a.usage_flags ≡ 0))
allocate_without_initializing-IsFirstFree_example =
    allocate_without_initializing-IsFirstFree unit_a unit_a-IsValid

deallocate-allocate_example :
    deallocate_without_dropping
      (record { base_ptr = 1001 })
      (with_flags unit_a (set unit_a.usage_flags 1 1))
    ≡ done unit_a
deallocate-allocate_example = deallocate-allocate unit_a unit_a-IsValid unit_a_gives_slot_1

allocate_and_initialize-Settled_example :
    (a : Attempted ℕ) × (allocate_and_initialize 4 panics_at_two unit_a empty_memory ≡ done a)
    × Settled 4 panics_at_two unit_a empty_memory a
allocate_and_initialize-Settled_example =
    allocate_and_initialize-Settled 4 panics_at_two unit_a empty_memory unit_a-IsValid
      (λ i k e. refl)

allocate_loop-Served_example :
    (r : GroupResult ℕ) × (allocate_loop 4
        (λ k. some k)
        3
        (some 3000)
        (group_of (unit_b ∷ unit_a ∷ []) (0 ∷ 1 ∷ []))
        empty_memory
      ≡ some (done r))
    × Served (unit_b ∷ unit_a ∷ []) empty_memory r
allocate_loop-Served_example =
    allocate_loop-Served (unit_b ∷ unit_a ∷ []) empty_memory 4 (λ k. some k) 3000 3 (0 ∷ 1 ∷ [])
      (omega arith) (unit_b-IsValid, (unit_a-IsValid, tt)) (omega arith, (omega arith, tt))
      (λ i unit e j k free. refl) (λ j k free. refl)

abbrev two_units : AllocUnitGroup
two_units = group_of (unit_b ∷ fresh_unit 3000 ∷ unit_a ∷ []) []

fresh-IsValid : IsValidUnit (fresh_unit 3000)
fresh-IsValid = record { flag_count = refl; flags_valid = zeros-AllValid 16 }

two_units-AllUnits : AllUnits two_units.all_units
two_units-AllUnits = (unit_b-IsValid, (fresh-IsValid, (unit_a-IsValid, tt)))

do_maintenance-eq_example :
    let units = used_units two_units.all_units in
    let after = group_of units (free_indexes 0 units) in
    (do_maintenance two_units ≡ done after)
    × IsValidGroup after
    × (used_slots units ≡ used_slots two_units.all_units)
do_maintenance-eq_example = do_maintenance-eq two_units two_units-AllUnits

abbrev full_alloc : FullShardAlloc
full_alloc = record {
  groups = two_units ∷ empty_group ∷ [];
  temp_filling_group = group_of (unit_a ∷ []) (0 ∷ []);
}

abbrev nothing : ℕ → AllocUnitGroup → AllocUnitGroup
nothing k group = group

nothing-Lends : Lends nothing (λ k. 0)
nothing-Lends = record { keeps_valid = λ k group v. v; takes = λ k group v. omega arith }

do_maintenance_by_collector-used_example :
    (full' : FullShardAlloc) × (do_maintenance_by_collector nothing false full_alloc ≡ done full')
    × (full'.groups ≡ all_maintained full_alloc.groups)
    × (total_used full'.groups + used_slots full'.temp_filling_group.all_units
        ≡ total_used full_alloc.groups + used_slots (unit_a ∷ []) + all_taken nothing (λ k. 0) 2 0)
do_maintenance_by_collector-used_example =
    do_maintenance_by_collector-used nothing (λ k. 0) full_alloc nothing-Lends
      (two_units-AllUnits, (tt, tt)) (unit_a-IsValid, tt)
