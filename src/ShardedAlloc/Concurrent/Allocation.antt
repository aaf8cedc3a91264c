-- ===== src/ShardedAlloc/Concurrent/Allocation.antt =====
-- `AllocUnitGroup::allocate` of src/sharded_alloc.rs while other threads use the flags. What
-- `init_func` writes goes into the words of its own slot, so only whether it panics is of interest.
use sdarc.Prelude.{
  ℕ, zero, suc, ◌+◌, ◌-◌, Bool, true, false, List, [], ◌∷◌, ◌++◌, Option, none, some, length,
  get_elem?,
}
use sdarc.Outcome.{Outcome, done, panic, ◌>>=◌, and_then}
use sdarc.ShardedAlloc.{slot_count_per_unit, swap_remove_first}
use sdarc.ShardedAlloc.Concurrent.{
  Flags, Run, Group, with_value, release, tick, take_free_at, drop_unit_at,
}

-- The loop of `AllocUnit::new` that clears the flags from slot `i` on
unfoldable pub clear_flags : ℕ → ℕ → ℕ → Flags → Flags
clear_flags zero i data_ptr s = s
clear_flags (suc rest) i data_ptr s =
    clear_flags rest (suc i) data_ptr (with_value (data_ptr + i) 0 s)

-- `AllocUnit::new`, from the answer of the global allocator
unfoldable pub new_unit_at : Option ℕ → Run → Outcome (ℕ × Run)
new_unit_at none r = panic
new_unit_at (some ptr) r =
    done (ptr, record r { flags = clear_flags slot_count_per_unit 0 ptr r.flags })

-- How an attempt on a unit ends: its slots are all in use, or it has the slot at an address, or
-- `init_func` has panicked.
pub data Tried : Type 0 where
  full : Tried
  allocated : (address : ℕ) → Tried
  unwound : Tried

-- With the unwind guard, which releases the slot; does `init_func` panic?
unfoldable pub initialize_at : Bool → Option ℕ × Run → Outcome (Tried × Run)
initialize_at init_panics (none, r) = done (full, r)
initialize_at false (some a, r) = done (allocated a, r)
initialize_at true (some a, r) =
    tick r >>= λ r. release a r.flags >>= λ s. done (unwound, record r { flags = s })

module _ (init_panics : Bool) where
  abbrev pub allocate_and_initialize_at : ℕ → Run → Outcome (Tried × Run)
  allocate_and_initialize_at data_ptr r =
      take_free_at slot_count_per_unit 0 data_ptr r >>= initialize_at init_panics

  -- The branch that makes a new unit; unwinding drops it. `none` is the panic of `init_func`.
  unfoldable pub push_new_unit_at : Group → ℕ → Tried × Run → Outcome (Option ℕ × Group × Run)
  push_new_unit_at group unit (full, r) = panic
  push_new_unit_at group unit (allocated a, r) = done (
    some a,
    record {
      all_units = group.all_units ++ unit ∷ [];
      indexes = group.indexes ++ (length (group.all_units ++ unit ∷ []) - 1) ∷ [];
    },
    r,
  )
  push_new_unit_at group unit (unwound, r) = drop_unit_at unit r >>= λ r. done (none, group, r)

  unfoldable pub allocate_in_new_unit_at : Option ℕ → Group → Run → Outcome (Option ℕ × Group × Run)
  allocate_in_new_unit_at new_ptr group r = new_unit_at new_ptr r >>= λ n.
      allocate_and_initialize_at n.0 n.1 >>= push_new_unit_at group n.0

  module _ (loop : Group → Run → Option (Outcome (Option ℕ × Group × Run))) where
    unfoldable pub turn_ends_at :
        Group → ℕ → List ℕ → Tried × Run → Option (Outcome (Option ℕ × Group × Run))
    turn_ends_at group i rest (full, r) =
        loop (record group { indexes = swap_remove_first i rest }) r
    turn_ends_at group i rest (allocated a, r) = some (done (some a, group, r))
    turn_ends_at group i rest (unwound, r) = some (done (none, group, r))

    -- One turn, on the indexes to check
    unfoldable pub turn_at :
        Option ℕ → Group → List ℕ → Run → Option (Outcome (Option ℕ × Group × Run))
    turn_at new_ptr group [] r = some (allocate_in_new_unit_at new_ptr group r)
    turn_at new_ptr group (i ∷ rest) r = elim (get_elem? group.all_units i) [
      | none ↦ some panic
      | some unit ↦ and_then (some (allocate_and_initialize_at unit r)) (turn_ends_at group i rest)
    ]

  -- `AllocUnitGroup::allocate`: the turns, on fuel
  unfoldable pub allocate_at :
      ℕ → Option ℕ → Group → Run → Option (Outcome (Option ℕ × Group × Run))
  allocate_at zero new_ptr group r = none
  allocate_at (suc fuel) new_ptr group r =
      turn_at (allocate_at fuel new_ptr) new_ptr group group.indexes r
