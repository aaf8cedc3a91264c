-- ===== src/ShardedAlloc/Allocate.antt =====
-- `AllocUnitGroup::allocate` of src/sharded_alloc.rs: its loop ends, and what it leaves.
use sdarc.Prelude.{
  ℕ, zero, suc, ◌+◌, ◌<◌, ◌≡◌, refl, sym, ap, ◌∙◌, ◌⊎◌, inl, inr, List, [], ◌∷◌, ◌++◌, Option, some,
  arith, length, length-append, length-set, get_elem?, set, replicate,
}
use mathlib.Core.Path.{subst}
use sdarc.Outcome.{done}
use sdarc.ShardedAlloc.{
  AllocUnit, Memory, Attempted, full, allocated, unwound, GroupResult, allocated_in, unwound_in,
  returns, again, count_flags, any_flag, with_flags, swap_remove_first, turn_ends, allocate_turn,
  allocate_loop, slot_count_per_unit, push_new_unit, allocate_in_new_unit, new_unit,
}
use sdarc.ShardedAlloc.Usage.{AllValid, IsValidUnit, set-AllValid, count_flags-taken}
use sdarc.ShardedAlloc.Unwind.{FreeSlotsEmpty, Settled, allocate_and_initialize-Settled}
use sdarc.ShardedAlloc.Groups.{
  AllUnits, AllBelow, IsValidGroup, used_slots, group_of, unit_at, set_same, AllUnits-set,
  used_slots-set, AllUnits-append, used_slots-append, swap_remove_first_below,
  length-swap_remove_first,
}

abbrev pub fresh_unit : ℕ → AllocUnit
fresh_unit d = record { data_ptr = d; usage_flags = replicate slot_count_per_unit 0 }

replicate-AllValid : (n : ℕ) → AllValid (replicate n 0)
replicate-AllValid zero = tt
replicate-AllValid (suc n) = (inl refl, replicate-AllValid n)

fresh_unit-IsValid : (d : ℕ) → IsValidUnit (fresh_unit d)
fresh_unit-IsValid d = record {
  flag_count = refl;
  flags_valid = replicate-AllValid slot_count_per_unit;
}

taken-IsValid :
    (unit : AllocUnit) (i : ℕ)
    → IsValidUnit unit
    → IsValidUnit (with_flags unit (set unit.usage_flags i 1))
taken-IsValid unit i v = record {
  flag_count = length-set unit.usage_flags i 1 ∙ v.flag_count;
  flags_valid = set-AllValid unit.usage_flags i 1 (inr refl) v.flags_valid;
}

module _ {V : Type 0} where
  -- No word of a free slot of any of the units has a live value.
  abbrev pub UnitsEmpty : List AllocUnit → Memory V → Type 0
  UnitsEmpty units memory =
      (i : ℕ) (unit : AllocUnit) → get_elem? units i ≡ some unit → FreeSlotsEmpty unit memory

  module _ (units : List AllocUnit) (memory : Memory V) where
    -- Either one more slot is used, or `init_func` has panicked and no more slots are used and
    -- every word is as before. The group is well formed in both cases.
    abbrev pub Served : GroupResult V → Type 0
    Served (allocated_in ptr group memory') =
        IsValidGroup group × (used_slots group.all_units ≡ suc (used_slots units))
    Served (unwound_in group memory') =
        IsValidGroup group
        × (used_slots group.all_units ≡ used_slots units)
        × ((a : ℕ) → memory' a ≡ memory a)

    module _ (n : ℕ) (init_func : ℕ → Option V) where
      turn_ends-Served :
          (i : ℕ) (rest : List ℕ) (unit : AllocUnit) (a : Attempted V)
          → AllUnits units
          → AllBelow (length units) (i ∷ rest)
          → get_elem? units i ≡ some unit
          → IsValidUnit unit
          → Settled n init_func unit memory a
          → (turn_ends n init_func (group_of units (i ∷ rest)) i rest a
              ≡ again (group_of units (swap_remove_first i rest)) memory)
            ⊎ ((r : GroupResult V) × (turn_ends n init_func (group_of units (i ∷ rest)) i rest a
                  ≡ returns r)
                × Served r)
      unfolding turn_ends
      turn_ends-Served i rest unit (full unit' memory') v below at ok (_, same, kept) =
          inl (rw (same, kept, set_same units i unit at) refl)
      turn_ends-Served i rest unit (allocated ptr unit' memory') v below at ok
            (slot, first, _, unit_is, _, _) =
          inr (
            _,
            refl,
            (
              record {
                units_valid =
                    AllUnits-set units i unit' (rw unit_is (taken-IsValid unit slot ok)) v;
                indexes_valid =
                    subst (λ m. AllBelow m (i ∷ rest)) (sym (length-set units i unit')) below;
              },
              used_slots-set units i unit unit' at
                  (rw unit_is (count_flags-taken unit.usage_flags slot first.free)),
            ),
          )
      turn_ends-Served i rest unit (unwound unit' memory') v below at ok (same, kept) =
          let whole : set units i unit' ≡ units = rw same (set_same units i unit at) in
          inr (
            _,
            refl,
            (
              record {
                units_valid = rw whole v;
                indexes_valid = subst (λ us. AllBelow (length us) (i ∷ rest)) (sym whole) below;
              },
              ap used_slots whole,
              kept,
            ),
          )

      push_new_unit-Served :
          (d : ℕ) (a : Attempted V)
          → AllUnits units
          → Settled n init_func (fresh_unit d) memory a
          → (r : GroupResult V) × (push_new_unit n init_func (group_of units []) a ≡ done r)
            × Served r
      unfolding push_new_unit any_flag count_flags
      push_new_unit-Served d (full unit' memory') v (none_free, _, _) = absurd (omega arith)
      push_new_unit-Served d (allocated ptr unit' memory') v (slot, first, _, unit_is, _, _) =
          let longer : length (units ++ unit' ∷ []) ≡ length units + 1 = length-append units _ in
          (
            _,
            refl,
            (
              record {
                units_valid =
                    AllUnits-append units unit'
                      (rw unit_is (taken-IsValid (fresh_unit d) slot (fresh_unit-IsValid d))) v;
                indexes_valid = (omega arith, tt);
              },
              let one : count_flags 1 unit'.usage_flags
                      ≡ suc (count_flags 1 (fresh_unit d).usage_flags) =
                    rw unit_is (count_flags-taken (fresh_unit d).usage_flags slot first.free) in
                  omega (arith, used_slots-append units unit'),
            ),
          )
      push_new_unit-Served d (unwound unit' memory') v (same, kept) = (
        unwound_in (group_of units []) memory',
        rw same refl,
        (record { units_valid = v; indexes_valid = tt }, refl, kept),
      )

      -- Take a well-formed group, no free slot of which has a live value, and a global allocator
      -- that gives new memory without live values. Then the loop ends after at most one turn more
      -- than there are indexes to check, without a failed assertion, and its result is served as
      -- above.
      pub allocate_loop-Served :
          (d fuel : ℕ) (indexes : List ℕ)
          → length indexes < fuel
          → AllUnits units
          → AllBelow (length units) indexes
          → UnitsEmpty units memory
          → FreeSlotsEmpty (fresh_unit d) memory
          → (r : GroupResult V) × (allocate_loop n init_func fuel
                (some d)
                (group_of units indexes)
                memory
              ≡ some (done r))
            × Served r
      unfolding allocate_loop allocate_turn allocate_in_new_unit new_unit
      allocate_loop-Served d zero indexes enough v below clean clean_new = absurd (omega arith)
      allocate_loop-Served d (suc fuel) [] enough v below clean clean_new =
          let (a, e, settled) =
            allocate_and_initialize-Settled n init_func (fresh_unit d) memory (fresh_unit-IsValid d)
              clean_new in
          let (r, e', served) = push_new_unit-Served d a v settled in (r, rw (e, e') refl, served)
      allocate_loop-Served d (suc fuel) (i ∷ rest) enough v below clean clean_new =
          let (unit, at, ok) = unit_at units i v below.0 in
          let (a, e, settled) =
            allocate_and_initialize-Settled n init_func unit memory ok (clean i unit at) in
          elim (turn_ends-Served i rest unit a v below at ok settled) [
            | inl onward ↦
                let (r, e', served) =
                  allocate_loop-Served d fuel (swap_remove_first i rest)
                    (omega (arith, length-swap_remove_first i rest)) v
                    (swap_remove_first_below (length units) i rest below.1) clean clean_new in
                (r, rw (at, e, onward) e', served)
            | inr (r, ends, served) ↦ (r, rw (at, e, ends) refl, served)
          ]
