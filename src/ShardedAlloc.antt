-- ===== src/ShardedAlloc.antt =====
-- src/sharded_alloc.rs: units of 16 slots with a usage flag each, groups of units that look for a
-- free slot, and the allocator of all shards with its spare group. A lock's holder runs alone; with
-- other threads it is in `ShardedAlloc/Concurrent`.
pub mod Address
pub mod Usage
pub mod Unwind
pub mod Groups
pub mod Allocate
pub mod Maintenance
pub mod Maintained
pub mod Report
pub mod Concurrent
mod Tests
use sdarc.Prelude.{
  ℕ, zero, suc, ◌+◌, ◌-◌, ◌*◌, Bool, true, false, ◌||◌, not, List, [], ◌∷◌, ◌++◌, Option, none,
  some, ◌==◌, if◌then◌else◌, length, get_elem?, get_or, set, replicate,
}
use sdarc.Outcome.{Outcome, done, panic, ◌>>=◌, ◌>>◌, assert}

abbrev pub slot_count_per_unit : ℕ
slot_count_per_unit = 16

-- Addresses count words of 8 bytes. The flags stand in the first words of the data.
pub record AllocUnit : Type 0 where
  pub data_ptr : ℕ
  pub usage_flags : List ℕ

pub record ShardedDataPtr : Type 0 where
  pub base_ptr : ℕ

-- `AllocUnit::new`, from the answer of the global allocator; `none` is its null.
unfoldable pub new_unit : Option ℕ → Outcome AllocUnit
new_unit none = panic
new_unit (some ptr) =
    done (record { data_ptr = ptr; usage_flags = replicate slot_count_per_unit 0 })

-- `get_shard_count` is an argument.
abbrev pub data_len_in_bytes : ℕ → ℕ
data_len_in_bytes shard_count = slot_count_per_unit * (1 + shard_count) * 8

abbrev pub ptr_at_shard : ShardedDataPtr → ℕ → ℕ
ptr_at_shard ptr shard_index = ptr.base_ptr + slot_count_per_unit * (shard_index + 1)

abbrev pub assert_usage_flag_value_valid : ℕ → Outcome (Unit {0})
assert_usage_flag_value_valid value = assert (value == 0 || value == 1)

-- What a scan found in the later flags, counted from one flag further up.
abbrev pub further : Option ℕ × List ℕ → Outcome (Option ℕ × List ℕ)
further (none, flags) = done (none, 1 ∷ flags)
further (some i, flags) = done (some (suc i), 1 ∷ flags)

-- The loop of `allocate_without_initializing`: every flag that it looks at is set.
unfoldable pub take_free : List ℕ → Outcome (Option ℕ × List ℕ)
take_free [] = done (none, [])
take_free (flag ∷ flags) =
    let rest = take_free flags >>= further in
    assert_usage_flag_value_valid flag >> (if flag == 0 then done (some 0, 1 ∷ flags) else rest)

abbrev pub ptr_of_slot : AllocUnit → Option ℕ → Option ShardedDataPtr
ptr_of_slot unit none = none
ptr_of_slot unit (some i) = some (record { base_ptr = unit.data_ptr + i })

abbrev pub with_flags : AllocUnit → List ℕ → AllocUnit
with_flags unit flags = record { data_ptr = unit.data_ptr; usage_flags = flags }

unfoldable pub allocate_without_initializing :
    AllocUnit → Outcome (Option ShardedDataPtr × AllocUnit)
allocate_without_initializing unit =
    take_free unit.usage_flags >>= λ r. done (ptr_of_slot unit r.0, with_flags unit r.1)

-- `any` over the flags, which stops at the first that has the value
unfoldable pub any_flag : ℕ → List ℕ → Outcome Bool
any_flag value [] = done false
any_flag value (flag ∷ flags) =
    let rest = any_flag value flags in
    assert_usage_flag_value_valid flag >> (if flag == value then done true else rest)

abbrev pub is_any_slot_used : AllocUnit → Outcome Bool
is_any_slot_used unit = any_flag 1 unit.usage_flags

abbrev pub has_any_free_slot : AllocUnit → Outcome Bool
has_any_free_slot unit = any_flag 0 unit.usage_flags

unfoldable pub count_flags : ℕ → List ℕ → ℕ
count_flags value [] = 0
count_flags value (flag ∷ flags) = (if flag == value then 1 else 0) + count_flags value flags

abbrev pub get_unused_slot_count : AllocUnit → ℕ
get_unused_slot_count unit = count_flags 0 unit.usage_flags

-- `Drop for AllocUnit`
abbrev pub drop_unit : AllocUnit → Outcome (Unit {0})
drop_unit unit = is_any_slot_used unit >>= λ used. assert (not used)

-- `ShardedDataPtr::deallocate_without_dropping`, on the unit that the pointer points into
unfoldable pub deallocate_without_dropping : ShardedDataPtr → AllocUnit → Outcome AllocUnit
deallocate_without_dropping ptr unit =
    let slot = ptr.base_ptr - unit.data_ptr in
    assert (get_or unit.usage_flags slot 0 == 1)
    >> done (with_flags unit (set unit.usage_flags slot 0))

pub record AllocUnitGroup : Type 0 where
  pub all_units : List AllocUnit
  pub indexes_of_units_to_check_for_allocation : List ℕ

-- `swap_remove(0)`, of a vector with the head `x`
abbrev pub last_of : ℕ → List ℕ → ℕ
last_of x [] = x
last_of x (y ∷ ys) = last_of y ys

abbrev pub but_last : ℕ → List ℕ → List ℕ
but_last x [] = []
but_last x (y ∷ ys) = x ∷ but_last y ys

abbrev pub swap_remove_first : ℕ → List ℕ → List ℕ
swap_remove_first x [] = []
swap_remove_first x (y ∷ ys) = last_of y ys ∷ but_last y ys

-- What a `ShardedBox` keeps in the memory of the shards.
abbrev pub Memory : Type 0 → Type 0
Memory V = ℕ → Option V

-- How one attempt on a unit ends; `unwound` is the panic of `init_func` passed on.
pub data Attempted (V : Type 0) : Type 0 where
  full : (unit : AllocUnit) (memory : Memory V) → Attempted V
  allocated : (ptr : ShardedDataPtr) (unit : AllocUnit) (memory : Memory V) → Attempted V
  unwound : (unit : AllocUnit) (memory : Memory V) → Attempted V

pub data GroupResult (V : Type 0) : Type 0 where
  allocated_in : (ptr : ShardedDataPtr) (group : AllocUnitGroup) (memory : Memory V) → GroupResult V
  unwound_in : (group : AllocUnitGroup) (memory : Memory V) → GroupResult V

-- What one turn of the loop of `AllocUnitGroup::allocate` comes to.
pub data Turn (V : Type 0) : Type 0 where
  returns : GroupResult V → Turn V
  again : (group : AllocUnitGroup) (memory : Memory V) → Turn V

module _ {V : Type 0} where
  abbrev pub store : Memory V → ℕ → Option V → Memory V
  store memory address value a = if address == a then value else memory a

  -- `drop_in_place` at the shards from `k` on, `rest` of them
  unfoldable pub drop_from : ℕ → ℕ → ShardedDataPtr → Memory V → Memory V
  drop_from zero k ptr memory = memory
  drop_from (suc rest) k ptr memory =
      drop_from rest (suc k) ptr (store memory (ptr_at_shard ptr k) none)

  -- `Drop for ShardedBox`
  unfoldable pub drop_box :
      (shard_count : ℕ) → ShardedDataPtr → AllocUnit → Memory V → Outcome (AllocUnit × Memory V)
  drop_box shard_count ptr unit memory =
      let memory' = drop_from shard_count 0 ptr memory in
      deallocate_without_dropping ptr unit >>= λ unit'. done (unit', memory')

  -- `init_func` is the caller's; `none` is a panic of it.
  module _ (shard_count : ℕ) (init_func : ℕ → Option V) where
    -- The loop that writes the data slots, and its unwind guard: has it come to its end?
    unfoldable pub write_from : ℕ → ℕ → ShardedDataPtr → Memory V → Bool × Memory V
    write_from zero k ptr memory = (true, memory)
    write_from (suc rest) k ptr memory = elim (init_func k) [
      | none ↦ (false, drop_from k 0 ptr memory)
      | some value ↦ write_from rest (suc k) ptr (store memory (ptr_at_shard ptr k) (some value))
    ]

    unfoldable pub initialize : Memory V → Option ShardedDataPtr × AllocUnit → Outcome (Attempted V)
    initialize memory (none, unit) = done (full unit memory)
    initialize memory (some ptr, unit) =
        let (finished, memory') = write_from shard_count 0 ptr memory in
        if finished
        then done (allocated ptr unit memory')
        else (deallocate_without_dropping ptr unit >>= λ unit'. done (unwound unit' memory'))

    unfoldable pub allocate_and_initialize : AllocUnit → Memory V → Outcome (Attempted V)
    allocate_and_initialize unit memory = allocate_without_initializing unit >>= initialize memory

    -- The branch of `AllocUnitGroup::allocate` that makes a new unit; unwinding drops it.
    unfoldable pub push_new_unit : AllocUnitGroup → Attempted V → Outcome (GroupResult V)
    push_new_unit group (full unit memory) = panic
    push_new_unit group (allocated ptr unit memory) = done (
        allocated_in ptr
          (record {
            all_units = group.all_units ++ unit ∷ [];
            indexes_of_units_to_check_for_allocation =
                group.indexes_of_units_to_check_for_allocation
                ++ (length (group.all_units ++ unit ∷ []) - 1) ∷ [];
          })
          memory)
    push_new_unit group (unwound unit memory) = drop_unit unit >> done (unwound_in group memory)

    unfoldable pub allocate_in_new_unit :
        Option ℕ → AllocUnitGroup → Memory V → Outcome (GroupResult V)
    allocate_in_new_unit new_ptr group memory =
        new_unit new_ptr >>= λ unit. allocate_and_initialize unit memory >>= push_new_unit group

    abbrev pub with_unit : ℕ → AllocUnit → AllocUnitGroup → AllocUnitGroup
    with_unit i unit group = record group { all_units = set group.all_units i unit }

    unfoldable pub turn_ends : AllocUnitGroup → ℕ → List ℕ → Attempted V → Turn V
    turn_ends group i rest (full unit memory) =
        again
          (record {
            all_units = set group.all_units i unit;
            indexes_of_units_to_check_for_allocation = swap_remove_first i rest;
          })
          memory
    turn_ends group i rest (allocated ptr unit memory) =
        returns (allocated_in ptr (with_unit i unit group) memory)
    turn_ends group i rest (unwound unit memory) =
        returns (unwound_in (with_unit i unit group) memory)

    -- One turn of the loop of `AllocUnitGroup::allocate`, on the indexes to check. `new_ptr` is
    -- the answer of the global allocator, should a new unit be needed.
    unfoldable pub allocate_turn : Option ℕ → AllocUnitGroup → List ℕ → Memory V → Outcome (Turn V)
    allocate_turn new_ptr group [] memory =
        allocate_in_new_unit new_ptr group memory >>= λ result. done (returns result)
    allocate_turn new_ptr group (i ∷ rest) memory = elim (get_elem? group.all_units i) [
      | none ↦ panic
      | some unit ↦ allocate_and_initialize unit memory >>= λ attempted.
          done (turn_ends group i rest attempted)
    ]

    abbrev pub next_turn :
        (AllocUnitGroup → Memory V → Option (Outcome (GroupResult V)))
        → Outcome (Turn V)
        → Option (Outcome (GroupResult V))
    next_turn loop panic = some panic
    next_turn loop (done (returns result)) = some (done result)
    next_turn loop (done (again group memory)) = loop group memory

    -- `AllocUnitGroup::allocate`: the turns, on fuel
    unfoldable pub allocate_loop :
        ℕ → Option ℕ → AllocUnitGroup → Memory V → Option (Outcome (GroupResult V))
    allocate_loop zero new_ptr group memory = none
    allocate_loop (suc fuel) new_ptr group memory =
        next_turn (allocate_loop fuel new_ptr)
          (allocate_turn new_ptr group group.indexes_of_units_to_check_for_allocation memory)
