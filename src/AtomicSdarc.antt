-- ===== src/AtomicSdarc.antt =====
-- src/sdarc.rs, src/weak_sdarc.rs and src/atomic_sdarc.rs, with pointers as values: what each
-- operation on `Sdarc`, `WeakSdarc`, `AtomicNullableSdarc` and `AtomicSdarc` gives and does to the
-- counters, by itself. How its single accesses interleave with others' is in `Object`.
pub mod Counts
pub mod Program
pub mod Counted
pub mod Accesses
pub mod Effects
pub mod Loads
pub mod Cells
pub mod Operations
pub mod Refine
pub mod NonNull
pub mod Borrow
pub mod Weak
mod Tests
use sdarc.Prelude.{ℕ, zero, suc, List, Option, none, some, ◌==◌, if◌then◌else◌, []}
use sdarc.Prelude.Int.{ℤ, pos, ◌+ℤ◌}
use sdarc.Outcome.{Outcome, done, ◌>>=◌, ◌>>◌, assert}
use sdarc.Cell
use sdarc.Cell.{Cell}
use sdarc.Object.{update}
use sdarc.HazardPointers.{
  HazardPointerGuard, TryBorrow, ok, err, try_borrow, unpublish_hazard_pointer_on_borrow_finish,
}

-- The `SdarcInner`s by address: the counters by shard, `weak_inner_ref`, and, for a
-- `WeakSdarcInner`, its `back_ref`. Null is 0. A `Sdarc` is the address that it holds.
pub record Memory : Type 0 where
  pub counters : ℕ → ℕ → Cell
  pub weak_inner_ref : ℕ → Option ℕ
  pub back_ref : ℕ → ℕ

-- At the current shard `i`
abbrev pub at_shard : ℕ → ℕ → (Cell → Cell) → Memory → Memory
at_shard i p f m = record m {
  counters = update m.counters p (update (m.counters p) i (f (m.counters p i)));
}

-- `Clone for Sdarc`, `Drop for Sdarc`
abbrev pub clone_sdarc : ℕ → ℕ → Memory → Memory
clone_sdarc i p m = at_shard i p Cell.increment m

abbrev pub drop_sdarc : ℕ → ℕ → Memory → Memory
drop_sdarc i p m = at_shard i p Cell.decrement m

abbrev pub drop_option : ℕ → Option ℕ → Memory → Memory
drop_option i none m = m
drop_option i (some p) m = drop_sdarc i p m

-- `SdarcInner::new` and `Sdarc::new`, where `Box::new` gives the address `p`
unfoldable pub new_sdarc : ℕ → ℕ → Memory → Memory
new_sdarc i p m = clone_sdarc i p (record m {
  counters = update m.counters p (λ _. Cell.fresh);
  weak_inner_ref = update m.weak_inner_ref p none;
})

-- `nullable_from_raw_ptr`, and `nullable_into_raw_ptr` as well as `nullable_get_raw_ptr`
abbrev pub nullable_from_raw_ptr : ℕ → Option ℕ
nullable_from_raw_ptr ptr = if ptr == 0 then none else some ptr

abbrev pub nullable_into_raw_ptr : Option ℕ → ℕ
nullable_into_raw_ptr none = 0
nullable_into_raw_ptr (some p) = p

-- `Sdarc::estimate_strong_count`, over the shards from `k` on
unfoldable pub estimate_from : ℕ → ℕ → ℤ → (ℕ → Cell) → ℤ
estimate_from zero k sum counters = sum
estimate_from (suc rest) k sum counters =
    estimate_from rest (suc k) (sum +ℤ (counters k).count) counters

unfoldable pub estimate_strong_count : ℕ → ℕ → Memory → ℤ
estimate_strong_count shards p m = estimate_from shards 0 (pos 0) (m.counters p)

-- `Sdarc::estimate_weak_count`
unfoldable pub estimate_weak_count : ℕ → ℕ → Memory → ℤ
estimate_weak_count shards p m = elim (m.weak_inner_ref p) [
  | none ↦ pos 0
  | some w ↦ estimate_strong_count shards w m
]

-- `load_atomic_ptr_owned` of a pointer that is `ptr` when it is loaded
unfoldable pub load_atomic_ptr_owned : ℕ → ℕ → Memory → Option ℕ × Memory
load_atomic_ptr_owned i ptr m = if ptr == 0 then (none, m) else (some ptr, clone_sdarc i ptr m)

-- `AtomicNullableSdarc`: operations on the pointer, which come back with the pointer's new value.
-- `swap` gives what was there.
unfoldable pub swap : Option ℕ → ℕ → Option ℕ × ℕ
swap sdarc inner_ptr = (nullable_from_raw_ptr inner_ptr, nullable_into_raw_ptr sdarc)

unfoldable pub store : ℕ → Option ℕ → ℕ → Memory → ℕ × Memory
store i sdarc inner_ptr m =
    let (old, inner_ptr') = swap sdarc inner_ptr in (inner_ptr', drop_option i old m)

-- `AtomicNullableSdarc::new`
abbrev pub new_pointer : ℕ
new_pointer = 0

unfoldable pub new_with_value : ℕ → ℕ → Memory → ℕ × Memory
new_with_value i p m =
    let (old, inner_ptr) = swap (some p) new_pointer in
    (inner_ptr, drop_option i old (new_sdarc i p m))

-- `Drop for AtomicNullableSdarc`
unfoldable pub drop_pointer : ℕ → ℕ → Memory → ℕ × Memory
drop_pointer i inner_ptr m = store i none inner_ptr m

-- What a successful exchange is followed by
abbrev pub count_set : ℕ → ℕ → Memory → Memory
count_set i then_set_ptr m = if then_set_ptr == 0 then m else clone_sdarc i then_set_ptr m

-- `raw_compare_and_set`: `some old` for `Ok(old)`, `none` for `Err(())`
unfoldable pub raw_compare_and_set :
    ℕ → ℕ → ℕ → ℕ → Memory → Outcome (Option (Option ℕ) × ℕ × Memory)
raw_compare_and_set i if_matches_ptr then_set_ptr inner_ptr m =
    if inner_ptr == if_matches_ptr
    then assert (inner_ptr == if_matches_ptr)
      >> done (some (nullable_from_raw_ptr inner_ptr), then_set_ptr, count_set i then_set_ptr m)
    else done (none, inner_ptr, m)

unfoldable pub compare_and_set :
    ℕ → Option ℕ → Option ℕ → ℕ → Memory → Outcome (Option (Option ℕ) × ℕ × Memory)
compare_and_set i if_matches then_set inner_ptr m =
    raw_compare_and_set i (nullable_into_raw_ptr if_matches) (nullable_into_raw_ptr then_set)
      inner_ptr m

-- `sync_to`: the new target
unfoldable pub sync_to : ℕ → Option ℕ → ℕ → Memory → Option ℕ × Memory
sync_to i target inner_ptr m =
    let (loaded, m') = load_atomic_ptr_owned i inner_ptr m in
    if nullable_into_raw_ptr target == inner_ptr
    then (target, m)
    else (loaded, drop_option i target m')

-- `AtomicSdarcBorrowGuard`
pub data BorrowGuard : Type 0 where
  using_hazard_ptr : HazardPointerGuard → BorrowGuard
  owned : ℕ → BorrowGuard

abbrev pub owned_guard : List ℕ → Option ℕ × Memory → Option BorrowGuard × List ℕ × Memory
owned_guard slots (none, m) = (none, slots, m)
owned_guard slots (some p, m) = (some (owned p), slots, m)

abbrev pub or_load : ℕ → ℕ → Memory → TryBorrow × List ℕ → Option BorrowGuard × List ℕ × Memory
or_load i loaded_ptr m (ok none, slots) = (none, slots, m)
or_load i loaded_ptr m (ok (some g), slots) = (some (using_hazard_ptr g), slots, m)
or_load i loaded_ptr m (err e, slots) = owned_guard slots (load_atomic_ptr_owned i loaded_ptr m)

-- `borrow_from_atomic_ptr`, whose three loads of the pointer, as far as they are made, give
-- `pre_loaded_ptr`, `re_loaded_ptr` and `loaded_ptr`
unfoldable pub borrow_from_atomic_ptr :
    ℕ → ℕ → ℕ → ℕ → List ℕ → Memory → Option BorrowGuard × List ℕ × Memory
borrow_from_atomic_ptr i pre_loaded_ptr re_loaded_ptr loaded_ptr slots m =
    or_load i loaded_ptr m (try_borrow pre_loaded_ptr re_loaded_ptr slots)

-- The drop of a guard
unfoldable pub drop_guard : ℕ → BorrowGuard → List ℕ → Memory → Outcome (List ℕ × Memory)
drop_guard i (using_hazard_ptr g) slots m =
    unpublish_hazard_pointer_on_borrow_finish g.hazard_slot_index slots >>= λ slots'.
    done (slots', m)
drop_guard i (owned p) slots m = done (slots, drop_sdarc i p m)
