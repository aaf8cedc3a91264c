-- ===== src/HazardPointers.antt =====
-- src/atomic_sdarc.rs, the hazard pointers of one thread: the slots of `PerThreadSharedHazardData`,
-- and a borrow through them. An address is a number and null is 0.
pub mod Slots
pub mod Registry
mod Tests
use sdarc.Prelude.{
  ℕ, zero, suc, Bool, false, ◌||◌, ◌&&◌, not, List, ◌∷◌, Option, none, some, ◌==◌, if◌then◌else◌,
  set, get_or, [],
}
use sdarc.Outcome.{Outcome, done, ◌>>◌, assert}

-- `HZ_PTR_SLOT_COUNT` slots that are null
abbrev pub nulls : ℕ → List ℕ
nulls zero = []
nulls (suc n) = 0 ∷ nulls n

abbrev pub new_slots : List ℕ
new_slots = nulls 15

-- `HzSlotIndex::all`, `load_relaxed` and `store_relaxed` in the loop of
-- `try_publish_maybe_dangling_hazard_pointer`, from slot `i` on: the index, and the slots
unfoldable pub publish_from : ℕ → ℕ → List ℕ → Option ℕ × List ℕ
publish_from ptr i [] = (none, [])
publish_from ptr i (loaded_ptr ∷ slots) =
    let (index, later) = publish_from ptr (suc i) slots in
    if loaded_ptr == 0 then (some i, ptr ∷ slots) else (index, loaded_ptr ∷ later)

unfoldable pub try_publish_maybe_dangling_hazard_pointer : ℕ → List ℕ → Option ℕ × List ℕ
try_publish_maybe_dangling_hazard_pointer ptr slots = publish_from ptr 0 slots

-- `unpublish_hazard_pointer_on_borrow_finish`, with its debug assertion
unfoldable pub unpublish_hazard_pointer_on_borrow_finish : ℕ → List ℕ → Outcome (List ℕ)
unpublish_hazard_pointer_on_borrow_finish index slots =
    assert (not (get_or slots index 0 == 0)) >> done (set slots index 0)

-- Is the address among the slots that `traverse_atomic_reader_signals` reads?
unfoldable pub shows : ℕ → List ℕ → Bool
shows ptr [] = false
shows ptr (x ∷ slots) = (not (x == 0) && x == ptr) || shows ptr slots

pub data HazardBorrowErr : Type 0 where
  slot_full pointer_changed : HazardBorrowErr

-- `HazardPointerGuard`
pub record HazardPointerGuard : Type 0 where
  pub hazard_slot_index : ℕ
  pub loaded_ptr : ℕ

-- `Result<Option<HazardPointerGuard>, HazardBorrowErr>`
pub data TryBorrow : Type 0 where
  ok : Option HazardPointerGuard → TryBorrow
  err : HazardBorrowErr → TryBorrow

-- What follows the publication, by the index that it gave
abbrev pub after_publish : ℕ → ℕ → Option ℕ → List ℕ → TryBorrow × List ℕ
after_publish pre_loaded_ptr re_loaded_ptr none slots = (err slot_full, slots)
after_publish pre_loaded_ptr re_loaded_ptr (some index) slots =
    if re_loaded_ptr == pre_loaded_ptr
    then (ok (some (record { hazard_slot_index = index; loaded_ptr = re_loaded_ptr })), slots)
    else (err pointer_changed, set slots index 0)

-- `try_borrow_from_atomic_ptr_using_hazard_pointer`, where the first and the second load of the
-- atomic pointer give `pre_loaded_ptr` and `re_loaded_ptr`
unfoldable pub try_borrow : ℕ → ℕ → List ℕ → TryBorrow × List ℕ
try_borrow pre_loaded_ptr re_loaded_ptr slots =
    let (index, slots') = try_publish_maybe_dangling_hazard_pointer pre_loaded_ptr slots in
    if pre_loaded_ptr == 0
    then (ok none, slots)
    else after_publish pre_loaded_ptr re_loaded_ptr index slots'
