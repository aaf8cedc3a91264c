-- ===== src/AtomicSdarc/Weak.antt =====
-- src/weak_sdarc.rs: downgrading, upgrading, clearing the back reference, and what a
-- `WeakSdarcInner` asserts when it is dropped.
use sdarc.Prelude.{
  ℕ, ◌≡◌, ◌≢◌, refl, inl, inr, Bool, true, false, Option-cases, List, Option, none, some, arith,
  ◌==◌, ==_iff, if◌then◌else◌,
}
use sdarc.Outcome.{Outcome, done, panic, assert}
use sdarc.Object.{update}
use sdarc.Object.Totals.{update_self}
use sdarc.Collector.{
  ClearWeakBackRefResult, weak_ref_not_involved, weak_back_ref_cleared,
  weak_back_ref_was_already_null,
}
use sdarc.HazardPointers.{try_borrow}
use sdarc.AtomicSdarc.{
  Memory, clone_sdarc, drop_option, new_sdarc, load_atomic_ptr_owned, BorrowGuard,
  borrow_from_atomic_ptr,
}

-- The initialisation in `get_or_init`, where `Box::new` gives the address `w`
abbrev pub init_weak : ℕ → ℕ → ℕ → Memory → Memory
init_weak i p w m =
    let m' = new_sdarc i w m in
    record m' {
      back_ref = update m'.back_ref w p;
      weak_inner_ref = update m'.weak_inner_ref p (some w);
    }

abbrev pub downgrade_to : ℕ → ℕ → ℕ → Option ℕ → Memory → ℕ × Memory
downgrade_to i p fresh none m = (fresh, clone_sdarc i fresh (init_weak i p fresh m))
downgrade_to i p fresh (some w) m = (w, clone_sdarc i w m)

-- `Sdarc::downgrade`: the `WeakSdarc`, which is the address of the `WeakSdarcInner`
unfoldable pub downgrade : ℕ → ℕ → ℕ → Memory → ℕ × Memory
downgrade i p fresh m = downgrade_to i p fresh (m.weak_inner_ref p) m

-- `Clone for WeakSdarc`, `WeakSdarc::ptr_eq`
abbrev pub clone_weak : ℕ → ℕ → Memory → Memory
clone_weak i w m = clone_sdarc i w m

abbrev pub ptr_eq : ℕ → ℕ → Bool
ptr_eq a b = a == b

-- `WeakSdarc::upgrade`
unfoldable pub upgrade : ℕ → ℕ → Memory → Option ℕ × Memory
upgrade i w m = load_atomic_ptr_owned i (m.back_ref w) m

-- `WeakSdarc::borrow`, where nobody changes the back reference between its loads
unfoldable pub borrow_weak : ℕ → ℕ → List ℕ → Memory → Option BorrowGuard × List ℕ × Memory
borrow_weak i w slots m =
    borrow_from_atomic_ptr i (m.back_ref w) (m.back_ref w) (m.back_ref w) slots m

abbrev pub clear_at : Option ℕ → Memory → ClearWeakBackRefResult × Memory
clear_at none m = (weak_ref_not_involved, m)
clear_at (some w) m = (
  if m.back_ref w == 0 then weak_back_ref_was_already_null else weak_back_ref_cleared,
  record m { back_ref = update m.back_ref w 0 },
)

-- `clear_weak_backref_impl`
unfoldable pub clear_weak_backref_impl : ℕ → Memory → ClearWeakBackRefResult × Memory
clear_weak_backref_impl p m = clear_at (m.weak_inner_ref p) m

-- `Drop for WeakSdarcInner`
unfoldable pub drop_weak_inner : ℕ → Memory → Outcome (Unit {0})
drop_weak_inner w m = assert (m.back_ref w == 0)

-- `drop_sdarc_inner_impl`, which drops the `Sdarc` in `weak_inner_ref`
unfoldable pub drop_sdarc_inner_impl : ℕ → ℕ → Memory → Memory
drop_sdarc_inner_impl i p m = drop_option i (m.weak_inner_ref p) m

-- Of a memory in which the object at `p` leads to the `WeakSdarcInner` at `w`, and that one back
pub record IsLinked (p w : ℕ) (m : Memory) : Type 0 where
  pub to_weak : m.weak_inner_ref p ≡ some w
  pub back : m.back_ref w ≡ p

downgrade-link :
    (i p fresh : ℕ) (m : Memory)
    → ((w : ℕ) → m.weak_inner_ref p ≡ some w → m.back_ref w ≡ p)
    → let (w, m') = downgrade i p fresh m in IsLinked p w m'
unfolding downgrade new_sdarc
downgrade-link i p fresh m linked = elim (Option-cases (m.weak_inner_ref p)) [
  | inl absent ↦ rw absent (record {
    to_weak = update_self (update m.weak_inner_ref fresh none) p (some fresh);
    back = update_self m.back_ref fresh p;
  })
  | inr (w, present) ↦ rw present (record { to_weak = present; back = linked w present })
]

IsLinked-upgrade :
    (i p w : ℕ) (m : Memory) → p ≢ 0 → IsLinked p w m → upgrade i w m ≡ (some p, clone_sdarc i p m)
unfolding upgrade load_atomic_ptr_owned
IsLinked-upgrade i p w m ne v =
    let something : (p == 0) ≡ false = ground arith in
    rw (upgrade, load_atomic_ptr_owned, v.back, something) refl

-- Downgrading a `Sdarc` whose back reference has not been cleared gives a `WeakSdarc` that upgrades
-- to the same object, with one more reference counted; downgrading again gives the same one.
pub downgrade-upgrade :
    (i j p fresh fresh' : ℕ) (m : Memory)
    → p ≢ 0
    → ((w : ℕ) → m.weak_inner_ref p ≡ some w → m.back_ref w ≡ p)
    → let (w, m') = downgrade i p fresh m in
      (upgrade j w m' ≡ (some p, clone_sdarc j p m'))
      × (ptr_eq (downgrade j p fresh' m').0 w ≡ true)
unfolding downgrade
downgrade-upgrade i j p fresh fresh' m ne linked =
    let v = downgrade-link i p fresh m linked in
    let w = (downgrade i p fresh m).0 in
    (IsLinked-upgrade j p w _ ne v, rw (downgrade, v.to_weak) ((==_iff w w).1 refl))

-- Once the back reference of an initialised weak reference has been cleared, which the result tells
-- from one that was null before, no `WeakSdarc` of the object can be upgraded or borrowed; clearing
-- again reports that it was null already; and the assertion in the drop of the `WeakSdarcInner`
-- holds, while it fails as long as the back reference is not null.
pub clear_weak_backref_impl-upgrade :
    (i p w : ℕ) (slots : List ℕ) (m : Memory)
    → m.weak_inner_ref p ≡ some w
    → let (result, m') = clear_weak_backref_impl p m in
      (result
        ≡ (if m.back_ref w == 0 then weak_back_ref_was_already_null else weak_back_ref_cleared))
      × (upgrade i w m' ≡ (none, m'))
      × (borrow_weak i w slots m' ≡ (none, slots, m'))
      × ((clear_weak_backref_impl p m').0 ≡ weak_back_ref_was_already_null)
      × (drop_weak_inner w m' ≡ done tt)
      × (m.back_ref w ≢ 0 → drop_weak_inner w m ≡ panic)
unfolding clear_weak_backref_impl upgrade load_atomic_ptr_owned borrow_weak borrow_from_atomic_ptr
    try_borrow drop_weak_inner
clear_weak_backref_impl-upgrade i p w slots m present =
    let null : update m.back_ref w 0 w ≡ 0 = update_self m.back_ref w 0 in
    (
      rw (clear_weak_backref_impl, present) refl,
      rw (clear_weak_backref_impl, present, upgrade, load_atomic_ptr_owned, null) refl,
      rw (clear_weak_backref_impl, present, borrow_weak, borrow_from_atomic_ptr, try_borrow, null)
          refl,
      rw (clear_weak_backref_impl, present, present, null) refl,
      rw (clear_weak_backref_impl, present, drop_weak_inner, null) refl,
      λ ne.
          let something : (m.back_ref w == 0) ≡ false = ground arith in
          rw (drop_weak_inner, something) refl,
    )
