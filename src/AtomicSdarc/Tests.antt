-- ===== src/AtomicSdarc/Tests.antt =====
-- The pointers of src/sdarc.rs, src/weak_sdarc.rs and src/atomic_sdarc.rs at concrete inputs.
use sdarc.Prelude.{ℕ, ◌+◌, ◌≡◌, ◌≢◌, ◌∙◌, refl, arith, true, List, [], ◌∷◌, some, none, ◌==◌}
use sdarc.Prelude.Int.{pos, ◌+ℤ◌, int_laws}
use sdarc.Outcome.{done, panic}
use sdarc.Cell
use sdarc.Object.{Object, Config, outside, absent, empty, apply_all}
use sdarc.Object.Totals.{total}
use sdarc.Collector.{weak_back_ref_cleared, weak_back_ref_was_already_null}
use sdarc.AtomicSdarc.{
  Memory, clone_sdarc, new_sdarc, new_with_value, swap, estimate_strong_count, estimate_weak_count,
  estimate_from, borrow_from_atomic_ptr,
}
use sdarc.AtomicSdarc.Counts.{bit, strong_count, strong_count-clone_sdarc}
use sdarc.AtomicSdarc.Program.{World, Op, loads, swaps, stores, syncs, drops, run_all}
use sdarc.AtomicSdarc.Counted.{IsCounted, estimate_strong_count-exact}
use sdarc.AtomicSdarc.Operations.{object_at}
use sdarc.AtomicSdarc.Refine.{accesses_all, run_all-refine}
use sdarc.AtomicSdarc.NonNull.{
  compares, result_of, value_after, run_non_null, run_non_null-register,
}
use sdarc.AtomicSdarc.Borrow.{IsBorrowed, borrow_from_atomic_ptr-IsBorrowed}
use sdarc.AtomicSdarc.Weak.{
  downgrade, upgrade, borrow_weak, clear_weak_backref_impl, drop_weak_inner, ptr_eq,
  downgrade-upgrade, clear_weak_backref_impl-upgrade,
}

abbrev nothing_yet : Memory
nothing_yet = record { counters = λ p i. Cell.fresh; weak_inner_ref = λ p. none; back_ref = λ p. 0 }

-- A pointer that is null, and nothing held
abbrev start : World
start = record { memory = nothing_yet; inner_ptr = 0; held = λ p. 0 }

-- One object at 40, in the pointer
abbrev one_object : Memory
one_object = clone_sdarc 0 40 nothing_yet

abbrev stored : World
stored = record { memory = one_object; inner_ptr = 40; held = λ p. 0 }

new_value : (new_with_value 0 40 nothing_yet).0 ≡ 40
unfolding new_with_value swap new_sdarc
new_value = refl

weak_counted : estimate_weak_count 2 40 (downgrade 1 40 64 one_object).1 ≡ pos 2
unfolding estimate_weak_count estimate_strong_count estimate_from downgrade new_sdarc ◌+ℤ◌
weak_counted = refl

nothing_yet-zero : (p : ℕ) → strong_count 2 p nothing_yet ≡ pos 0
unfolding total ◌+ℤ◌
nothing_yet-zero p = refl

stored-IsCounted : IsCounted 2 stored
stored-IsCounted p ne =
    strong_count-clone_sdarc 2 0 40 p nothing_yet (omega arith)
    ∙ rw (nothing_yet-zero p) (omega int_laws)

-- Load it twice, drop one at another shard, and take the pointer's own out.
abbrev some_ops : List Op
some_ops = loads 0 ∷ loads 1 ∷ drops 1 40 ∷ swaps none ∷ []

estimate_strong_count-exact_example :
    let w' = run_all 2 some_ops stored in
    estimate_strong_count 2 40 w'.memory ≡ pos (w'.held 40 + bit (w'.inner_ptr == 40))
estimate_strong_count-exact_example =
    estimate_strong_count-exact 2 some_ops stored 40 stored-IsCounted (λ e. ground arith)

run_non_null-register_example :
    (m' : Memory) × (run_non_null (compares 1 40 48) (40, one_object)
      ≡ done (result_of (compares 1 40 48) 40, value_after (compares 1 40 48) 40, m'))
    × (value_after (compares 1 40 48) 40 ≢ 0)
run_non_null-register_example =
    run_non_null-register (compares 1 40 48) 40 one_object
      ((λ e. ground arith), (λ e. ground arith)) (λ e. ground arith)

borrow_from_atomic_ptr-IsBorrowed_example :
    IsBorrowed 2 40 48 40
      (0 ∷ [])
      one_object
      (borrow_from_atomic_ptr 0 40 48 40 (0 ∷ []) one_object)
borrow_from_atomic_ptr-IsBorrowed_example =
    borrow_from_atomic_ptr-IsBorrowed 2 0 40 48 40 (0 ∷ []) one_object (omega arith)

downgrade-upgrade_example :
    let (w, m') = downgrade 0 40 64 one_object in
    (upgrade 1 w m' ≡ (some 40, clone_sdarc 1 40 m')) × (ptr_eq (downgrade 1 40 72 m').0 w ≡ true)
downgrade-upgrade_example =
    downgrade-upgrade 0 1 40 64 72 one_object (λ e. ground arith) (λ w h. cc)

abbrev downgraded : Memory
downgraded = record nothing_yet { weak_inner_ref = λ p. some 64; back_ref = λ p. 40 }

clear_weak_backref_impl-upgrade_example :
    let (result, m') = clear_weak_backref_impl 40 downgraded in
    (result ≡ weak_back_ref_cleared)
    × (upgrade 1 64 m' ≡ (none, m'))
    × (borrow_weak 1 64 (0 ∷ []) m' ≡ (none, 0 ∷ [], m'))
    × ((clear_weak_backref_impl 40 m').0 ≡ weak_back_ref_was_already_null)
    × (drop_weak_inner 64 m' ≡ done tt)
    × (downgraded.back_ref 64 ≢ 0 → drop_weak_inner 64 downgraded ≡ panic)
clear_weak_backref_impl-upgrade_example =
    clear_weak_backref_impl-upgrade 1 40 64 (0 ∷ []) downgraded refl

-- Two shards and one thread, which is outside its critical section
abbrev one_thread : Config
one_thread = record { shards = 2; readers = 1 }

abbrev unused_object : Object
unused_object = record {
  cell = λ i. Cell.fresh;
  owners = 0;
  stored = 0;
  pinned = 0;
  weak = absent;
  reader = λ t. record { section = outside; slot = λ s. empty };
}

-- Load it, put it back while the pointer has it still, exchange it for nothing, and drop it.
abbrev more_ops : List Op
more_ops =
    loads 0 ∷ stores 1 (some 40) ∷ loads 1 ∷ Op.compares 1 (some 40) none ∷ syncs 0 (some 40) ∷ []

run_all-refine_example :
    apply_all one_thread (accesses_all 2 0 40 more_ops stored) (object_at 40 unused_object stored)
    ≡ object_at 40 unused_object (run_all 2 more_ops stored)
run_all-refine_example =
    run_all-refine one_thread 0 40 unused_object more_ops stored (omega arith) refl
      (λ e. ground arith)
