-- ===== src/CollectorThread/Tests.antt =====
-- Runs of the collector's thread, and the theorems about it at concrete inputs.
use sdarc.Prelude.{
  ℕ, zero, suc, none, ◌≡◌, refl, ◌∷◌, [], Bool, true, false, List, inl, ◌++◌, Option, some, arith,
}
use sdarc.Outcome.{Outcome, done, panic}
use sdarc.ShardedAlloc.{AllocUnitGroup}
use sdarc.ShardedAlloc.Groups.{IsValidGroup}
use sdarc.ShardedAlloc.Maintenance.{empty_group}
use sdarc.Tracker.Heap.{Heap}
use sdarc.Tracker.Whole.Tests.{chain, untracked, pending, untracked-IsSound, pending-IsNew}
use sdarc.Tracker.{
  visit, scan_all, scan_specific, free_pointers, update_all_tracked_counters,
  update_specific_counters, take_pending, track_taken, on_new_sdarc_allocated,
}
use sdarc.Tracker.Whole.New.{all_pending}
use sdarc.Object.Accounts.{counts}
use sdarc.Object.Totals.{total}
use sdarc.Prelude.Int.{pos, ◌+ℤ◌, ◌-ℤ◌}
use sdarc.BTree.{insert, put, remove, set_insert, extend}
use sdarc.Collector.{
  others, tick, sum_from, read_ref_count_sum_relaxed, clear_from,
  clear_tags_and_read_ref_count_sum_acquire, check_from,
  read_ref_count_sum_if_all_tags_unset_acquire, clear_weak_back_ref, update_default, confirm_zero,
  judge, update_re_checking, update_state, poll_from, slots_from, signals_from,
  traverse_atomic_reader_signals,
}
use sdarc.Tracker.Heap.{traverse_objects, heap_hazards, heap_update_state, drop_children, heap_free}
use sdarc.ShardedAlloc.Maintenance.{
  do_maintenance_by_collector, maintain_shards, do_maintenance, retain_used, indexes_from,
}
use sdarc.CollectorThread.{
  Collected, taking, CollectorThread, Step, changes, update_collected, update_at, calls, collects,
  starting, collector_step, collector_step_in, collector_update_now, step, steps, new_thread,
}
use sdarc.CollectorThread.Waiters.{Each, steps-awake}
use sdarc.CollectorThread.Served.{Notified, alone, Ends, last, next, starting_serves}
use sdarc.Object.{apply, Reader, outside, empty, drop}
use sdarc.BTree.{get}
use sdarc.CollectorThread.Allocated.{new_tracked_sdarc, new_tracked_sdarc-IsWhole}
use sdarc.CollectorThread.Whole.{IsWhole}
use sdarc.CollectorThread.Sound.{updates, IsRunning, steps-IsRunning}

-- The state counts the deep updates.
abbrev counting : Bool → ℕ → Option (Outcome (Bool × ℕ))
counting true s = some (done (true, suc s))
counting false s = some (done (true, s))

-- Two calls, one before the iteration starts and one in it
abbrev two_calls : List (Step counting)
two_calls =
    calls 7 ∷ collects false ∷ calls 8 ∷ collects false ∷ collects false ∷ collects false ∷ []

steps-awake_example :
    (collector_step counting false (steps counting two_calls (new_thread 0))).phase ≡ starting
unfolding steps step collector_step collector_step_in collector_update_now
steps-awake_example = steps-awake counting two_calls 0 refl (λ h. cc)

abbrev quiet : ℕ → AllocUnitGroup → AllocUnitGroup
quiet k group = group

abbrev quiet_keeps :
    (k : ℕ) (group : AllocUnitGroup) → IsValidGroup group → IsValidGroup (quiet k group)
quiet_keeps k group v = v

abbrev collected : Collected Heap
collected = record {
  pending_to_track = pending;
  thread_state = untracked;
  full_shard_alloc = record {
    groups = empty_group ∷ empty_group ∷ [];
    temp_filling_group = empty_group;
  };
  stage = taking 0;
}

empty_group-IsValidGroup : IsValidGroup empty_group
empty_group-IsValidGroup = record { units_valid = tt; indexes_valid = tt }

collected-IsWhole : IsWhole chain collected
collected-IsWhole = record {
  sound = untracked-IsSound;
  new = pending-IsNew;
  alloc = record {
    groups_valid = (empty_group-IsValidGroup, (empty_group-IsValidGroup, tt));
    filling_valid = empty_group-IsValidGroup;
  };
  staged = tt;
}

-- One object of `chain` is allocated while nothing is pending.
abbrev idle : Collected Heap
idle = record collected { pending_to_track = [] ∷ [] ∷ [] }

idle-IsWhole : IsWhole chain idle
idle-IsWhole = record {
  sound = untracked-IsSound;
  new = tt;
  alloc = collected-IsWhole.alloc;
  staged = tt;
}

abbrev nobody : ℕ → Reader
nobody t = record { section = outside; slot = λ s. empty }

abbrev created : Collected Heap → Outcome (Collected Heap)
created s = new_tracked_sdarc 0 1 1 1 nobody ((drop 1 ∷ []) ∷ []) s

abbrev or_same : Collected Heap → Outcome (Collected Heap) → Collected Heap
or_same s (done s') = s'
or_same s panic = s

new_tracked_sdarc-IsWhole_example :
    (s' : Collected Heap) × (created idle ≡ done s')
    × IsWhole chain s'
    × ((a : List (ℕ × ℕ)) × (b : List (ℕ × ℕ)) × ([] ≡ a ++ b)
        × (all_pending s'.pending_to_track ≡ a ++ (1, 1) ∷ b))
    × (total 2 (counts ((s'.thread_state).world.run 1).object) ≡ pos 1)
    × ((s'.thread_state).tracked_counters ≡ [])
unfolding get
new_tracked_sdarc-IsWhole_example =
    new_tracked_sdarc-IsWhole chain 0 1 1 1 nobody ((drop 1 ∷ []) ∷ []) idle (omega arith)
      (omega arith) (omega arith) refl refl refl ((tt, tt), tt) idle-IsWhole

-- A call, the start of a deep update and its first part; then a `Sdarc::new`, whose pending counters
-- the second part takes; then the inner iterations and the maintenance
abbrev acts : List (Step (updates quiet quiet_keeps chain false))
acts =
    calls 7
    ∷ collects false
    ∷ collects false
    ∷ changes (λ s. or_same s (created s))
    ∷ collects false
    ∷ collects false
    ∷ collects false
    ∷ collects false
    ∷ []

steps-IsRunning_example :
    IsRunning quiet quiet_keeps chain false
      (steps (updates quiet quiet_keeps chain false) acts (new_thread idle))
unfolding step collector_step collector_step_in collector_update_now update_collected update_at
    take_pending track_taken get new_tracked_sdarc on_new_sdarc_allocated
steps-IsRunning_example =
    steps-IsRunning quiet quiet_keeps chain false acts idle
      (
        inl (record {
          i = 0;
          j = 1;
          fat_ptr = 1;
          k = 1;
          reader = nobody;
          future = (drop 1 ∷ []) ∷ [];
          shard = omega arith;
          pending_shard = omega arith;
          inside = omega arith;
          own = refl;
          untracked = refl;
          not_pending = refl;
          plain = ((tt, tt), tt);
          result = refl;
        }),
        tt,
      )
      idle-IsWhole

abbrev parts : Bool → Collected Heap → Option (Outcome (Bool × Collected Heap))
parts = updates quiet quiet_keeps chain false

abbrev after_part : Bool → Collected Heap → Collected Heap
after_part deep s = elim (parts deep s) [
  | none ↦ s
  | some r ↦ elim r [ Outcome.panic ↦ s | Outcome.done p ↦ p.1 ]
]

abbrev after_parts : ℕ → Collected Heap → Collected Heap
after_parts zero s = s
after_parts (suc k) s = after_parts k (after_part true s)

-- Two callers wait for a deep collection of the two objects of `chain`, which are pending.
abbrev called : CollectorThread (Collected Heap)
called = record (new_thread collected) { collection_waiting = 7 ∷ 8 ∷ []; token = true }

-- The update has nine parts: two pending lists and the end of that loop, four inner iterations and
-- the end of that loop, and the maintenance.
collected-Ends : Ends parts true 9 collected (after_parts 9 collected)
unfolding update_collected update_at take_pending track_taken update_all_tracked_counters
    update_specific_counters visit scan_all scan_specific free_pointers insert get put remove
    set_insert extend others tick sum_from read_ref_count_sum_relaxed clear_from
    clear_tags_and_read_ref_count_sum_acquire check_from
    read_ref_count_sum_if_all_tags_unset_acquire clear_weak_back_ref update_default confirm_zero
    judge update_re_checking update_state poll_from slots_from signals_from
    traverse_atomic_reader_signals traverse_objects heap_hazards heap_update_state drop_children
    heap_free apply ◌+ℤ◌ ◌-ℤ◌ do_maintenance_by_collector maintain_shards do_maintenance retain_used
    indexes_from
collected-Ends =
    next refl (
      next refl (next refl (next refl (next refl (next refl (next refl (next refl (last refl))))))))

starting_serves_example :
    let t' = alone parts 12 called in
    Each (λ n. Notified n t'.log) (7 ∷ 8 ∷ []) × (t'.state ≡ after_parts 9 collected)
starting_serves_example =
    starting_serves parts 9 called (after_parts 9 collected) refl collected-Ends
