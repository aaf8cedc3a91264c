-- ===== src/Tracker/Whole/Tests.antt =====
-- A heap of two objects, where the first, which nobody has any more, owns the second; and the
-- theorems about the loops of src/collector.rs at it.
use sdarc.Prelude.{
  ℕ, zero, suc, ◌<◌, ◌≡◌, refl, sym, inl, inr, arith, true, false, Bool-cases, List, [], ◌∷◌,
  Option, some, none, ◌==◌, ==_iff,
}
use sdarc.Prelude.Int.{pos, ◌+ℤ◌, ◌-ℤ◌}
use mathlib.Core.Path.{subst₂}
use mathlib.Core.Option.{some-injective}
use sdarc.Outcome.{Outcome, done, Keeps}
use sdarc.Cell
use sdarc.Object.{Object, absent, empty, outside, apply}
use sdarc.Object.Totals.{total}
use sdarc.BTree.{insert, get, put, remove, set_insert, extend}
use sdarc.Collector.{
  default_state, others, tick, sum_from, read_ref_count_sum_relaxed, clear_from,
  clear_tags_and_read_ref_count_sum_acquire, check_from,
  read_ref_count_sum_if_all_tags_unset_acquire, clear_weak_back_ref, update_default, confirm_zero,
  judge, update_re_checking, update_state, poll_from, slots_from, signals_from,
  traverse_atomic_reader_signals,
}
use sdarc.Collector.Schedule.{IsBalanced}
use sdarc.Tracker.{
  TrackedCounters, CollectorThreadState, visit, scan_all, scan_specific, free_pointers,
  update_all_tracked_counters, update_specific_counters, deep_loop, do_collection_inner_iterations,
  take_new_counters_to_track,
}
use sdarc.Tracker.Specific.{update_all_tracked_counters-update_specific_counters}
use sdarc.Tracker.Heap.{
  Heap, Layout, heap_objects, traverse_objects, heap_hazards, heap_update_state, drop_children,
  heap_free,
}
use sdarc.Tracker.Stands.{Stands}
use sdarc.Tracker.Whole.Frees.{IsTracked, IsSound, do_collection_inner_iterations-IsSound}
use sdarc.Tracker.Whole.New.{IsNew, IsTaken, take_new_counters_to_track-IsSound}

abbrev pub owned : ℕ → Object
owned owners = record {
  cell = λ i. elim i [ zero ↦ record { count = pos owners; tag = false } | suc _ ↦ Cell.fresh ];
  owners = owners;
  stored = 0;
  pinned = 0;
  weak = absent;
  reader = λ t. record { section = outside; slot = λ s. empty };
}

-- The object at 0 owns the one at 1.
abbrev pub chain : Layout
chain = record {
  config = record { shards = 2; readers = 1 };
  limit = 2;
  get_counters_ptr = λ f. f;
  drops = λ f. elim f [ zero ↦ (1, 1) ∷ [] | suc _ ↦ [] ];
}

abbrev pub two_objects : Heap
two_objects = record { run = λ k. record { object = owned k; future = [] }; freed = [] }

abbrev pub untracked : CollectorThreadState Heap
untracked = record { tracked_counters = []; counters_to_recheck = []; world = two_objects }

abbrev pub pending : List (List (ℕ × ℕ))
pending = ((1, 1) ∷ []) ∷ ((0, 0) ∷ []) ∷ []

abbrev both_tracked : TrackedCounters
both_tracked =
    (0, record { fat_ptr = 0; state = default_state })
    ∷ (1, record { fat_ptr = 1; state = default_state })
    ∷ []

abbrev tracking : CollectorThreadState Heap
tracking = record untracked { tracked_counters = both_tracked }

abbrev freed_count : Option (Outcome (CollectorThreadState Heap)) → Option ℕ
freed_count (some (done s)) = some (count s.world.freed)
  where
    count : List Object → ℕ
    count [] = 0
    count (o ∷ rest) = suc (count rest)
freed_count _ = none

-- One deep collection frees both, also the one that only the first one's drop leaves unreferenced.
deep_frees_both :
    freed_count (do_collection_inner_iterations (heap_objects chain) true tracking) ≡ some 2
unfolding do_collection_inner_iterations update_all_tracked_counters update_specific_counters
    deep_loop visit scan_all scan_specific free_pointers insert get put remove set_insert extend
    others tick sum_from read_ref_count_sum_relaxed clear_from
    clear_tags_and_read_ref_count_sum_acquire check_from
    read_ref_count_sum_if_all_tags_unset_acquire clear_weak_back_ref update_default confirm_zero
    judge update_re_checking update_state poll_from slots_from signals_from
    traverse_atomic_reader_signals traverse_objects heap_hazards heap_update_state drop_children
    heap_free apply ◌+ℤ◌ ◌-ℤ◌
deep_frees_both = refl

two_objects-IsBalanced : (k : ℕ) → k < 2 → IsBalanced chain.config (owned k)
unfolding total ◌+ℤ◌ ◌-ℤ◌
two_objects-IsBalanced zero lt = record {
  accounted = refl;
  none_pinned = record { none_pinned = refl };
}
two_objects-IsBalanced (suc zero) lt = record {
  accounted = refl;
  none_pinned = record { none_pinned = refl };
}
two_objects-IsBalanced (suc (suc k)) lt = absurd (omega arith)

pub two_objects-Stands : (k : ℕ) → k < 2 → Stands chain k default_state two_objects
two_objects-Stands k lt = record { inside = lt; means = two_objects-IsBalanced k lt; plain = tt }

pub untracked-IsSound : IsSound chain untracked
unfolding get
untracked-IsSound = record {
  ascending = tt;
  pending = tt;
  tracked = λ k counter h. cc;
  freed_dead = tt;
}

pub pending-IsNew : IsNew chain two_objects [] ((1, 1) ∷ (0, 0) ∷ [])
unfolding get
pending-IsNew = (
  refl,
  two_objects-Stands 1 (omega arith),
  refl,
  refl,
  (refl, two_objects-Stands 0 (omega arith), refl, refl, tt),
)

fresh-IsTracked :
    (k : ℕ) → k < 2 → IsTracked chain two_objects k (record { fat_ptr = k; state = default_state })
fresh-IsTracked k lt = record { own = refl; waits = refl; stands = two_objects-Stands k lt }

tracking-IsSound : IsSound chain tracking
unfolding get
tracking-IsSound = record {
  ascending = (omega arith, (omega arith, tt));
  pending = tt;
  tracked = λ k counter h. elim (Bool-cases (k == 0)) [
    | inl first ↦
        subst₂ (IsTracked chain two_objects) (sym ((==_iff k 0).0 first))
          (some-injective _ _ (rw first at h)) (fresh-IsTracked 0 (omega arith))
    | inr other ↦ elim (Bool-cases (k == 1)) [
      | inl second ↦
          subst₂ (IsTracked chain two_objects) (sym ((==_iff k 1).0 second))
            (some-injective _ _ (rw (other, second) at h)) (fresh-IsTracked 1 (omega arith))
      | inr neither ↦ cc (rw (other, neither) at h)
    ]
  ];
  freed_dead = tt;
}

do_collection_inner_iterations-IsSound_example :
    Keeps (IsSound chain) (do_collection_inner_iterations (heap_objects chain) true tracking)
do_collection_inner_iterations-IsSound_example =
    do_collection_inner_iterations-IsSound chain true tracking tracking-IsSound

take_new_counters_to_track-IsSound_example :
    (tracked : TrackedCounters) × (take_new_counters_to_track pending [] ≡ done tracked)
    × IsTaken chain ((1, 1) ∷ (0, 0) ∷ []) [] tracked
    × IsSound chain (record untracked { tracked_counters = tracked })
take_new_counters_to_track-IsSound_example =
    take_new_counters_to_track-IsSound chain pending untracked pending-IsNew untracked-IsSound

update_all_tracked_counters-update_specific_counters_example :
    update_all_tracked_counters (heap_objects chain) tracking
    ≡ update_specific_counters (heap_objects chain) (0 ∷ 1 ∷ []) tracking
update_all_tracked_counters-update_specific_counters_example =
    update_all_tracked_counters-update_specific_counters (heap_objects chain) tracking
      (omega arith, (omega arith, tt))
