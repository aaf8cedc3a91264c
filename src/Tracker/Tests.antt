-- ===== src/Tracker/Tests.antt =====
-- Runs of the inner iterations of src/collector.rs on two tracked counters, and the theorem about
-- them at a concrete input.
use sdarc.Prelude.{ℕ, suc, ◌+◌, ◌≡◌, refl, [], ◌∷◌, some, ◌==◌}
use sdarc.Outcome.{◌>>=◌, Outcome, done, panic}
use sdarc.Collector.{TrackedCounterState, default_state, requires_re_checking, ready_to_free}
use sdarc.Tracker.{
  Objects, CollectorThreadState, track_taken, take_new_counters_to_track, on_new_sdarc_allocated,
}
use sdarc.BTree.{insert}

-- Every object is unreferenced: a counter goes from state to state.
abbrev advance : TrackedCounterState → ℕ → Outcome (TrackedCounterState × ℕ)
advance default_state world = done (requires_re_checking, world)
advance requires_re_checking world = done (ready_to_free, world)
advance ready_to_free world = panic

-- The counters of the object at `f` are at `f + 100`; freeing one drops an `Sdarc` with counters at
-- 300. Object 7 has a hazard pointer. The world counts the iterations.
abbrev dying : Objects ℕ
dying = record {
  update_state = λ p state world. advance state world;
  hazards = λ world. some (λ f. f == 7, suc world);
  get_counters_ptr = λ f. f + 100;
  free = λ f world. (300 ∷ [], world);
}

abbrev tracking : CollectorThreadState ℕ
tracking = record {
  tracked_counters =
      (105, record { fat_ptr = 5; state = requires_re_checking })
      ∷ (107, record { fat_ptr = 7; state = requires_re_checking })
      ∷ (108, record { fat_ptr = 8; state = default_state })
      ∷ [];
  counters_to_recheck = [];
  world = 0;
}

two_taken :
    (on_new_sdarc_allocated 0 8 108 ([] ∷ [] ∷ []) >>= on_new_sdarc_allocated 1 5 105 >>= λ shards.
    take_new_counters_to_track shards [])
    ≡ done (
        (105, record { fat_ptr = 5; state = default_state })
        ∷ (108, record { fat_ptr = 8; state = default_state })
        ∷ [])
unfolding take_new_counters_to_track track_taken insert on_new_sdarc_allocated
two_taken = refl
