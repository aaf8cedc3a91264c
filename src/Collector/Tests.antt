-- ===== src/Collector/Tests.antt =====
-- Runs of the collector on one object, and the theorems about it at concrete inputs.
use sdarc.Prelude.{zero, suc, ◌≡◌, ◌≢◌, refl, arith, [], ◌∷◌, Option, some, true, false}
use sdarc.Prelude.Int.{pos, ◌+ℤ◌, ◌-ℤ◌}
use sdarc.Outcome.{Outcome, done, panic}
use sdarc.Cell
use sdarc.Cell.{Cell}
use sdarc.Object.{
  Object, Config, absent, live, cleared, empty, outside, clone, drop, downgrade, enter, load, count,
  apply, apply_all, is_live,
}
use sdarc.Object.Totals.{total}
use sdarc.Object.Accounts.{Accounted, apply-Accounted}
use sdarc.Object.Quiet.{IsDead}
use sdarc.Collector.{
  Run, TrackedCounterState, default_state, requires_re_checking, ready_to_free, others, tick,
  sum_from, read_ref_count_sum_relaxed, clear_from, clear_tags_and_read_ref_count_sum_acquire,
  check_from, read_ref_count_sum_if_all_tags_unset_acquire, clear_weak_back_ref, update_default,
  confirm_zero, judge, update_re_checking, update_state, poll_from, slots_from, signals_from,
  traverse_atomic_reader_signals, inspect, inspect_times,
}
use sdarc.Collector.Schedule.{IsBalanced, PlainFuture}
use sdarc.Collector.Freed.{freed-IsDead, never_panics}
use sdarc.Collector.Quiet.{quiet, IsUnused}
use sdarc.Collector.Progress.{unused_is_freed}
use sdarc.Collector.CasRace.{IsSoleOwned, raced, cas_set_race}

abbrev two_shards : Config
two_shards = record { shards = 2; readers = 1 }

-- one owner, counted at shard 0
abbrev owned_once : Object
owned_once = record {
  cell = λ i. elim i [ zero ↦ record { count = pos 1; tag = false } | suc _ ↦ Cell.fresh ];
  owners = 1;
  stored = 0;
  pinned = 0;
  weak = absent;
  reader = λ t. record { section = outside; slot = λ s. empty };
}

-- Before the first access a thread clones and makes a weak reference; then both `Sdarc`s are
-- dropped, at shard 1.
abbrev start : Run
start = record {
  object = owned_once;
  future = (clone 0 ∷ downgrade ∷ []) ∷ (drop 1 ∷ drop 1 ∷ []) ∷ [];
}

abbrev run_of : Option (Outcome (TrackedCounterState × Run)) → Run
run_of (some (done (state, r))) = r
run_of _ = start

abbrev final : Run
final = run_of (inspect_times two_shards 3 default_state start)

start_is_freed : inspect_times two_shards 3 default_state start ≡ some (done (ready_to_free, final))
unfolding inspect_times inspect traverse_atomic_reader_signals signals_from slots_from poll_from
    others tick sum_from read_ref_count_sum_relaxed clear_from
    clear_tags_and_read_ref_count_sum_acquire check_from
    read_ref_count_sum_if_all_tags_unset_acquire clear_weak_back_ref update_default confirm_zero
    judge update_re_checking update_state apply apply_all ◌+ℤ◌ ◌-ℤ◌
start_is_freed = refl

owned_once-IsBalanced : IsBalanced two_shards owned_once
unfolding total ◌+ℤ◌ ◌-ℤ◌
owned_once-IsBalanced = record { accounted = refl; none_pinned = record { none_pinned = refl } }

start-PlainFuture : PlainFuture start.future
start-PlainFuture = ((tt, (tt, tt)), ((tt, (tt, tt)), tt))

freed-IsDead_example :
    IsDead two_shards (apply_all two_shards (enter 0 ∷ load 0 ∷ count 0 0 ∷ []) final.object)
freed-IsDead_example =
    freed-IsDead two_shards 3 start owned_once-IsBalanced start-PlainFuture start_is_freed
      (enter 0 ∷ load 0 ∷ count 0 0 ∷ [])

never_panics_example : inspect_times two_shards 5 default_state start ≢ some panic
never_panics_example = never_panics two_shards 5 start owned_once-IsBalanced start-PlainFuture

-- dropped at another shard than the one that counts it
abbrev dropped : Object
dropped = record owned_once {
  cell = λ i. elim i [
    | zero ↦ record { count = pos 1; tag = false }
    | suc _ ↦ Cell.decrement Cell.fresh
  ];
  owners = 0;
  weak = live;
}

dropped-IsUnused : IsUnused two_shards dropped
unfolding total ◌+ℤ◌ ◌-ℤ◌
dropped-IsUnused = record { zero_sum = refl; section = λ t lt. refl; slot = λ t s lt ls. refl }

unused_is_freed_example :
    (o' : Object) × (o'.pinned ≡ 0)
    × (inspect_times two_shards 1 default_state (quiet dropped)
        ≡ some (done (requires_re_checking, quiet o')))
    × (is_live live ≡ false
        → inspect_times two_shards 2 default_state (quiet dropped)
          ≡ some (done (ready_to_free, quiet o')))
    × (is_live live ≡ true
        → let swapped = record o' { weak = cleared } in
          (inspect_times two_shards 2 default_state (quiet dropped)
            ≡ some (done (requires_re_checking, quiet swapped)))
          × (inspect_times two_shards 3 default_state (quiet dropped)
              ≡ some (done (ready_to_free, quiet swapped))))
unused_is_freed_example = unused_is_freed two_shards dropped dropped-IsUnused

owned_once-IsSoleOwned : IsSoleOwned two_shards owned_once
owned_once-IsSoleOwned = record {
  balanced = owned_once-IsBalanced;
  owned = refl;
  not_stored = refl;
  no_upgrade = refl;
  section = λ t lt. refl;
  slot = λ t s lt ls. refl;
}

cas_set_race_example :
    (o' : Object) × (inspect_times two_shards 2 default_state
        (quiet (raced two_shards 1 owned_once))
      ≡ some (done (ready_to_free, quiet o')))
    × (o'.pinned ≡ 1)
cas_set_race_example = cas_set_race two_shards 1 owned_once (omega arith) owned_once-IsSoleOwned

apply-Accounted_example : Accounted 2 (apply two_shards (drop 1) owned_once)
apply-Accounted_example =
    apply-Accounted two_shards (drop 1) owned_once owned_once-IsBalanced.accounted
