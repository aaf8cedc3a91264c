-- ===== src/Collector/Freed.antt =====
-- The promise of the collector: what it frees is out of everybody's reach, and its assertions hold.
use sdarc.Prelude.{ℕ, ◌≡◌, ◌≢◌, List, some}
use sdarc.Outcome.{done, panic}
use sdarc.Object.{Action, Config, apply_all}
use sdarc.Object.Quiet.{IsDead, apply_all-IsDead}
use sdarc.Collector.{Run, default_state, ready_to_free, inspect_times}
use sdarc.Collector.Schedule.{PlainFuture, IsBalanced}
use sdarc.Collector.Safety.{inspect_times-Sound}

-- Take an object whose counters add up to its references, whatever the other threads do between
-- the collector's accesses, but for the exchange of a `raw_compare_and_set`. If after some inner
-- iterations its state is ready to free, then nobody owns it, no atomic pointer holds it, no weak
-- reference can be upgraded, no reader is about to count it and no hazard pointer borrows it; and
-- this stays so whatever anybody does next.
pub freed-IsDead :
    (c : Config) (k : ℕ) (r : Run) {r' : Run}
    → IsBalanced c r.object
    → PlainFuture r.future
    → inspect_times c k default_state r ≡ some (done (ready_to_free, r'))
    → (acts : List Action) → IsDead c (apply_all c acts r'.object)
freed-IsDead c k r v p h acts =
    apply_all-IsDead c acts _ (inspect_times-Sound c k default_state r _ p v h).0

-- Take an object whose counters add up to its references, whatever the other threads do between
-- the collector's accesses, but for the exchange of a `raw_compare_and_set`. Then no inner iteration
-- panics: the sum of a re-check that saw no tag is not negative, and `update_state` is not called
-- on an object that is ready to free.
pub never_panics :
    (c : Config) (k : ℕ) (r : Run)
    → IsBalanced c r.object
    → PlainFuture r.future
    → inspect_times c k default_state r ≢ some panic
never_panics c k r v p h = inspect_times-Sound c k default_state r panic p v h
