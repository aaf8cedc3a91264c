-- ===== src/CollectorThread.antt =====
-- src/collector.rs, the thread of the collector: one outer iteration (`CollectorThreadState::update`)
-- and the loop of `collector_thread_main`, with `collector_update_now_and_wait` in other threads.
pub mod Waiters
pub mod Served
pub mod Whole
pub mod Allocated
pub mod Sound
mod Tests
use sdarc.Prelude.{
  ℕ, zero, suc, ◌+◌, ◌%◌, ◌^◌, Bool, true, false, ◌||◌, not, List, ◌∷◌, ◌++◌, Option, none, some,
  if◌then◌else◌, [], ltb, length,
}
use sdarc.Outcome.{Outcome, done, panic, ◌>>=◌, and_then}
use sdarc.ShardedAlloc.{AllocUnitGroup}
use sdarc.ShardedAlloc.Maintenance.{FullShardAlloc, do_maintenance_by_collector}
use sdarc.Tracker.{
  Objects, CollectorThreadState, take_pending, track_taken, update_all_tracked_counters,
  update_specific_counters,
}

-- Where `CollectorThreadState::update` stands: before it takes the pending list of shard `k`, before
-- the inner iteration over all tracked counters, before one over the counters to re-check, of which
-- there may be `turns` more, or before the maintenance of the allocator.
pub data Stage : Type 0 where
  taking : (k : ℕ) → Stage
  scanning : Stage
  re_checking : (turns : ℕ) (to_re_check : List ℕ) → Stage
  maintaining : Stage

-- What an outer iteration works on: the pending lists of the shards, the collector thread's own
-- state, and the sharded allocator.
pub record Collected (W : Type 0) : Type 0 where
  pub pending_to_track : List (List (ℕ × ℕ))
  pub thread_state : CollectorThreadState W
  pub full_shard_alloc : FullShardAlloc
  pub stage : Stage

-- `CollectorThreadState::update`, a part at a time, so that other threads can act in between: each
-- shard's pending list is taken under its own lock, then each inner iteration is a part, and then
-- the maintenance. `meanwhile` is what allocating threads do during the maintenance, `disabled` the
-- setting that switches it off. The result says whether that was the last part.
module _ {W : Type 0} (objects : Objects W) (meanwhile : ℕ → AllocUnitGroup → AllocUnitGroup)
    (disabled : Bool) where
  -- One turn of the loop in `take_new_counters_to_track`
  abbrev pub take_shard : ℕ → Collected W → Outcome (Bool × Collected W)
  take_shard k s =
      let (taken, shards) = take_pending k s.pending_to_track in
      track_taken taken (s.thread_state).tracked_counters >>= λ tracked. done (
        false,
        record s {
          pending_to_track = shards;
          thread_state = record (s.thread_state) { tracked_counters = tracked };
          stage = taking (suc k);
        },
      )

  abbrev pub after_scan_all : Bool → Collected W → List ℕ × CollectorThreadState W → Collected W
  after_scan_all do_deep_collection s (to_re_check, state) = record s {
    thread_state = state;
    stage = if do_deep_collection then re_checking 100000 to_re_check else maintaining;
  }

  unfoldable pub update_at : Stage → Bool → Collected W → Option (Outcome (Bool × Collected W))
  update_at (taking k) do_deep_collection s =
      if ltb k (length s.pending_to_track)
      then some (take_shard k s)
      else some (done (false, record s { stage = scanning }))
  update_at scanning do_deep_collection s =
      and_then (update_all_tracked_counters objects s.thread_state)
        (λ r. some (done (false, after_scan_all do_deep_collection s r)))
  update_at (re_checking zero to_re_check) do_deep_collection s =
      some (done (false, record s { stage = maintaining }))
  update_at (re_checking (suc turns) []) do_deep_collection s =
      some (done (false, record s { stage = maintaining }))
  update_at (re_checking (suc turns) (p ∷ rest)) do_deep_collection s =
      and_then (update_specific_counters objects (p ∷ rest) s.thread_state)
        (λ r. some (done (false, record s { thread_state = r.1; stage = re_checking turns r.0 })))
  update_at maintaining do_deep_collection s =
      and_then (some (do_maintenance_by_collector meanwhile disabled s.full_shard_alloc))
        (λ full. some (done (true, record s { full_shard_alloc = full; stage = taking 0 })))

  unfoldable pub update_collected : Bool → Collected W → Option (Outcome (Bool × Collected W))
  unfolding update_at
  update_collected do_deep_collection s = update_at s.stage do_deep_collection s

-- Where the loop of `collector_thread_main` stands; a list is the senders to notify. `stopped` is
-- after a panic in the update.
pub data Phase : Type 0 where
  starting : Phase
  updating : List ℕ → Phase
  notifying : List ℕ → Phase
  parked : Phase
  stopped : Phase

-- What has happened: a call of `collector_update_now_and_wait`, the start of an update, its end,
-- and the message to a sender
pub data Event : Type 0 where
  requested : ℕ → Event
  started : Bool → Event
  finished : Event
  notified : ℕ → Event

-- The thread and what it shares. `token` is that of `park` and `unpark`; `log` is the past, the
-- latest event first.
pub record CollectorThread (S : Type 0) : Type 0 where
  pub phase : Phase
  pub collection_waiting : List ℕ
  pub token : Bool
  pub outer_iteration_counter : ℕ
  pub state : S
  pub log : List Event

abbrev pub is_empty {ℓ} : {A : Type ℓ} → List A → Bool
is_empty [] = true
is_empty (_ ∷ _) = false

module _ {S : Type 0} where
  -- `collector_update_now_and_wait` of the caller `n`: the push, and the unpark under the same lock
  unfoldable pub collector_update_now : ℕ → CollectorThread S → CollectorThread S
  collector_update_now n t = record t {
    collection_waiting = t.collection_waiting ++ n ∷ [];
    token = true;
    log = requested n ∷ t.log;
  }

  -- The head of the loop, with `mem::take` of the senders
  abbrev pub start_iteration : CollectorThread S → CollectorThread S
  start_iteration t = record t {
    phase = updating t.collection_waiting;
    collection_waiting = [];
    outer_iteration_counter = (t.outer_iteration_counter + 1) % 2 ^ 64;
    log = started (not (is_empty t.collection_waiting)) ∷ t.log;
  }

  -- The update goes on, or has come to its end. A wait without end leaves the thread where it is.
  abbrev pub after_update :
      List ℕ → Option (Outcome (Bool × S)) → CollectorThread S → CollectorThread S
  after_update to_notify (some (done (false, s))) t = record t { state = s }
  after_update to_notify (some (done (true, s))) t = record t {
    phase = notifying to_notify;
    state = s;
    log = finished ∷ t.log;
  }
  after_update to_notify (some panic) t = record t { phase = stopped }
  after_update to_notify none t = t

module _ {S : Type 0} (update : Bool → S → Option (Outcome (Bool × S))) where
  -- One step of the collector thread. `park_timeout` returns at once with the token, or when
  -- `timeout` says so.
  unfoldable pub collector_step_in : Phase → Bool → CollectorThread S → CollectorThread S
  collector_step_in starting timeout t = start_iteration t
  collector_step_in (updating to_notify) timeout t =
      after_update to_notify (update (not (is_empty to_notify)) t.state) t
  collector_step_in (notifying (n ∷ to_notify)) timeout t = record t {
    phase = notifying to_notify;
    log = notified n ∷ t.log;
  }
  collector_step_in (notifying []) timeout t = record t { phase = parked }
  collector_step_in parked timeout t =
      if t.token || timeout then record t { phase = starting; token = false } else t
  collector_step_in stopped timeout t = t

  unfoldable pub collector_step : Bool → CollectorThread S → CollectorThread S
  unfolding collector_step_in
  collector_step timeout t = collector_step_in t.phase timeout t

  -- What can happen next: a call in another thread, a change that other threads make to the state,
  -- a step of the collector thread
  pub data Step : Type 0 where
    calls : (n : ℕ) → Step
    changes : (f : S → S) → Step
    collects : (timeout : Bool) → Step

  unfoldable pub step : Step → CollectorThread S → CollectorThread S
  unfolding collector_update_now collector_step
  step (calls n) t = collector_update_now n t
  step (changes f) t = record t { state = f t.state }
  step (collects timeout) t = collector_step timeout t

  unfoldable pub steps : List Step → CollectorThread S → CollectorThread S
  unfolding step
  steps [] t = t
  steps (a ∷ rest) t = steps rest (step a t)

-- `collector_thread_main` before its loop
abbrev pub new_thread : {S : Type 0} → S → CollectorThread S
new_thread s = record {
  phase = starting;
  collection_waiting = [];
  token = false;
  outer_iteration_counter = 0;
  state = s;
  log = [];
}
