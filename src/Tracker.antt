-- ===== src/Tracker.antt =====
-- src/collector.rs, the part that keeps all tracked objects: the counters that wait to be tracked,
-- the map of tracked counters, the inner iterations over it, and the deep collection. The part for
-- one object is `Collector`.
pub mod NotReady
pub mod FreesReady
pub mod Iteration
pub mod Contract
pub mod Scanning
pub mod Freeing
pub mod Specific
pub mod Deep
pub mod Pending
pub mod Heap
pub mod Stands
pub mod Whole
mod Tests
use sdarc.Prelude.{
  ℕ, zero, suc, Bool, true, false, List, ◌∷◌, ◌++◌, Option, none, some, ◌==◌, if◌then◌else◌, [],
}
use sdarc.Outcome.{Outcome, done, panic, ◌>>=◌, ◌>>◌, assert, and_then}
use sdarc.BTree.{BTreeMap, insert, remove, get, put, set_insert, extend}
use sdarc.Collector.{TrackedCounterState, default_state, requires_re_checking, ready_to_free}

-- A `fat_ptr` and a pointer to counters are numbers.
pub record TrackedCounter : Type 0 where
  pub fat_ptr : ℕ
  pub state : TrackedCounterState

abbrev pub TrackedCounters : Type 0
TrackedCounters = BTreeMap TrackedCounter

-- `on_new_sdarc_allocated`: a push at the current shard `i` of `pending_to_track`; an index out of
-- range panics.
unfoldable pub on_new_sdarc_allocated :
    ℕ → ℕ → ℕ → List (List (ℕ × ℕ)) → Outcome (List (List (ℕ × ℕ)))
on_new_sdarc_allocated i fat_ptr counters_ptr [] = panic
on_new_sdarc_allocated zero fat_ptr counters_ptr (pending ∷ shards) =
    done ((pending ++ (fat_ptr, counters_ptr) ∷ []) ∷ shards)
on_new_sdarc_allocated (suc i) fat_ptr counters_ptr (pending ∷ shards) =
    on_new_sdarc_allocated i fat_ptr counters_ptr shards >>= λ shards'. done (pending ∷ shards')

-- `mem::replace` of the list of shard `i`: what it held, and the lists after it
unfoldable pub take_pending : ℕ → List (List (ℕ × ℕ)) → List (ℕ × ℕ) × List (List (ℕ × ℕ))
take_pending i [] = ([], [])
take_pending zero (pending ∷ shards) = (pending, [] ∷ shards)
take_pending (suc i) (pending ∷ shards) =
    let (taken, shards') = take_pending i shards in (taken, pending ∷ shards')

-- `take_new_counters_to_track`: what each shard's list held, as (`fat_ptr`, `counters_ptr`)
unfoldable pub track_taken : List (ℕ × ℕ) → TrackedCounters → Outcome TrackedCounters
track_taken [] tracked = done tracked
track_taken ((fat_ptr, counters_ptr) ∷ taken) tracked =
    let (replaced, tracked') =
      insert counters_ptr (record { fat_ptr = fat_ptr; state = default_state }) tracked in
    elim replaced [ none ↦ track_taken taken tracked' | some old ↦ panic ]

unfoldable pub take_new_counters_to_track :
    List (List (ℕ × ℕ)) → TrackedCounters → Outcome TrackedCounters
take_new_counters_to_track [] tracked = done tracked
take_new_counters_to_track (taken ∷ shards) tracked =
    track_taken taken tracked >>= take_new_counters_to_track shards

-- What an iteration uses of the objects, whose state is a `W`: `update_state` at some counters,
-- `traverse_atomic_reader_signals`, `get_counters_ptr`, and `free` within its `catch_unwind`, with
-- the counters of the `Sdarc`s that it drops, in their order. `none` is a wait without end.
pub record Objects (W : Type 0) : Type 0 where
  pub update_state : ℕ → TrackedCounterState → W → Outcome (TrackedCounterState × W)
  pub hazards : W → Option ((ℕ → Bool) × W)
  pub get_counters_ptr : ℕ → ℕ
  pub free : ℕ → W → List ℕ × W

-- `CollectorThreadState` with `CollectorThreadLocal::counters_to_recheck`
pub record CollectorThreadState (W : Type 0) : Type 0 where
  pub tracked_counters : TrackedCounters
  pub counters_to_recheck : List ℕ
  pub world : W

-- `CollectorThreadLocal::add_pending_to_check`
abbrev pub add_pending_to_check : ℕ → List ℕ → List ℕ
add_pending_to_check counters_ptr set = set_insert counters_ptr set

-- `on_sdarc_drop`, by the thread's `COLLECTOR_THREAD_LOCAL`: `none` where it has been destroyed,
-- `some none` where it is not set, since the thread is not the collector's
unfoldable pub on_sdarc_drop : Option (Option (List ℕ)) → ℕ → Option (Option (List ℕ))
on_sdarc_drop none counters_ptr = none
on_sdarc_drop (some none) counters_ptr = some none
on_sdarc_drop (some (some set)) counters_ptr = some (some (add_pending_to_check counters_ptr set))

-- Several drops in one thread
unfoldable pub on_sdarc_drops : List ℕ → Option (Option (List ℕ)) → Option (Option (List ℕ))
on_sdarc_drops [] cell = cell
on_sdarc_drops (counters_ptr ∷ rest) cell = on_sdarc_drops rest (on_sdarc_drop cell counters_ptr)

-- What the loop over tracked counters leaves.
pub record Scanned (W : Type 0) : Type 0 where
  pub tracked : TrackedCounters
  pub to_free : List ℕ
  pub to_re_check : List ℕ
  pub world : W

abbrev pub is_ready : TrackedCounterState → Bool
is_ready ready_to_free = true
is_ready _ = false

abbrev pub is_re_checking : TrackedCounterState → Bool
is_re_checking requires_re_checking = true
is_re_checking _ = false

abbrev pub with_state : TrackedCounterState → TrackedCounter → TrackedCounter
with_state state counter = record { fat_ptr = counter.fat_ptr; state = state }

module _ {W : Type 0} (objects : Objects W) where
  -- The body of the loop for one counter
  unfoldable pub visit : (ℕ → Bool) → ℕ → TrackedCounter → W → Outcome (TrackedCounter × W)
  visit hazard counters_ptr counter world =
      let updated = objects.update_state counters_ptr counter.state world >>= λ r.
      done (with_state r.0 counter, r.1) in
      if hazard counter.fat_ptr then done (with_state default_state counter, world) else updated

  -- The `match` on the new state
  abbrev pub sorted_out : ℕ → TrackedCounter → TrackedCounters → Scanned W → Scanned W
  sorted_out counters_ptr counter tracked scan = record {
    tracked = tracked;
    to_free = if is_ready counter.state then counters_ptr ∷ scan.to_free else scan.to_free;
    to_re_check =
        if is_re_checking counter.state
        then set_insert counters_ptr scan.to_re_check
        else scan.to_re_check;
    world = scan.world;
  }

  unfoldable pub scan_all : (ℕ → Bool) → TrackedCounters → W → Outcome (Scanned W)
  scan_all hazard [] world =
      done (record { tracked = []; to_free = []; to_re_check = []; world = world })
  scan_all hazard ((counters_ptr, counter) ∷ rest) world =
      visit hazard counters_ptr counter world >>= λ r. scan_all hazard rest r.1 >>= λ scan.
      done (sorted_out counters_ptr r.0 ((counters_ptr, r.0) ∷ scan.tracked) scan)

  unfoldable pub scan_specific : (ℕ → Bool) → List ℕ → TrackedCounters → W → Outcome (Scanned W)
  scan_specific hazard [] tracked world =
      done (record { tracked = tracked; to_free = []; to_re_check = []; world = world })
  scan_specific hazard (counters_ptr ∷ rest) tracked world = elim (get counters_ptr tracked) [
    | none ↦ scan_specific hazard rest tracked world
    | some counter ↦ visit hazard counters_ptr counter world >>= λ r.
        scan_specific hazard rest (put counters_ptr r.0 tracked) r.1 >>= λ scan.
        done (sorted_out counters_ptr r.0 scan.tracked scan)
  ]

  abbrev pub freed :
      TrackedCounter → TrackedCounters → CollectorThreadState W → CollectorThreadState W
  freed counter tracked s =
      let (dropped, world) = objects.free counter.fat_ptr s.world in
      record {
        tracked_counters = tracked;
        counters_to_recheck = extend dropped s.counters_to_recheck;
        world = world;
      }

  unfoldable pub free_pointers : List ℕ → CollectorThreadState W → Outcome (CollectorThreadState W)
  free_pointers [] s = done s
  free_pointers (counters_ptr ∷ to_free) s =
      let (removed, tracked) = remove counters_ptr s.tracked_counters in
      elim removed [
        | none ↦ panic
        | some counter ↦
            assert (is_ready counter.state)
            >> assert (objects.get_counters_ptr counter.fat_ptr == counters_ptr)
            >> free_pointers to_free (freed counter tracked s)
      ]

  abbrev pub after_scan : CollectorThreadState W → Scanned W → CollectorThreadState W
  after_scan s scan = record {
    tracked_counters = scan.tracked;
    counters_to_recheck = s.counters_to_recheck;
    world = scan.world;
  }

  -- `take_to_recheck` leaves the empty set.
  abbrev pub with_taken : List ℕ → CollectorThreadState W → List ℕ × CollectorThreadState W
  with_taken to_re_check s =
      (extend s.counters_to_recheck to_re_check, record s { counters_to_recheck = [] })

  -- What is left of an iteration after its scan
  abbrev pub after_visits :
      CollectorThreadState W → Outcome (Scanned W) → Outcome (List ℕ × CollectorThreadState W)
  after_visits s scanned = scanned >>= λ scan.
      free_pointers scan.to_free (after_scan s scan) >>= λ s'. done (with_taken scan.to_re_check s')

  -- `update_all_tracked_counters_and_collect_and_get_ptrs_to_re_check`; the set counts only in a
  -- deep collection.
  unfoldable pub update_all_tracked_counters :
      CollectorThreadState W → Option (Outcome (List ℕ × CollectorThreadState W))
  update_all_tracked_counters s = elim (objects.hazards s.world) [
    | none ↦ none
    | some (hazard, world) ↦ some (after_visits s (scan_all hazard s.tracked_counters world))
  ]

  unfoldable pub update_specific_counters :
      List ℕ → CollectorThreadState W → Option (Outcome (List ℕ × CollectorThreadState W))
  update_specific_counters old_to_recheck s = elim (objects.hazards s.world) [
    | none ↦ none
    | some (hazard, world) ↦
        some (after_visits s (scan_specific hazard old_to_recheck s.tracked_counters world))
  ]

  -- The loop of `do_collection_inner_iterations`, with the turns that its counter leaves
  unfoldable pub deep_loop :
      ℕ → List ℕ → CollectorThreadState W → Option (Outcome (CollectorThreadState W))
  deep_loop zero to_re_check s = some (done s)
  deep_loop (suc turns) [] s = some (done s)
  deep_loop (suc turns) (p ∷ rest) s =
      and_then (update_specific_counters (p ∷ rest) s) (λ r. deep_loop turns r.0 r.1)

  unfoldable pub do_collection_inner_iterations :
      Bool → CollectorThreadState W → Option (Outcome (CollectorThreadState W))
  do_collection_inner_iterations do_deep_collection s =
      and_then (update_all_tracked_counters s)
        (λ r. if do_deep_collection then deep_loop 100000 r.0 r.1 else some (done r.1))
