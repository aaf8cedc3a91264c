-- ===== src/Tracker/Iteration.antt =====
-- An inner iteration over all tracked counters of src/collector.rs: it does not panic, and the map
-- loses exactly the counters that became ready to free.
use sdarc.Prelude.{ℕ, ◌≡◌, refl, Bool, false, if◌then◌else◌, List, [], ◌∷◌, some}
use sdarc.Outcome.{done}
use sdarc.Collector.{TrackedCounterState, default_state}
use sdarc.BTree.Order.{AllFrom}
use sdarc.Tracker.{
  TrackedCounter, TrackedCounters, Objects, CollectorThreadState, Scanned, is_ready, with_state,
  scan_all, update_all_tracked_counters, update_specific_counters, after_visits, scan_specific,
}
use sdarc.Tracker.NotReady.{ready_keys, re_checking_keys, NoneReady}
use sdarc.Tracker.FreesReady.{Owned}

module _ {W : Type 0} (objects : Objects W) where
  -- `update_state` of a counter that is not ready to free does not panic.
  pub record NeverPanics : Type 0 where
    pub updates :
        (counters_ptr : ℕ) (state : TrackedCounterState) (world : W)
        → is_ready state ≡ false
        → (r : TrackedCounterState × W) × (objects.update_state counters_ptr state world ≡ done r)

  -- What becomes of the state of one counter: a hazard pointer resets it, and otherwise
  -- `update_state` says what it is.
  abbrev pub StateNext : (ℕ → Bool) → ℕ → TrackedCounter → W → TrackedCounterState × W → Type 0
  StateNext hazard key counter world r =
      if hazard counter.fat_ptr
      then r ≡ (default_state, world)
      else objects.update_state key counter.state world ≡ done r

  -- `updated` and `last` are the map and the objects after each counter, in the order of the keys,
  -- has got its next state.
  abbrev pub AllUpdated : (ℕ → Bool) → TrackedCounters → W → TrackedCounters → W → Type 0
  AllUpdated hazard [] world updated last = (updated ≡ []) × (last ≡ world)
  AllUpdated hazard ((key, counter) ∷ rest) world updated last =
      (r : TrackedCounterState × W) × (updated' : TrackedCounters) × StateNext hazard key counter
        world r
      × (updated ≡ (key, with_state r.0 counter) ∷ updated')
      × AllUpdated hazard rest r.1 updated' last

  -- What a scan of the whole map leaves.
  pub record IsScan (hazard : ℕ → Bool) (b : ℕ) (m : TrackedCounters) (world : W) (scan : Scanned W)
      : Type 0 where
    pub ascending : AllFrom b scan.tracked
    pub owned : Owned objects scan.tracked
    pub updated : AllUpdated hazard m world scan.tracked scan.world
    pub to_free : scan.to_free ≡ ready_keys scan.tracked
    pub to_re_check : scan.to_re_check ≡ re_checking_keys scan.tracked

  -- Between two iterations: the keys ascend, each object's counters are at its key, and no counter
  -- is ready to free.
  pub record IsTracking (s : CollectorThreadState W) : Type 0 where
    pub ascending : AllFrom 0 s.tracked_counters
    pub owned : Owned objects s.tracked_counters
    pub none_ready : NoneReady s.tracked_counters

  -- An iteration whose signals come to an end
  pub update_all_tracked_counters-eq :
      (s : CollectorThreadState W) {hazard : ℕ → Bool} {world : W}
      → objects.hazards s.world ≡ some (hazard, world)
      → update_all_tracked_counters objects s
        ≡ some (after_visits objects s (scan_all objects hazard s.tracked_counters world))
  unfolding update_all_tracked_counters
  update_all_tracked_counters-eq s signals = rw (signals, update_all_tracked_counters) refl

  pub update_specific_counters-eq :
      (old : List ℕ) (s : CollectorThreadState W) {hazard : ℕ → Bool} {world : W}
      → objects.hazards s.world ≡ some (hazard, world)
      → update_specific_counters objects old s
        ≡ some (after_visits objects s (scan_specific objects hazard old s.tracked_counters world))
  unfolding update_specific_counters
  update_specific_counters-eq old s signals = rw (signals, update_specific_counters) refl
