-- ===== src/Tracker/Heap.antt =====
-- The objects behind the loops of src/collector.rs over tracked counters: each is the one object of
-- `Collector`, at the pointer to its counters, with its own view of what the other threads do.
use sdarc.Prelude.{ℕ, zero, suc, Bool, false, List, [], ◌∷◌, Option, none, some, map}
use sdarc.Outcome.{Outcome, done, ◌>>=◌}
use sdarc.Cell
use sdarc.Object.{Reader, absent, Object, Config, drop, apply, update}
use sdarc.Collector.{Run, TrackedCounterState, traverse_atomic_reader_signals, update_state}
use sdarc.Tracker.{Objects}

-- The run of each object, and, as a record of the past, each object as it was when it was freed
pub record Heap : Type 0 where
  pub run : ℕ → Run
  pub freed : List Object

-- The objects' counters are at the numbers below `limit`. When the object at a `fat_ptr` is freed,
-- it drops `Sdarc`s, given by the counters and by the shard that is current then.
pub record Layout : Type 0 where
  pub config : Config
  pub limit : ℕ
  pub get_counters_ptr : ℕ → ℕ
  pub drops : ℕ → List (ℕ × ℕ)

module _ (layout : Layout) where
  -- `traverse_atomic_reader_signals`, for each object: is its address in the set?
  unfoldable pub traverse_objects : ℕ → (ℕ → Run) → Option ((ℕ → Bool) × (ℕ → Run))
  traverse_objects zero run = some (λ _. false, run)
  traverse_objects (suc k) run = elim (traverse_objects k run) [
    | none ↦ none
    | some (shown, run') ↦ elim (traverse_atomic_reader_signals layout.config (run k)) [
      | none ↦ none
      | some (found, r) ↦ some (update shown k found, update run' k r)
    ]
  ]

  unfoldable pub heap_hazards : Heap → Option ((ℕ → Bool) × Heap)
  heap_hazards heap = elim (traverse_objects layout.limit heap.run) [
    | none ↦ none
    | some (shown, run) ↦ some (λ f. shown (layout.get_counters_ptr f), record heap { run = run })
  ]

  unfoldable pub heap_update_state :
      ℕ → TrackedCounterState → Heap → Outcome (TrackedCounterState × Heap)
  heap_update_state k state heap = update_state layout.config state (heap.run k) >>= λ r.
      done (r.0, record heap { run = update heap.run k r.1 })

  -- `Drop for Sdarc`, for each `Sdarc` in the freed object
  unfoldable pub drop_children : List (ℕ × ℕ) → (ℕ → Run) → ℕ → Run
  drop_children [] run = run
  drop_children ((p, i) ∷ rest) run =
      drop_children rest
        (update run p (record (run p) { object = apply layout.config (drop i) (run p).object }))

  unfoldable pub heap_free : ℕ → Heap → List ℕ × Heap
  heap_free f heap = (
    map (λ x. x.0) (layout.drops f),
    record {
      run = drop_children (layout.drops f) heap.run;
      freed = (heap.run (layout.get_counters_ptr f)).object ∷ heap.freed;
    },
  )

  abbrev pub heap_objects : Objects Heap
  heap_objects = record {
    update_state = heap_update_state;
    hazards = heap_hazards;
    get_counters_ptr = layout.get_counters_ptr;
    free = heap_free;
  }

-- `SdarcInner::new`: the counters are fresh but for one reference at the current shard `i`; what the
-- threads are doing then is `reader`.
unfoldable pub new_object : ℕ → (ℕ → Reader) → Object
new_object i reader = record {
  cell = update (λ _. Cell.fresh) i (Cell.increment Cell.fresh);
  owners = 1;
  stored = 0;
  pinned = 0;
  weak = absent;
  reader = reader;
}
