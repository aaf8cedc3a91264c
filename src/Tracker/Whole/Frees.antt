-- ===== src/Tracker/Whole/Frees.antt =====
-- What the loops of src/collector.rs over tracked counters free, and why the assertions in them hold.
use sdarc.Prelude.{ℕ, ◌≡◌, inl, inr, Bool, false, Bool-cases, [], Option, none, some, arith}
use sdarc.Outcome.{Outcome, done, panic, Keeps}
use sdarc.BTree.{get}
use sdarc.BTree.Order.{AllFrom}
use sdarc.BTree.Laws.{Ascending}
use sdarc.Tracker.{TrackedCounter, CollectorThreadState, is_ready, do_collection_inner_iterations}
use sdarc.Tracker.Freeing.{IsFreeing}
use sdarc.Tracker.Deep.{do_collection_inner_iterations-IsCollecting}
use sdarc.Tracker.Heap.{Heap, Layout, heap_objects}
use sdarc.Tracker.Stands.{Stands, AllDead}
use sdarc.Tracker.Whole.{heap_promises}

module _ (layout : Layout) where
  -- A tracked counter: it is its object's, and it is not ready to free.
  pub record IsTracked (heap : Heap) (k : ℕ) (counter : TrackedCounter) : Type 0 where
    pub own : layout.get_counters_ptr counter.fat_ptr ≡ k
    pub waits : is_ready counter.state ≡ false
    pub stands : Stands layout k counter.state heap

  -- Between two iterations: each tracked counter's state is true of its object, and everything that
  -- was freed was out of everybody's reach.
  pub record IsSound (s : CollectorThreadState Heap) : Type 0 where
    pub ascending : AllFrom 0 s.tracked_counters
    pub pending : Ascending 0 s.counters_to_recheck
    pub tracked :
        (k : ℕ) (counter : TrackedCounter)
        → get k s.tracked_counters ≡ some counter
        → IsTracked s.world k counter
    pub freed_dead : AllDead layout.config s.world.freed

  pub IsFreeing-IsSound :
      (s : CollectorThreadState Heap)
      → IsFreeing (heap_objects layout) (heap_promises layout) [] s
      → IsSound s
  unfolding heap_promises
  IsFreeing-IsSound s v = record {
    ascending = v.ascending;
    pending = v.pending;
    tracked = λ k counter h. record {
      own = v.own k counter h;
      waits = elim (Bool-cases (is_ready counter.state)) [
        | inl is ↦ absurd (ground (arith, v.listed k counter h is))
        | inr not_so ↦ not_so
      ];
      stands = v.means k counter h;
    };
    freed_dead = v.good;
  }

  pub IsSound-IsFreeing :
      (s : CollectorThreadState Heap)
      → IsSound s
      → IsFreeing (heap_objects layout) (heap_promises layout) [] s
  unfolding heap_promises
  IsSound-IsFreeing s v = record {
    ascending = v.ascending;
    good = v.freed_dead;
    own = λ k counter h. (v.tracked k counter h).own;
    means = λ k counter h. (v.tracked k counter h).stands;
    listed = λ k counter h is. let waits = (v.tracked k counter h).waits in cc;
    ready = λ k h. absurd (ground (arith, h));
    pending = v.pending;
  }

  pub Keeps-weaken :
      {A : Type 0} (P Q : A → Type 0) (m : Option (Outcome A))
      → ((a : A) → P a → Q a)
      → Keeps P m
      → Keeps Q m
  Keeps-weaken P Q none f v = tt
  Keeps-weaken P Q (some panic) f v = v
  Keeps-weaken P Q (some (done a)) f v = f a v

  -- The inner iterations of a shallow or a deep collection, whatever the other threads do between
  -- the collector's accesses to each object but for the exchange of a `raw_compare_and_set`, do not
  -- panic. Each object that they free, also one that only the collector's own drops have left
  -- without references, is one that nobody owns or can get any more; and what is true of the
  -- tracked counters stays true.
  pub do_collection_inner_iterations-IsSound :
      (deep : Bool) (s : CollectorThreadState Heap)
      → IsSound s
      → Keeps IsSound (do_collection_inner_iterations (heap_objects layout) deep s)
  do_collection_inner_iterations-IsSound deep s v =
      Keeps-weaken _ IsSound (do_collection_inner_iterations (heap_objects layout) deep s)
        IsFreeing-IsSound
        (do_collection_inner_iterations-IsCollecting (heap_objects layout) (heap_promises layout)
          deep s (IsSound-IsFreeing s v))
