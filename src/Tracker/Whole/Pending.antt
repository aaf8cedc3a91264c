-- ===== src/Tracker/Whole/Pending.antt =====
-- An inner iteration of src/collector.rs while counters are pending: these stay new.
use sdarc.Prelude.{
  ℕ, ◌≡◌, inl, inr, true, false, Bool-cases, Option-cases, List, [], ◌∷◌, ◌==◌, ==_iff, none, arith,
}
use sdarc.Outcome.{Keeps}
use sdarc.BTree.{get}
use sdarc.BTree.Laws.{Ascending}
use sdarc.Tracker.{
  TrackedCounters, CollectorThreadState, update_all_tracked_counters, update_specific_counters,
}
use sdarc.Tracker.Contract.{Promises}
use sdarc.Tracker.Deep.{
  IsCollecting, update_specific_counters-IsNext, update_all_tracked_counters-IsNext,
}
use sdarc.Tracker.Heap.{Heap, Layout, heap_objects}
use sdarc.Tracker.Pending.{listed_in, Standing, with_pending}
use sdarc.Tracker.Whole.{heap_promises}
use sdarc.Tracker.Whole.Frees.{IsSound, IsFreeing-IsSound, IsSound-IsFreeing, Keeps-weaken}
use sdarc.Tracker.Whole.New.{IsNew}

-- No counters are listed twice.
abbrev pub Once : List (ℕ × ℕ) → Type 0
Once [] = Unit
Once ((fat_ptr, p) ∷ rest) = (listed_in p rest ≡ false) × Once rest

module _ (layout : Layout) where
  abbrev promises : List (ℕ × ℕ) → Promises (heap_objects layout)
  promises l = with_pending (heap_objects layout) (heap_promises layout) l

  IsNew-Once :
      (heap : Heap) (m : TrackedCounters) (l : List (ℕ × ℕ)) → IsNew layout heap m l → Once l
  IsNew-Once heap m [] v = tt
  IsNew-Once heap m ((f, p) ∷ rest) v = (v.3, IsNew-Once heap m rest v.4)

  IsNew-Standing :
      (heap : Heap) (m : TrackedCounters) (l : List (ℕ × ℕ))
      → IsNew layout heap m l
      → Standing (heap_objects layout) (heap_promises layout) l heap
  unfolding heap_promises
  IsNew-Standing heap m [] v = tt
  IsNew-Standing heap m ((f, p) ∷ rest) v = (v.0, v.1, IsNew-Standing heap m rest v.4)

  pub IsNew-get :
      (heap : Heap) (m : TrackedCounters) (l : List (ℕ × ℕ)) (k : ℕ)
      → IsNew layout heap m l
      → listed_in k l ≡ true
      → get k m ≡ none
  IsNew-get heap m ((f, p) ∷ rest) k v h = elim (Bool-cases (k == p)) [
    | inl here ↦ let same : k ≡ p = (==_iff k p).0 here in rw same v.2
    | inr there ↦ IsNew-get heap m rest k v.4 (rw there at h)
  ]
  IsNew-get heap m [] k v h = cc

  IsNew-from :
      (heap : Heap) (m : TrackedCounters) (l : List (ℕ × ℕ))
      → Standing (heap_objects layout) (heap_promises layout) l heap
      → Once l
      → ((p : ℕ) → listed_in p l ≡ true → get p m ≡ none)
      → IsNew layout heap m l
  unfolding heap_promises
  IsNew-from heap m [] v once missing = tt
  IsNew-from heap m ((f, p) ∷ rest) v once missing = (
    v.0,
    v.1,
    missing p (ground arith),
    once.0,
    IsNew-from heap m rest v.2 once.1 (λ q h. missing q (ground (arith, h))),
  )

  IsCollecting-start :
      (l : List (ℕ × ℕ)) (s : CollectorThreadState Heap)
      → IsNew layout s.world s.tracked_counters l
      → IsSound layout s
      → IsCollecting (heap_objects layout) (promises l) s
  unfolding with_pending heap_promises
  IsCollecting-start l s new v =
      let w = IsSound-IsFreeing layout s v in
      record {
        ascending = w.ascending;
        good = (w.good, IsNew-Standing s.world s.tracked_counters l new);
        own = w.own;
        means = λ k counter h. (
          w.means k counter h,
          elim (Bool-cases (listed_in k l)) [
            | inl is ↦ cc (IsNew-get s.world s.tracked_counters l k new is, h)
            | inr not_so ↦ not_so
          ],
        );
        listed = w.listed;
        ready = w.ready;
        pending = w.pending;
      }

  IsCollecting-end :
      (l : List (ℕ × ℕ)) (s : CollectorThreadState Heap)
      → Once l
      → IsCollecting (heap_objects layout) (promises l) s
      → IsSound layout s × IsNew layout s.world s.tracked_counters l
  unfolding with_pending heap_promises
  IsCollecting-end l s once v = (
    IsFreeing-IsSound layout s (record {
      ascending = v.ascending;
      good = v.good.0;
      own = v.own;
      means = λ k counter h. (v.means k counter h).0;
      listed = v.listed;
      ready = v.ready;
      pending = v.pending;
    }),
    IsNew-from s.world s.tracked_counters l v.good.1 once (λ p is.
        elim (Option-cases (get p s.tracked_counters)) [
          | inl missing ↦ missing
          | inr (counter, h) ↦ cc ((v.means p counter h).1, is)
        ]),
  )

  -- After an inner iteration: what is to be re-checked is a set, the tracked counters are sound, and
  -- the pending ones are new.
  abbrev pub IsIterated : List (ℕ × ℕ) → List ℕ × CollectorThreadState Heap → Type 0
  IsIterated l r =
      Ascending 0 r.0 × IsSound layout r.1 × IsNew layout (r.1).world (r.1).tracked_counters l

  pub update_all_tracked_counters-IsIterated :
      (l : List (ℕ × ℕ)) (s : CollectorThreadState Heap)
      → IsNew layout s.world s.tracked_counters l
      → IsSound layout s
      → Keeps (IsIterated l) (update_all_tracked_counters (heap_objects layout) s)
  update_all_tracked_counters-IsIterated l s new v =
      Keeps-weaken layout _ (IsIterated l) (update_all_tracked_counters (heap_objects layout) s)
        (λ r w.
          let (sound, still) =
            IsCollecting-end l r.1 (IsNew-Once s.world s.tracked_counters l new) w.1 in
          (w.0, sound, still))
        (update_all_tracked_counters-IsNext (heap_objects layout) (promises l) s
          (IsCollecting-start l s new v))

  pub update_specific_counters-IsIterated :
      (l : List (ℕ × ℕ)) (old : List ℕ) (s : CollectorThreadState Heap)
      → Ascending 0 old
      → IsNew layout s.world s.tracked_counters l
      → IsSound layout s
      → Keeps (IsIterated l) (update_specific_counters (heap_objects layout) old s)
  update_specific_counters-IsIterated l old s a new v =
      Keeps-weaken layout _ (IsIterated l) (update_specific_counters (heap_objects layout) old s)
        (λ r w.
          let (sound, still) =
            IsCollecting-end l r.1 (IsNew-Once s.world s.tracked_counters l new) w.1 in
          (w.0, sound, still))
        (update_specific_counters-IsNext (heap_objects layout) (promises l) old s a
          (IsCollecting-start l s new v))
