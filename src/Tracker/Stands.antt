-- ===== src/Tracker/Stands.antt =====
-- What the state of a tracked counter of src/collector.rs stands for, and that the reading of the
-- reader signals, for all objects, keeps it.
use sdarc.Prelude.{
  ℕ, zero, suc, ◌<◌, ◌≤◌, ◌≡◌, ◌≢◌, sym, ap, ◌∙◌, inl, inr, Bool, false, Bool-cases, Option-cases,
  List, [], ◌∷◌, some, arith, ◌==◌, ==_iff,
}
use mathlib.Core.Option.{some-injective}
use sdarc.Object.{Object, Action, Config, apply, update}
use sdarc.Object.Accounts.{Plain}
use sdarc.Object.Quiet.{IsDead, apply-IsDead}
use sdarc.Collector.{
  Run, TrackedCounterState, default_state, requires_re_checking, ready_to_free,
  traverse_atomic_reader_signals, update_state,
}
use sdarc.Collector.Schedule.{PlainFuture, apply-IsBalanced}
use sdarc.Collector.Scan.{apply-Since}
use sdarc.Collector.Kept.{signals_from_keeps}
use sdarc.Collector.States.{IsWatched, Means, Sound}
use sdarc.Collector.Safety.{updated-Sound, watched-Since}
use sdarc.Tracker.{is_ready}
use sdarc.Tracker.Heap.{Heap, Layout, traverse_objects, heap_hazards}

apply-IsWatched :
    (c : Config) (a : Action) (o : Object) → Plain a → IsWatched c o → IsWatched c (apply c a o)
apply-IsWatched c a o p w =
    let since = apply-Since c c.shards w.base o a o p (watched-Since c o w) in
    record { balanced = since.balanced; base = w.base; zero_sum = w.zero_sum; above = since.above }

-- What a state stands for, it stands for after an action of another thread.
pub apply-Means :
    (c : Config) (state : TrackedCounterState) (a : Action) (o : Object)
    → Plain a
    → Means c state o
    → Means c state (apply c a o)
apply-Means c default_state a o p m = apply-IsBalanced c a o p m
apply-Means c requires_re_checking a o p m = apply-IsWatched c a o p m
apply-Means c ready_to_free a o p m = apply-IsDead c a o m

-- Everything that was freed was out of everybody's reach.
abbrev pub AllDead : Config → List Object → Type 0
AllDead c [] = Unit
AllDead c (o ∷ freed) = IsDead c o × AllDead c freed

pub update-other : {A : Type 0} (f : ℕ → A) (k j : ℕ) (x : A) → j ≢ k → update f k x j ≡ f j
update-other f k j x ne = ground arith

pub update-here : {A : Type 0} (f : ℕ → A) (k : ℕ) (x : A) → update f k x k ≡ x
update-here f k x = ground arith

pub not_ready_to_free :
    (state : TrackedCounterState) → is_ready state ≡ false → state ≢ ready_to_free
not_ready_to_free state waits e = ground (arith, rw e at waits)

module _ (layout : Layout) where
  abbrev c : Config
  c = layout.config

  -- What the state of the counters at `k` stands for
  pub record Stands (k : ℕ) (state : TrackedCounterState) (heap : Heap) : Type 0 where
    pub inside : k < layout.limit
    pub means : Means c state (heap.run k).object
    pub plain : PlainFuture (heap.run k).future

  pub record Traversed (n : ℕ) (run run' : ℕ → Run) (shown : ℕ → Bool) : Type 0 where
    below : (k : ℕ) → k < n → traverse_atomic_reader_signals c (run k) ≡ some (shown k, run' k)
    above : (k : ℕ) → n ≤ k → run' k ≡ run k

  traverse_objects-Traversed :
      (n : ℕ) (run run' : ℕ → Run) (shown : ℕ → Bool)
      → traverse_objects layout n run ≡ some (shown, run')
      → Traversed n run run' shown
  unfolding traverse_objects
  traverse_objects-Traversed zero run run' shown h =
      let e = some-injective _ _ h in
      record {
        below = λ k lt. absurd (omega arith);
        above = λ k le. ap (λ x. x k) (sym (ap (λ x. x.1) e));
      }
  traverse_objects-Traversed (suc n) run run' shown h =
      elim (Option-cases (traverse_objects layout n run)) [
        | inl missing ↦ cc (rw missing at h)
        | inr ((shown1, run1), first) ↦
            elim (Option-cases (traverse_atomic_reader_signals c (run n))) [
              | inl spins ↦ cc (rw (first, spins) at h)
              | inr ((found, r), last) ↦
                  let was = traverse_objects-Traversed n run run1 shown1 first in
                  let e : (update shown1 n found, update run1 n r) ≡ (shown, run') =
                    some-injective _ _ (rw (first, last) at h) in
                  rw (← ap (λ x. x.0) e, ← ap (λ x. x.1) e)
                    (record {
                      below = λ k lt. elim (Bool-cases (n == k)) [
                        | inl here ↦
                            let same : n ≡ k = (==_iff n k).0 here in rw (here, ← same) last
                        | inr there ↦ rw there (was.below k (ground arith))
                      ];
                      above =
                          λ k le. update-other run1 n k r (omega arith) ∙ was.above k (omega arith);
                    })
            ]
      ]

  pub traverse_objects-Stands :
      (k : ℕ) (state : TrackedCounterState) (heap : Heap) (run : ℕ → Run) (shown : ℕ → Bool)
      → Traversed layout.limit heap.run run shown
      → is_ready state ≡ false
      → Stands k state heap
      → Stands k state (record heap { run = run })
        × (shown k ≡ false → Sound c (update_state c state (run k)))
  unfolding traverse_atomic_reader_signals
  traverse_objects-Stands k state heap run shown t waits v =
      let e = t.below k v.inside in
      let (means, plain) =
        signals_from_keeps c (Means c state) (apply-Means c state) c.readers 0 false (heap.run k)
          v.plain v.means e in
      (
        record { inside = v.inside; means = means; plain = plain },
        λ hidden.
            updated-Sound c state (heap.run k) (run k) (not_ready_to_free state waits) v.plain
              v.means (rw hidden at e),
      )

  pub heap_hazards-Traversed :
      (heap : Heap) (hazard : ℕ → Bool) (heap' : Heap)
      → heap_hazards layout heap ≡ some (hazard, heap')
      → (run : ℕ → Run) × (shown : ℕ → Bool) × Traversed layout.limit heap.run run shown
        × ((λ f. shown (layout.get_counters_ptr f)) ≡ hazard)
        × (record heap { run = run } ≡ heap')
  unfolding heap_hazards
  heap_hazards-Traversed heap hazard heap' h =
      elim (Option-cases (traverse_objects layout layout.limit heap.run)) [
        | inl missing ↦ cc (rw (heap_hazards, missing) at h)
        | inr ((shown, run), e) ↦
            let same = some-injective _ _ (rw (heap_hazards, e) at h) in
            (
              run,
              shown,
              traverse_objects-Traversed layout.limit heap.run run shown e,
              ap (λ x. x.0) same,
              ap (λ x. x.1) same,
            )
      ]
