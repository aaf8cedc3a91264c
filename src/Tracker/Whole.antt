-- ===== src/Tracker/Whole.antt =====
-- The loops of src/collector.rs over tracked counters, together with the objects behind them.
pub mod Frees
pub mod New
pub mod Pending
pub mod Taken
pub mod Tests
use sdarc.Prelude.{ℕ, ◌<◌, ◌≡◌, ◌≢◌, refl, sym, inl, inr, Bool-cases, List, [], ◌∷◌, ◌==◌, ==_iff}
use mathlib.Core.Path.{subst}
use sdarc.Outcome.{done, Outcome-cases}
use sdarc.Object.{Config, drop, update}
use sdarc.Collector.{Run, TrackedCounterState, update_state}
use sdarc.Collector.Schedule.{PlainFuture}
use sdarc.Collector.States.{Means, Sound}
use sdarc.Collector.Safety.{Means-IsBalanced}
use sdarc.Tracker.Contract.{Promises}
use sdarc.Tracker.Heap.{Heap, Layout, heap_update_state, drop_children, heap_free, heap_objects}
use sdarc.Tracker.Stands.{
  AllDead, Stands, apply-Means, update-other, update-here, not_ready_to_free,
  traverse_objects-Stands, heap_hazards-Traversed,
}

module _ (layout : Layout) where
  abbrev c : Config
  c = layout.config

  -- `update_state` of one object leaves the others alone.
  heap_update_state-Stands :
      (k : ℕ) (state : TrackedCounterState) (heap : Heap)
      → k < layout.limit
      → Sound c (update_state c state (heap.run k))
      → (state' : TrackedCounterState) × (r : Run) × (heap_update_state layout k state heap
          ≡ done (state', record heap { run = update heap.run k r }))
        × Stands layout k state' (record heap { run = update heap.run k r })
  unfolding heap_update_state
  heap_update_state-Stands k state heap lt sound =
      elim (Outcome-cases (update_state c state (heap.run k))) [
        | inl panics ↦ absurd (rw panics at sound)
        | inr ((state', r), e) ↦
            let (means, plain) : Means c state' r.object × PlainFuture r.future = rw e at sound in
            let here = update-here heap.run k r in
            (
              state',
              r,
              rw (heap_update_state, e) refl,
              record {
                inside = lt;
                means = subst (λ x. Means c state' x.object) (sym here) means;
                plain = subst (λ x. PlainFuture x.future) (sym here) plain;
              },
            )
      ]

  drop_children-Stands :
      (children : List (ℕ × ℕ)) (k : ℕ) (state : TrackedCounterState) (run : ℕ → Run)
      → Means c state (run k).object × PlainFuture (run k).future
      → let run' = drop_children layout children run in
        Means c state (run' k).object × PlainFuture (run' k).future
  unfolding drop_children
  drop_children-Stands [] k state run v = v
  drop_children-Stands ((p, i) ∷ rest) k state run v =
      drop_children-Stands rest k state _ (elim (Bool-cases (p == k)) [
        | inl here ↦
            let same : p ≡ k = (==_iff p k).0 here in
            rw (here, same) (apply-Means c state (drop i) (run k).object tt v.0, v.1)
        | inr there ↦ rw there v
      ])

  pub Stands-other :
      (k j : ℕ) (r : Run) (state : TrackedCounterState) (heap : Heap)
      → j ≢ k
      → Stands layout j state heap
      → Stands layout j state (record heap { run = update heap.run k r })
  Stands-other k j r state heap ne v =
      let same = sym (update-other heap.run k j r ne) in
      record {
        inside = v.inside;
        means = subst (λ x. Means c state x.object) same v.means;
        plain = subst (λ x. PlainFuture x.future) same v.plain;
      }

  -- `update_state` may be called for the counters at `k`.
  CanUpdate : ℕ → TrackedCounterState → Heap → Type 0
  CanUpdate k state heap = (k < layout.limit) × Sound c (update_state c state (heap.run k))

  CanUpdate-other :
      (k j : ℕ) (r : Run) (state : TrackedCounterState) (heap : Heap)
      → j ≢ k
      → CanUpdate j state heap
      → CanUpdate j state (record heap { run = update heap.run k r })
  unfolding CanUpdate
  CanUpdate-other k j r state heap ne v = (
    v.0,
    subst (λ x. Sound c (update_state c state x)) (sym (update-other heap.run k j r ne)) v.1,
  )

  -- The objects keep what the loops over them rely on.
  pub heap_promises : Promises (heap_objects layout)
  unfolding heap_free CanUpdate
  heap_promises = record {
    Good = λ heap. AllDead c heap.freed;
    Means = Stands layout;
    Updatable = CanUpdate;
    signals = λ heap hazard heap' h good.
        let (run, shown, t, same_hazard, same_heap) =
          heap_hazards-Traversed layout heap hazard heap' h in
        rw (← same_heap, ← same_hazard)
          (
            good,
            λ f state waits v.
                let (stands, can) =
                  traverse_objects-Stands layout (layout.get_counters_ptr f) state heap run shown t
                    waits v in
                (stands, λ hidden. (v.inside, can hidden)),
          );
    reset = λ k state heap waits v. record {
      inside = v.inside;
      means = Means-IsBalanced c state (heap.run k).object (not_ready_to_free state waits) v.means;
      plain = v.plain;
    };
    update = λ k state heap good v.
        let (state', r, e, stands) = heap_update_state-Stands k state heap v.0 v.1 in
        (
          state',
          record heap { run = update heap.run k r },
          e,
          good,
          stands,
          (λ j s ne x. Stands-other k j r s heap ne x),
          (λ j s ne x. CanUpdate-other k j r s heap ne x),
        );
    freeing = λ f heap good v. (
      (v.means, good),
      λ j s ne x.
          let (means, plain) =
            drop_children-Stands (layout.drops f) j s heap.run (x.means, x.plain) in
          record { inside = x.inside; means = means; plain = plain },
    );
  }
