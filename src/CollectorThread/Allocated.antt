-- ===== src/CollectorThread/Allocated.antt =====
-- `Sdarc::new` of src/sdarc.rs in another thread, while the collector of src/collector.rs runs.
use sdarc.Prelude.{
  ℕ, zero, suc, ◌<◌, ◌≡◌, ◌≢◌, refl, sym, ap, ◌∙◌, false, List, [], ◌∷◌, ◌++◌, none, arith, length,
  ◌==◌,
}
use sdarc.Prelude.Int.{pos, int_laws}
use mathlib.Core.Path.{subst}
use mathlib.Core.List.{append_assoc}
use sdarc.Cell
use sdarc.Object.{Action, Reader, update}
use sdarc.Object.Totals.{total, total_step, update_self, update_ne}
use sdarc.BTree.{get}
use sdarc.Collector.{Run, default_state}
use sdarc.Collector.Schedule.{PlainFuture, IsBalanced}
use sdarc.Outcome.{Outcome, done, ◌>>=◌}
use sdarc.Object.Accounts.{counts}
use sdarc.Tracker.{TrackedCounters, CollectorThreadState, on_new_sdarc_allocated}
use sdarc.Tracker.Heap.{Heap, Layout, new_object}
use sdarc.Tracker.Stands.{Stands}
use sdarc.Tracker.Whole.{Stands-other}
use sdarc.Tracker.Pending.{listed_in}
use sdarc.Tracker.Whole.Frees.{IsSound}
use sdarc.Tracker.Whole.New.{IsNew, all_pending}
use sdarc.CollectorThread.{Collected}
use sdarc.CollectorThread.Whole.{IsWhole}

-- The first schedule of a new object is `future`.
abbrev pub placed : ℕ → ℕ → (ℕ → Reader) → List (List Action) → Heap → Heap
placed i k reader future heap = record heap {
  run = update heap.run k (record { object = new_object i reader; future = future });
}

abbrev pub with_new_object :
    ℕ
    → ℕ
    → (ℕ → Reader)
    → List (List Action)
    → List (List (ℕ × ℕ))
    → Collected Heap
    → Collected Heap
with_new_object i k reader future shards s = record s {
  pending_to_track = shards;
  thread_state = record (s.thread_state) {
    world = placed i k reader future (s.thread_state).world;
  };
}

-- `Sdarc::new` with its counters at `k`: the new object, and `on_new_sdarc_allocated` at the shard
-- `j` that is current then
unfoldable pub new_tracked_sdarc :
    ℕ → ℕ → ℕ → ℕ → (ℕ → Reader) → List (List Action) → Collected Heap → Outcome (Collected Heap)
new_tracked_sdarc i j fat_ptr k reader future s =
    on_new_sdarc_allocated j fat_ptr k s.pending_to_track >>= λ shards.
    done (with_new_object i k reader future shards s)

zeros : (shards : ℕ) → total shards (λ _. pos 0) ≡ pos 0
unfolding total
zeros zero = refl
zeros (suc n) = rw (zeros n) (omega int_laws)

new_object-counted :
    (shards i : ℕ) (reader : ℕ → Reader)
    → i < shards
    → total shards (counts (new_object i reader)) ≡ pos 1
unfolding new_object
new_object-counted shards i reader lt =
    total_step shards i (λ _. pos 0) _ (pos 1) lt
      (ap (λ x. x.count) (update_self (λ (_ : ℕ). Cell.fresh) i (Cell.increment Cell.fresh)))
      (λ j ne.
        ap (λ x. x.count)
          (update_ne (λ (_ : ℕ). Cell.fresh) i j (Cell.increment Cell.fresh) (λ e. ne (sym e))))
    ∙ rw (zeros shards) (omega int_laws)

new_object-IsBalanced :
    (shards readers i : ℕ) (reader : ℕ → Reader)
    → i < shards
    → IsBalanced (record { shards = shards; readers = readers }) (new_object i reader)
unfolding new_object
new_object-IsBalanced shards readers i reader lt = record {
  accounted = new_object-counted shards i reader lt;
  none_pinned = record { none_pinned = refl };
}

-- Where the new counters are among the pending ones
pending-split :
    (j fat_ptr k : ℕ) (shards : List (List (ℕ × ℕ)))
    → j < length shards
    → (shards' : List (List (ℕ × ℕ))) × (on_new_sdarc_allocated j fat_ptr k shards ≡ done shards')
      × (a : List (ℕ × ℕ)) × (b : List (ℕ × ℕ)) × (all_pending shards ≡ a ++ b)
      × (all_pending shards' ≡ a ++ (fat_ptr, k) ∷ b)
unfolding on_new_sdarc_allocated
pending-split j fat_ptr k [] lt = absurd (omega arith)
pending-split zero fat_ptr k (pending ∷ shards) lt = (
  (pending ++ (fat_ptr, k) ∷ []) ∷ shards,
  refl,
  pending,
  all_pending shards,
  refl,
  append_assoc pending ((fat_ptr, k) ∷ []) (all_pending shards),
)
pending-split (suc j) fat_ptr k (pending ∷ shards) lt =
    let (shards', e, a, b, before, after) = pending-split j fat_ptr k shards (omega arith) in
    (
      pending ∷ shards',
      rw e refl,
      pending ++ a,
      b,
      ap (λ x. pending ++ x) before ∙ sym (append_assoc pending a b),
      ap (λ x. pending ++ x) after ∙ sym (append_assoc pending a ((fat_ptr, k) ∷ b)),
    )

module _ (layout : Layout) where
  -- Another object is placed at an address that is not pending.
  IsNew-placed :
      (k : ℕ) (r : Run) (heap : Heap) (tracked : TrackedCounters) (taken : List (ℕ × ℕ))
      → listed_in k taken ≡ false
      → IsNew layout heap tracked taken
      → IsNew layout (record heap { run = update heap.run k r }) tracked taken
  IsNew-placed k r heap tracked [] absent v = tt
  IsNew-placed k r heap tracked ((fat_ptr, p) ∷ taken) absent v =
      let ne : p ≢ k = λ e. ground arith in
      let later : listed_in k taken ≡ false = ground arith in
      (
        v.0,
        Stands-other layout k p r default_state heap ne v.1,
        v.2,
        v.3,
        IsNew-placed k r heap tracked taken later v.4,
      )

  elem-among :
      (p fat_ptr k : ℕ) (a b : List (ℕ × ℕ))
      → (p == k) ≡ false
      → listed_in p (a ++ b) ≡ false
      → listed_in p (a ++ (fat_ptr, k) ∷ b) ≡ false
  elem-among p fat_ptr k [] b ne h = rw (ne, h) refl
  elem-among p fat_ptr k ((f, q) ∷ a) b ne h =
      let later : listed_in p (a ++ b) ≡ false = ground arith in
      let differs : (p == q) ≡ false = ground arith in
      rw differs (elem-among p fat_ptr k a b ne later)

  IsNew-among :
      (fat_ptr k : ℕ) (heap : Heap) (tracked : TrackedCounters) (a b : List (ℕ × ℕ))
      → layout.get_counters_ptr fat_ptr ≡ k
      → Stands layout k default_state heap
      → get k tracked ≡ none
      → listed_in k (a ++ b) ≡ false
      → IsNew layout heap tracked (a ++ b)
      → IsNew layout heap tracked (a ++ (fat_ptr, k) ∷ b)
  IsNew-among fat_ptr k heap tracked [] b own stands missing once v =
      (own, stands, missing, once, v)
  IsNew-among fat_ptr k heap tracked ((f, q) ∷ a) b own stands missing once v =
      let differs : (q == k) ≡ false = ground arith in
      let later : listed_in k (a ++ b) ≡ false = ground arith in
      (
        v.0,
        v.1,
        v.2,
        elem-among q fat_ptr k a b differs v.3,
        IsNew-among fat_ptr k heap tracked a b own stands missing later v.4,
      )

  IsSound-placed :
      (k : ℕ) (r : Run) (s : CollectorThreadState Heap)
      → get k s.tracked_counters ≡ none
      → IsSound layout s
      → IsSound layout (record s { world = record (s.world) { run = update (s.world).run k r } })
  IsSound-placed k r s missing v = record {
    ascending = v.ascending;
    pending = v.pending;
    tracked = λ j counter h.
        let t = v.tracked j counter h in
        let ne : j ≢ k = λ e. cc (ap (λ x. get x s.tracked_counters) e) in
        record {
          own = t.own;
          waits = t.waits;
          stands = Stands-other layout k j r counter.state s.world ne t.stands;
        };
    freed_dead = v.freed_dead;
  }

  -- `Sdarc::new` in another thread, between any two parts of an outer iteration or when there is
  -- none: its counters are at a place that is neither tracked nor pending, and the others then do to
  -- the new object anything but the exchange of a `raw_compare_and_set`. It does not panic. The new
  -- object's counters add up to one and are pending with it, all that was pending still is, the
  -- tracked counters are the same, and everything that holds of the collector's state still holds.
  pub new_tracked_sdarc-IsWhole :
      (i j fat_ptr k : ℕ) (reader : ℕ → Reader) (future : List (List Action)) (s : Collected Heap)
      → i < (layout.config).shards
      → j < length s.pending_to_track
      → k < layout.limit
      → layout.get_counters_ptr fat_ptr ≡ k
      → get k (s.thread_state).tracked_counters ≡ none
      → listed_in k (all_pending s.pending_to_track) ≡ false
      → PlainFuture future
      → IsWhole layout s
      → (s' : Collected Heap) × (new_tracked_sdarc i j fat_ptr k reader future s ≡ done s')
        × IsWhole layout s'
        × ((a : List (ℕ × ℕ)) × (b : List (ℕ × ℕ)) × (all_pending s.pending_to_track ≡ a ++ b)
            × (all_pending s'.pending_to_track ≡ a ++ (fat_ptr, k) ∷ b))
        × (total (layout.config).shards (counts ((s'.thread_state).world.run k).object) ≡ pos 1)
        × ((s'.thread_state).tracked_counters ≡ (s.thread_state).tracked_counters)
  unfolding new_tracked_sdarc
  new_tracked_sdarc-IsWhole i j fat_ptr k reader future s lt shard inside own missing absent plain
        v =
      let r : Run = record { object = new_object i reader; future = future } in
      let heap = placed i k reader future (s.thread_state).world in
      let here : update ((s.thread_state).world).run k r k ≡ r =
        update_self ((s.thread_state).world).run k r in
      let balanced =
        new_object-IsBalanced (layout.config).shards (layout.config).readers i reader lt in
      let stands : Stands layout k default_state heap = record {
        inside = inside;
        means = subst (λ x. IsBalanced layout.config x.object) (sym here) balanced;
        plain = subst (λ x. PlainFuture x.future) (sym here) plain;
      } in
      let others =
        IsNew-placed k r (s.thread_state).world (s.thread_state).tracked_counters
          (all_pending s.pending_to_track) absent v.new in
      let tracked = (s.thread_state).tracked_counters in
      let (shards', pushed, a, b, before, after) =
        pending-split j fat_ptr k s.pending_to_track shard in
      (
        with_new_object i k reader future shards' s,
        rw pushed refl,
        record {
          sound = IsSound-placed k r s.thread_state missing v.sound;
          new = subst (IsNew layout heap tracked) (sym after) (
              IsNew-among fat_ptr k heap tracked a b own stands missing
                (subst (λ x. listed_in k x ≡ false) before absent)
                (subst (IsNew layout heap tracked) before others));
          alloc = v.alloc;
          staged = v.staged;
        },
        (a, b, before, after),
        subst (λ x. total (layout.config).shards (counts x.object) ≡ pos 1) (sym here)
            (new_object-counted (layout.config).shards i reader lt),
        refl,
      )
