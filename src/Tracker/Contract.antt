-- ===== src/Tracker/Contract.antt =====
-- What the objects promise to the loops of src/collector.rs over tracked counters, and what one
-- scan of such a loop then leaves.
use sdarc.Prelude.{
  ℕ, suc, ◌<◌, ◌≤◌, ◌≡◌, ◌≢◌, refl, sym, ◌∙◌, inl, inr, Bool, true, false, Bool-cases, some, arith,
  ◌==◌, ==_iff,
}
use mathlib.Core.Path.{subst₂}
use mathlib.Core.Option.{some-injective}
use sdarc.Outcome.{done}
use sdarc.Collector.{TrackedCounterState, default_state, ready_to_free}
use sdarc.BTree.{get, put}
use sdarc.BTree.Order.{AllFrom}
use sdarc.BTree.Laws.{Ascending, elem, get-put, AllFrom-put}
use sdarc.Tracker.{TrackedCounter, TrackedCounters, Objects, Scanned, is_ready, with_state, visit}

-- `Means k state w` says what the state of the counters at `k` stands for between two iterations,
-- and `Updatable k state w` that `update_state` may be called for them.
pub record Promises {W : Type 0} (objects : Objects W) : Type 1 where
  pub Good : W → Type 0
  pub Means : ℕ → TrackedCounterState → W → Type 0
  pub Updatable : ℕ → TrackedCounterState → W → Type 0
  pub signals :
      (w : W) (hazard : ℕ → Bool) (w' : W)
      → objects.hazards w ≡ some (hazard, w')
      → Good w
      → Good w'
        × ((f : ℕ) (state : TrackedCounterState)
            → is_ready state ≡ false
            → Means (objects.get_counters_ptr f) state w
            → Means (objects.get_counters_ptr f) state w'
              × (hazard f ≡ false → Updatable (objects.get_counters_ptr f) state w'))
  pub reset :
      (k : ℕ) (state : TrackedCounterState) (w : W)
      → is_ready state ≡ false
      → Means k state w
      → Means k default_state w
  pub update :
      (k : ℕ) (state : TrackedCounterState) (w : W)
      → Good w
      → Updatable k state w
      → (state' : TrackedCounterState) × (w' : W) × (objects.update_state k state w
          ≡ done (state', w'))
        × Good w'
        × Means k state' w'
        × ((j : ℕ) (s : TrackedCounterState) → j ≢ k → Means j s w → Means j s w')
        × ((j : ℕ) (s : TrackedCounterState) → j ≢ k → Updatable j s w → Updatable j s w')
  pub freeing :
      (f : ℕ) (w : W)
      → Good w
      → Means (objects.get_counters_ptr f) ready_to_free w
      → Good (objects.free f w).1
        × ((j : ℕ) (s : TrackedCounterState)
            → j ≢ objects.get_counters_ptr f
            → Means j s w
            → Means j s (objects.free f w).1)

module _ {W : Type 0} (objects : Objects W) (promises : Promises objects) where
  open promises use {Good, Means, Updatable}

  -- An entry of the map while the keys from `b` on are still to be visited
  pub record IsEntry (b : ℕ) (hazard : ℕ → Bool) (w : W) (k : ℕ) (counter : TrackedCounter)
      : Type 0 where
    pub own : objects.get_counters_ptr counter.fat_ptr ≡ k
    pub means : Means k counter.state w
    pub waiting : b ≤ k → is_ready counter.state ≡ false
    pub updatable : b ≤ k → hazard counter.fat_ptr ≡ false → Updatable k counter.state w

  pub record IsVisiting (b : ℕ) (hazard : ℕ → Bool) (m : TrackedCounters) (w : W) : Type 0 where
    pub ascending : AllFrom 0 m
    pub good : Good w
    pub entry :
        (k : ℕ) (counter : TrackedCounter) → get k m ≡ some counter → IsEntry b hazard w k counter

  -- What a scan of the keys from `b` on leaves.
  pub record IsScanned (b : ℕ) (m : TrackedCounters) (scan : Scanned W) : Type 0 where
    pub ascending : AllFrom 0 scan.tracked
    pub good : Good scan.world
    pub to_free_ascending : Ascending b scan.to_free
    pub to_re_check_ascending : Ascending b scan.to_re_check
    pub below : (k : ℕ) → k < b → get k scan.tracked ≡ get k m
    pub own :
        (k : ℕ) (counter : TrackedCounter)
        → get k scan.tracked ≡ some counter
        → objects.get_counters_ptr counter.fat_ptr ≡ k
    pub means :
        (k : ℕ) (counter : TrackedCounter)
        → get k scan.tracked ≡ some counter
        → Means k counter.state scan.world
    pub listed :
        (k : ℕ) (counter : TrackedCounter)
        → get k scan.tracked ≡ some counter
        → is_ready counter.state ≡ true
        → b ≤ k
        → elem k scan.to_free ≡ true
    pub ready :
        (k : ℕ)
        → elem k scan.to_free ≡ true
        → (counter : TrackedCounter) × (get k scan.tracked ≡ some counter)
          × (is_ready counter.state ≡ true)

  pub IsEntry-later :
      (b b' : ℕ) (hazard : ℕ → Bool) (w : W) (k : ℕ) (counter : TrackedCounter)
      → b ≤ b'
      → IsEntry b hazard w k counter
      → IsEntry b' hazard w k counter
  IsEntry-later b b' hazard w k counter le e = record {
    own = e.own;
    means = e.means;
    waiting = λ lt. e.waiting (omega arith);
    updatable = λ lt h. e.updatable (omega arith) h;
  }

  -- A visited counter: its state still stands for something, and the others' too.
  pub record IsVisited (k : ℕ) (counter : TrackedCounter) (w : W) (state : TrackedCounterState)
      (w' : W) : Type 0 where
    pub good : Good w'
    pub means : Means k state w'
    pub others : (j : ℕ) (s : TrackedCounterState) → j ≢ k → Means j s w → Means j s w'
    pub others_updatable :
        (j : ℕ) (s : TrackedCounterState) → j ≢ k → Updatable j s w → Updatable j s w'

  pub visit-IsVisited :
      (hazard : ℕ → Bool) (b k : ℕ) (counter : TrackedCounter) (w : W)
      → b ≤ k
      → Good w
      → IsEntry b hazard w k counter
      → (state : TrackedCounterState) × (w' : W) × (visit objects hazard k counter w
          ≡ done (with_state state counter, w'))
        × IsVisited k counter w state w'
  unfolding visit
  visit-IsVisited hazard b k counter w le good e = elim (Bool-cases (hazard counter.fat_ptr)) [
    | inl shown ↦ (
      default_state,
      w,
      rw shown refl,
      record {
        good = good;
        means = promises.reset k counter.state w (e.waiting le) e.means;
        others = λ j s ne x. x;
        others_updatable = λ j s ne x. x;
      },
    )
    | inr hidden ↦
        let (state, w', updated, good', means, others, others_updatable) =
          promises.update k counter.state w good (e.updatable le hidden) in
        (
          state,
          w',
          rw (hidden, updated) refl,
          record {
            good = good';
            means = means;
            others = others;
            others_updatable = others_updatable;
          },
        )
  ]

  -- The map with a visited counter written back
  pub put-IsVisiting :
      (hazard : ℕ → Bool) (b k : ℕ) (counter : TrackedCounter) (m : TrackedCounters) (w : W)
      (state : TrackedCounterState) (w' : W)
      → b ≤ k
      → get k m ≡ some counter
      → IsVisiting b hazard m w
      → IsVisited k counter w state w'
      → IsVisiting (suc k) hazard (put k (with_state state counter) m) w'
  put-IsVisiting hazard b k counter m w state w' le found v new = record {
    ascending = AllFrom-put 0 k _ m v.ascending;
    good = new.good;
    entry = λ j c h. elim (Bool-cases (j == k)) [
      | inl here ↦
          let same : j ≡ k = (==_iff j k).0 here in
          let is : with_state state counter ≡ c =
            some-injective _ _
              (rw here at (sym (get-put j k (with_state state counter) m found) ∙ h)) in
          subst₂ (IsEntry (suc k) hazard w') (sym same) is (record {
            own = (v.entry k counter found).own;
            means = new.means;
            waiting = λ lt. absurd (omega arith);
            updatable = λ lt. absurd (omega arith);
          })
      | inr there ↦
          let e =
            v.entry j c (rw there at (sym (get-put j k (with_state state counter) m found) ∙ h)) in
          let ne : j ≢ k = λ same. ground arith in
          record {
            own = e.own;
            means = new.others j c.state ne e.means;
            waiting = λ lt. e.waiting (omega arith);
            updatable =
                λ lt hidden. new.others_updatable j c.state ne (e.updatable (omega arith) hidden);
          }
    ];
  }
