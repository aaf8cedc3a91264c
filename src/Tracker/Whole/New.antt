-- ===== src/Tracker/Whole/New.antt =====
-- `take_new_counters_to_track` of src/collector.rs on counters that are new.
use sdarc.Prelude.{
  ℕ, ◌≡◌, refl, sym, ◌∙◌, inl, inr, false, Bool-cases, Option-cases, List, [], ◌∷◌, ◌++◌, none,
  some, if◌then◌else◌, arith, ◌==◌, ==_iff,
}
use mathlib.Core.Path.{subst₂}
use mathlib.Core.Option.{some-injective}
use sdarc.Outcome.{done, ◌>>=◌, >>=-ext}
use sdarc.Collector.{default_state}
use sdarc.BTree.{insert, get}
use sdarc.BTree.Order.{AllFrom}
use sdarc.BTree.Laws.{insert-get, get-insert, AllFrom-insert}
use sdarc.Tracker.{
  TrackedCounter, TrackedCounters, CollectorThreadState, track_taken, take_new_counters_to_track,
}
use sdarc.Tracker.Heap.{Heap, Layout}
use sdarc.Tracker.Stands.{Stands}
use sdarc.Tracker.Pending.{listed_in}
use sdarc.Tracker.Whole.Frees.{IsTracked, IsSound}

-- What the lists of all the shards hold
abbrev pub all_pending : List (List (ℕ × ℕ)) → List (ℕ × ℕ)
all_pending [] = []
all_pending (pending ∷ shards) = pending ++ all_pending shards

-- The taken counters are in the map, with the default state.
abbrev pub AllAdded : List (ℕ × ℕ) → TrackedCounters → Type 0
AllAdded [] tracked = Unit
AllAdded ((fat_ptr, p) ∷ taken) tracked =
    (get p tracked ≡ some (record { fat_ptr = fat_ptr; state = default_state }))
    × AllAdded taken tracked

module _ (layout : Layout) where
  -- The pending counters: each is its own object's, is tracked nowhere yet, and is listed once.
  abbrev pub IsNew : Heap → TrackedCounters → List (ℕ × ℕ) → Type 0
  IsNew heap tracked [] = Unit
  IsNew heap tracked ((fat_ptr, p) ∷ taken) =
      (layout.get_counters_ptr fat_ptr ≡ p)
      × Stands layout p default_state heap
      × (get p tracked ≡ none)
      × (listed_in p taken ≡ false)
      × IsNew heap tracked taken

  IsNew-insert :
      (heap : Heap) (tracked : TrackedCounters) (p : ℕ) (counter : TrackedCounter)
      (taken : List (ℕ × ℕ))
      → AllFrom 0 tracked
      → listed_in p taken ≡ false
      → IsNew heap tracked taken
      → IsNew heap (insert p counter tracked).1 taken
  IsNew-insert heap tracked p counter [] a once v = tt
  IsNew-insert heap tracked p counter ((fat_ptr, q) ∷ taken) a once v =
      let differs : (q == p) ≡ false = ground arith in
      let later : listed_in p taken ≡ false = ground arith in
      (
        v.0,
        v.1,
        get-insert 0 q p counter tracked a ∙ rw differs v.2,
        v.3,
        IsNew-insert heap tracked p counter taken a later v.4,
      )

  -- `tracked'` is the map with the taken counters in the default state, and without other changes.
  pub record IsTaken (taken : List (ℕ × ℕ)) (tracked tracked' : TrackedCounters) : Type 0 where
    pub added : AllAdded taken tracked'
    pub others : (p : ℕ) → listed_in p taken ≡ false → get p tracked' ≡ get p tracked

  pub track_taken-IsSound :
      (taken : List (ℕ × ℕ)) (s : CollectorThreadState Heap)
      → IsNew s.world s.tracked_counters taken
      → IsSound layout s
      → (tracked : TrackedCounters) × (track_taken taken s.tracked_counters ≡ done tracked)
        × IsTaken taken s.tracked_counters tracked
        × IsSound layout (record s { tracked_counters = tracked })
  unfolding track_taken
  track_taken-IsSound [] s new v =
      (s.tracked_counters, refl, record { added = tt; others = λ p h. refl }, v)
  track_taken-IsSound ((fat_ptr, p) ∷ taken) s new v =
      let (own, stands, missing, once, rest) = new in
      let counter : TrackedCounter = record { fat_ptr = fat_ptr; state = default_state } in
      let tracked1 : TrackedCounters = (insert p counter s.tracked_counters).1 in
      let first = insert-get 0 p counter s.tracked_counters v.ascending ∙ missing in
      let got : (k : ℕ)
          → get k tracked1 ≡ (if k == p then some counter else get k s.tracked_counters) =
        λ k. get-insert 0 k p counter s.tracked_counters v.ascending in
      let (tracked, e, all, sound) =
        track_taken-IsSound taken (record s { tracked_counters = tracked1 })
          (IsNew-insert s.world s.tracked_counters p counter taken v.ascending once rest)
          (record {
            ascending = AllFrom-insert 0 p counter s.tracked_counters (omega arith) v.ascending;
            pending = v.pending;
            tracked = λ k c h.
                let now = sym (got k) ∙ h in
                elim (Bool-cases (k == p)) [
                  | inl here ↦
                      let same : k ≡ p = (==_iff k p).0 here in
                      let is : counter ≡ c = some-injective _ _ (rw here at now) in
                      subst₂ (IsTracked layout s.world) (sym same) is
                        (record { own = own; waits = refl; stands = stands })
                  | inr there ↦ v.tracked k c (rw there at now)
                ];
            freed_dead = v.freed_dead;
          }) in
      (
        tracked,
        rw (first, track_taken) e,
        record {
          added = (all.others p once ∙ got p ∙ rw ((==_iff p p).1 refl) refl, all.added);
          others = λ k absent.
              let other : (k == p) ≡ false = ground (arith, absent) in
              let later : listed_in k taken ≡ false = ground (arith, absent) in
              all.others k later ∙ got k ∙ rw other refl;
        },
        sound,
      )

  track_taken-append :
      (taken taken' : List (ℕ × ℕ)) (m : TrackedCounters)
      → track_taken (taken ++ taken') m ≡ (track_taken taken m >>= track_taken taken')
  unfolding track_taken
  track_taken-append [] taken' m = refl
  track_taken-append ((fat_ptr, p) ∷ taken) taken' m =
      let counter : TrackedCounter = record { fat_ptr = fat_ptr; state = default_state } in
      elim (Option-cases (insert p counter m).0) [
        | inl fresh ↦
            rw (track_taken, fresh) (track_taken-append taken taken' (insert p counter m).1)
        | inr (old, replaced) ↦ rw (track_taken, replaced) refl
      ]

  take_new_counters_to_track-eq :
      (shards : List (List (ℕ × ℕ))) (m : TrackedCounters)
      → take_new_counters_to_track shards m ≡ track_taken (all_pending shards) m
  unfolding take_new_counters_to_track track_taken
  take_new_counters_to_track-eq [] m = refl
  take_new_counters_to_track-eq (taken ∷ shards) m =
      >>=-ext (track_taken taken m) (take_new_counters_to_track shards)
        (track_taken (all_pending shards)) (take_new_counters_to_track-eq shards)
      ∙ sym (track_taken-append taken (all_pending shards) m)

  -- The pending counters of all shards, when each is its own object's, is not tracked yet and is
  -- pending once, are all taken without a panic: afterwards each of them is tracked, with its object
  -- and the default state, the other counters are tracked as before, and what is true of the tracked
  -- counters stays true.
  pub take_new_counters_to_track-IsSound :
      (shards : List (List (ℕ × ℕ))) (s : CollectorThreadState Heap)
      → IsNew s.world s.tracked_counters (all_pending shards)
      → IsSound layout s
      → (tracked : TrackedCounters) × (take_new_counters_to_track shards s.tracked_counters
          ≡ done tracked)
        × IsTaken (all_pending shards) s.tracked_counters tracked
        × IsSound layout (record s { tracked_counters = tracked })
  take_new_counters_to_track-IsSound shards s new v =
      let (tracked, e, all, sound) = track_taken-IsSound (all_pending shards) s new v in
      (tracked, take_new_counters_to_track-eq shards s.tracked_counters ∙ e, all, sound)
