-- ===== src/Tracker/Whole/Taken.antt =====
-- One shard's pending list of src/collector.rs is taken, and those of the others stay new.
use sdarc.Prelude.{
  ℕ, zero, suc, ◌≡◌, refl, sym, ap, ◌∙◌, inl, inr, true, false, ◌||◌, Bool-cases, List, [], ◌∷◌,
  ◌++◌, ◌==◌, ==_iff, arith,
}
use mathlib.Core.Path.{subst}
use mathlib.Core.List.{append_assoc}
use sdarc.Outcome.{done}
use sdarc.Tracker.{TrackedCounters, CollectorThreadState, take_pending, track_taken}
use sdarc.Tracker.Heap.{Heap, Layout}
use sdarc.Tracker.Pending.{listed_in}
use sdarc.Tracker.Whole.Frees.{IsSound}
use sdarc.Tracker.Whole.New.{IsNew, IsTaken, all_pending, track_taken-IsSound}

listed_in-append :
    (p : ℕ) (a b : List (ℕ × ℕ)) → listed_in p (a ++ b) ≡ (listed_in p a || listed_in p b)
listed_in-append p [] b = refl
listed_in-append p ((f, q) ∷ a) b = elim (Bool-cases (p == q)) [
  | inl here ↦ rw here refl
  | inr there ↦ rw there (listed_in-append p a b)
]

-- No counters are in both lists.
abbrev pub Apart : List (ℕ × ℕ) → List (ℕ × ℕ) → Type 0
Apart a b = (p : ℕ) → listed_in p a ≡ true → listed_in p b ≡ false

pub take_pending-split :
    (k : ℕ) (shards : List (List (ℕ × ℕ)))
    → let (taken, shards') = take_pending k shards in
      (a b : List (ℕ × ℕ)) × (all_pending shards ≡ a ++ (taken ++ b))
      × (all_pending shards' ≡ a ++ b)
unfolding take_pending
take_pending-split k [] = ([], [], refl, refl)
take_pending-split zero (pending ∷ shards) = ([], all_pending shards, refl, refl)
take_pending-split (suc k) (pending ∷ shards) =
    let (a, b, before, after) = take_pending-split k shards in
    (
      pending ++ a,
      b,
      ap (λ x. pending ++ x) before ∙ sym (append_assoc pending a _),
      ap (λ x. pending ++ x) after ∙ sym (append_assoc pending a b),
    )

module _ (layout : Layout) where
  IsNew-split :
      (heap : Heap) (m : TrackedCounters) (a b : List (ℕ × ℕ))
      → IsNew layout heap m (a ++ b)
      → IsNew layout heap m a × IsNew layout heap m b × Apart a b
  IsNew-split heap m [] b v = (tt, v, λ p h. cc)
  IsNew-split heap m ((f, q) ∷ a) b v =
      let (left, right, apart) = IsNew-split heap m a b v.4 in
      let once : (listed_in q a || listed_in q b) ≡ false = sym (listed_in-append q a b) ∙ v.3 in
      (
        (v.0, v.1, v.2, ground (arith, once), left),
        right,
        λ p h. elim (Bool-cases (p == q)) [
          | inl here ↦ let same : p ≡ q = (==_iff p q).0 here in rw same (ground (arith, once))
          | inr there ↦ apart p (rw there at h)
        ],
      )

  IsNew-join :
      (heap : Heap) (m : TrackedCounters) (a b : List (ℕ × ℕ))
      → IsNew layout heap m a
      → IsNew layout heap m b
      → Apart a b
      → IsNew layout heap m (a ++ b)
  IsNew-join heap m [] b v w apart = w
  IsNew-join heap m ((f, q) ∷ a) b v w apart = (
    v.0,
    v.1,
    v.2,
    listed_in-append q a b ∙ rw (v.3, apart q (ground arith)) refl,
    IsNew-join heap m a b v.4 w (λ p h. apart p (ground (arith, h))),
  )

  IsNew-taken :
      (heap : Heap) (m m' : TrackedCounters) (taken l : List (ℕ × ℕ))
      → IsTaken layout taken m m'
      → Apart l taken
      → IsNew layout heap m l
      → IsNew layout heap m' l
  IsNew-taken heap m m' taken [] is apart v = tt
  IsNew-taken heap m m' taken ((f, p) ∷ l) is apart v = (
    v.0,
    v.1,
    is.others p (apart p (ground arith)) ∙ v.2,
    v.3,
    IsNew-taken heap m m' taken l is (λ q h. apart q (ground (arith, h))) v.4,
  )

  Apart-sym : (a b : List (ℕ × ℕ)) → Apart a b → Apart b a
  Apart-sym a b apart p h = elim (Bool-cases (listed_in p a)) [
    | inl is ↦ cc (apart p is)
    | inr not_so ↦ not_so
  ]

  -- One turn of the loop in `take_new_counters_to_track`: the counters that were pending at the
  -- shard are tracked, and the rest are new to the map with these.
  pub take_pending-IsNew :
      (k : ℕ) (shards : List (List (ℕ × ℕ))) (s : CollectorThreadState Heap)
      → IsNew layout s.world s.tracked_counters (all_pending shards)
      → IsSound layout s
      → let (taken, shards') = take_pending k shards in
        (tracked : TrackedCounters) × (track_taken taken s.tracked_counters ≡ done tracked)
        × IsTaken layout taken s.tracked_counters tracked
        × IsSound layout (record s { tracked_counters = tracked })
        × IsNew layout s.world tracked (all_pending shards')
  take_pending-IsNew k shards s new v =
      let taken = (take_pending k shards).0 in
      let (a, b, before, after) = take_pending-split k shards in
      let (left, rest, apart) =
        IsNew-split s.world s.tracked_counters a (taken ++ b)
          (subst (IsNew layout s.world s.tracked_counters) before new) in
      let (mid, right, apart') = IsNew-split s.world s.tracked_counters taken b rest in
      let (tracked, e, all, sound) = track_taken-IsSound layout taken s mid v in
      let away : (p : ℕ) → listed_in p a ≡ true → (listed_in p taken || listed_in p b) ≡ false =
        λ p h. sym (listed_in-append p taken b) ∙ apart p h in
      (
        tracked,
        e,
        all,
        sound,
        subst (IsNew layout s.world tracked) (sym after) (
            IsNew-join s.world tracked a b
              (IsNew-taken s.world s.tracked_counters tracked taken a all
                (λ p h. ground (arith, away p h)) left)
              (IsNew-taken s.world s.tracked_counters tracked taken b all (Apart-sym taken b apart')
                right)
              (λ p h. ground (arith, away p h))),
      )
