-- ===== src/Tracker/Deep.antt =====
-- The inner iterations of src/collector.rs, the deep collection included, when the objects keep
-- what they promise.
use sdarc.Prelude.{
  ℕ, zero, suc, ◌≡◌, sym, inl, inr, Bool, true, false, Option-cases, Bool-cases, if◌then◌else◌,
  List, [], ◌∷◌, some, arith,
}
use mathlib.Core.Path.{subst}
use sdarc.Outcome.{done, Keeps, and_then-Keeps}
use sdarc.BTree.Order.{keys}
use sdarc.BTree.Laws.{Ascending, Ascending-extend, keys-Ascending}
use sdarc.Tracker.{
  Objects, CollectorThreadState, after_scan, is_ready, update_all_tracked_counters,
  update_specific_counters, deep_loop, do_collection_inner_iterations,
}
use sdarc.Tracker.Iteration.{update_specific_counters-eq}
use sdarc.Tracker.Contract.{Promises, IsVisiting}
use sdarc.Tracker.Scanning.{scan_specific-IsScanned}
use sdarc.Tracker.Freeing.{IsFreeing, free_pointers-IsFreeing}
use sdarc.Tracker.Specific.{update_all_tracked_counters-update_specific_counters}

module _ {W : Type 0} (objects : Objects W) (promises : Promises objects) where
  -- Between two iterations: the tracked counters stand for what their objects say, and none is
  -- ready to free.
  abbrev pub IsCollecting : CollectorThreadState W → Type 0
  IsCollecting s = IsFreeing objects promises [] s

  -- The counters to visit next are a set.
  abbrev pub IsNext : List ℕ × CollectorThreadState W → Type 0
  IsNext r = Ascending 0 r.0 × IsCollecting r.1

  IsVisiting-start :
      (s : CollectorThreadState W) {hazard : ℕ → Bool} {world : W}
      → objects.hazards s.world ≡ some (hazard, world)
      → IsCollecting s
      → IsVisiting objects promises 0 hazard s.tracked_counters world
  IsVisiting-start s {hazard} {world} signals v =
      let (good, settled) = promises.signals s.world hazard world signals v.good in
      record {
        ascending = v.ascending;
        good = good;
        entry = λ k counter h.
            let own = v.own k counter h in
            let waits : is_ready counter.state ≡ false =
              elim (Bool-cases (is_ready counter.state)) [
                | inl is ↦ absurd (ground (arith, v.listed k counter h is))
                | inr not_so ↦ not_so
              ] in
            let (means, updatable) = settled counter.fat_ptr counter.state waits (
              subst (λ j. promises.Means j counter.state s.world) (sym own)
                (v.means k counter h)) in
            record {
              own = own;
              means = subst (λ j. promises.Means j counter.state world) own means;
              waiting = λ _. waits;
              updatable = λ _ hidden.
                  subst (λ j. promises.Updatable j counter.state world) own (updatable hidden);
            };
      }

  pub update_specific_counters-IsNext :
      (old : List ℕ) (s : CollectorThreadState W)
      → Ascending 0 old
      → IsCollecting s
      → Keeps IsNext (update_specific_counters objects old s)
  unfolding update_specific_counters
  update_specific_counters-IsNext old s a v = elim (Option-cases (objects.hazards s.world)) [
    | inl missing ↦ rw (update_specific_counters, missing) tt
    | inr ((hazard, world), signals) ↦
        let (scan, e, is) =
          scan_specific-IsScanned objects promises hazard 0 old s.tracked_counters world a
            (IsVisiting-start s signals v) in
        let (s', frees, left) =
          free_pointers-IsFreeing objects promises 0 scan.to_free (after_scan objects s scan)
            is.to_free_ascending
            (record {
              ascending = is.ascending;
              good = is.good;
              own = is.own;
              means = is.means;
              listed = λ k counter h r. is.listed k counter h r (omega arith);
              ready = is.ready;
              pending = v.pending;
            }) in
        rw (update_specific_counters-eq objects old s signals, e, frees)
          (
            Ascending-extend s'.counters_to_recheck scan.to_re_check is.to_re_check_ascending,
            record {
              ascending = left.ascending;
              good = left.good;
              own = left.own;
              means = left.means;
              listed = left.listed;
              ready = left.ready;
              pending = tt;
            },
          )
  ]

  pub update_all_tracked_counters-IsNext :
      (s : CollectorThreadState W)
      → IsCollecting s
      → Keeps IsNext (update_all_tracked_counters objects s)
  update_all_tracked_counters-IsNext s v =
      subst (Keeps IsNext)
        (sym (update_all_tracked_counters-update_specific_counters objects s v.ascending))
        (update_specific_counters-IsNext (keys s.tracked_counters) s
          (keys-Ascending 0 s.tracked_counters v.ascending) v)

  deep_loop-IsCollecting :
      (turns : ℕ) (to_re_check : List ℕ) (s : CollectorThreadState W)
      → Ascending 0 to_re_check
      → IsCollecting s
      → Keeps IsCollecting (deep_loop objects turns to_re_check s)
  unfolding deep_loop
  deep_loop-IsCollecting zero to_re_check s a v = v
  deep_loop-IsCollecting (suc turns) [] s a v = v
  deep_loop-IsCollecting (suc turns) (p ∷ rest) s a v =
      and_then-Keeps IsNext IsCollecting (update_specific_counters objects (p ∷ rest) s)
        (λ r. deep_loop objects turns r.0 r.1) (update_specific_counters-IsNext (p ∷ rest) s a v)
        (λ r next. deep_loop-IsCollecting turns r.0 r.1 next.0 next.1)

  deep_or_shallow-IsCollecting :
      (deep : Bool) (turns : ℕ) (r : List ℕ × CollectorThreadState W)
      → IsNext r
      → Keeps IsCollecting (if deep then deep_loop objects turns r.0 r.1 else some (done r.1))
  deep_or_shallow-IsCollecting true turns r next =
      deep_loop-IsCollecting turns r.0 r.1 next.0 next.1
  deep_or_shallow-IsCollecting false turns r next = next.1

  -- The inner iterations of a shallow or a deep collection do not panic, and they keep what holds
  -- between two iterations.
  pub do_collection_inner_iterations-IsCollecting :
      (deep : Bool) (s : CollectorThreadState W)
      → IsCollecting s
      → Keeps IsCollecting (do_collection_inner_iterations objects deep s)
  unfolding do_collection_inner_iterations
  do_collection_inner_iterations-IsCollecting deep s v =
      and_then-Keeps IsNext IsCollecting (update_all_tracked_counters objects s)
        (λ r. if deep then deep_loop objects 100000 r.0 r.1 else some (done r.1))
        (update_all_tracked_counters-IsNext s v)
        (λ r next. deep_or_shallow-IsCollecting deep 100000 r next)
