-- ===== src/Tracker/Specific.antt =====
-- The iteration of src/collector.rs over all tracked counters, as one over specific counters.
use sdarc.Prelude.{
  ℕ, suc, ◌≡◌, refl, sym, ap, ◌∙◌, inl, inr, Bool, Option-cases, [], ◌∷◌, ◌++◌, some, arith,
}
use sdarc.Outcome.{Outcome, done, ◌>>=◌, Outcome-cases, >>=-done}
use sdarc.BTree.Order.{
  AllFrom, keys, PrefixBelow, PrefixBelow-weaken, PrefixBelow-append, append_one, get_past,
  put_past,
}
use sdarc.Tracker.{
  TrackedCounter, TrackedCounters, Objects, CollectorThreadState, Scanned, visit, scan_all,
  scan_specific, sorted_out, after_visits, update_all_tracked_counters, update_specific_counters,
}
use sdarc.Tracker.NotReady.{below_none}
use sdarc.Tracker.Iteration.{update_all_tracked_counters-eq, update_specific_counters-eq}

module _ {W : Type 0} (objects : Objects W) where
  -- A scan with counters before it that it leaves alone
  abbrev after : TrackedCounters → Scanned W → Scanned W
  after pre scan = record scan { tracked = pre ++ scan.tracked }

  abbrev after_first :
      TrackedCounters → ℕ → TrackedCounter × W → Outcome (Scanned W) → Outcome (Scanned W)
  after_first pre key r scanned = scanned >>= λ scan.
      done (after pre (sorted_out objects key r.0 ((key, r.0) ∷ scan.tracked) scan))

  -- What the rest of the scan gives is known for each result of the visit of the first counter.
  scan_specific-past_first :
      (hazard : ℕ → Bool) (pre m : TrackedCounters) (key : ℕ) (counter : TrackedCounter) (w : W)
      → PrefixBelow key pre
      → ((r : TrackedCounter × W)
          → scan_specific objects hazard (keys m) (pre ++ (key, r.0) ∷ m) r.1 ≡ (
              scan_all objects hazard m r.1 >>= λ scan. done (after (pre ++ (key, r.0) ∷ []) scan)))
      → scan_specific objects hazard (keys ((key, counter) ∷ m)) (pre ++ (key, counter) ∷ m) w
        ≡ (scan_all objects hazard ((key, counter) ∷ m) w >>= λ scan. done (after pre scan))
  unfolding scan_specific scan_all
  scan_specific-past_first hazard pre m key counter w p rest =
      elim (Outcome-cases (visit objects hazard key counter w)) [
        | inl panics ↦ rw (scan_specific, get_past pre m key counter p, scan_all, panics) refl
        | inr (r, visited) ↦
            let later = rest r in
            elim (Outcome-cases (scan_all objects hazard m r.1)) [
              | inl panics ↦
                  rw
                    (
                      scan_specific,
                      get_past pre m key counter p,
                      scan_all,
                      visited,
                      put_past pre m key counter r.0 p,
                      later,
                      panics,
                    )
                    refl
              | inr (scan, e) ↦
                  rw
                    (
                      scan_specific,
                      get_past pre m key counter p,
                      scan_all,
                      visited,
                      put_past pre m key counter r.0 p,
                      later,
                      e,
                      append_one pre scan.tracked (key, r.0),
                    )
                    refl
            ]
      ]

  scan_specific-past :
      (hazard : ℕ → Bool) (b : ℕ) (pre m : TrackedCounters) (w : W)
      → PrefixBelow b pre
      → AllFrom b m
      → scan_specific objects hazard (keys m) (pre ++ m) w
        ≡ (scan_all objects hazard m w >>= λ scan. done (after pre scan))
  unfolding scan_specific scan_all
  scan_specific-past hazard b pre [] w p v = refl
  scan_specific-past hazard b pre ((key, counter) ∷ m) w p v =
      let before = PrefixBelow-weaken b key pre v.0 p in
      scan_specific-past_first hazard pre m key counter w before (λ r.
        ap (λ x. scan_specific objects hazard (keys m) x r.1) (sym (append_one pre m (key, r.0)))
        ∙ scan_specific-past hazard (suc key) (pre ++ (key, r.0) ∷ []) m r.1
            (PrefixBelow-append (suc key) key r.0 pre (omega arith)
              (PrefixBelow-weaken key (suc key) pre (omega arith) before))
            v.1)

  -- When the keys of the map ascend, an iteration over all tracked counters is the iteration over
  -- the specific counters whose keys are all keys of the map.
  pub update_all_tracked_counters-update_specific_counters :
      (s : CollectorThreadState W)
      → AllFrom 0 s.tracked_counters
      → update_all_tracked_counters objects s
        ≡ update_specific_counters objects (keys s.tracked_counters) s
  unfolding update_all_tracked_counters update_specific_counters
  update_all_tracked_counters-update_specific_counters s v =
      elim (Option-cases (objects.hazards s.world)) [
        | inl missing ↦ rw (update_all_tracked_counters, missing, update_specific_counters) refl
        | inr ((hazard, world), signals) ↦
            update_all_tracked_counters-eq objects s signals
            ∙ ap (λ x. some (after_visits objects s x))
                (sym (
                  scan_specific-past hazard 0 [] s.tracked_counters world below_none v
                  ∙ >>=-done (scan_all objects hazard s.tracked_counters world)))
            ∙ sym (update_specific_counters-eq objects (keys s.tracked_counters) s signals)
      ]
