-- ===== src/Tracker/FreesReady.antt =====
-- `free_pointers` of src/collector.rs on the counters of a map that are ready: it takes out these and
-- frees their objects one after the other.
use sdarc.Prelude.{
  ℕ, suc, ◌≡◌, refl, sym, ap, ◌∙◌, inl, inr, true, Bool-cases, List, [], ◌∷◌, ◌++◌, none, some,
  arith, ◌==◌, ==_iff,
}
use sdarc.Outcome.{done, panic, ◌>>◌, assert}
use sdarc.BTree.{remove, extend}
use sdarc.BTree.Order.{
  AllFrom, PrefixBelow, PrefixBelow-weaken, PrefixBelow-append, append_one, remove_past,
}
use sdarc.Tracker.{
  TrackedCounter, TrackedCounters, Objects, CollectorThreadState, is_ready, freed, free_pointers,
}
use sdarc.Tracker.NotReady.{ready_keys, ready_fat_ptrs, not_ready}

module _ {W : Type 0} (objects : Objects W) where
  -- Each object's counters are at its key.
  abbrev pub Owned : TrackedCounters → Type 0
  Owned [] = Unit
  Owned ((key, counter) ∷ rest) = (objects.get_counters_ptr counter.fat_ptr ≡ key) × Owned rest

  pub not_ready-Owned : (m : TrackedCounters) → Owned m → Owned (not_ready m)
  not_ready-Owned [] v = tt
  not_ready-Owned ((key, counter) ∷ rest) v = elim (Bool-cases (is_ready counter.state)) [
    | inl ready ↦ rw ready (not_ready-Owned rest v.1)
    | inr other ↦ rw other (v.0, not_ready-Owned rest v.1)
  ]

  pub free_pointers-ready :
      (key : ℕ) (to_free : List ℕ) (counter : TrackedCounter) (m : TrackedCounters)
      (s : CollectorThreadState W)
      → remove key s.tracked_counters ≡ (some counter, m)
      → is_ready counter.state ≡ true
      → objects.get_counters_ptr counter.fat_ptr ≡ key
      → free_pointers objects (key ∷ to_free) s
        ≡ free_pointers objects to_free (freed objects counter m s)
  unfolding free_pointers
  free_pointers-ready key to_free counter m s removed ready own =
      ap
        (λ p. elim p.0 [
          | none ↦ panic
          | some x ↦
              assert (is_ready x.state)
              >> assert (objects.get_counters_ptr x.fat_ptr == key)
              >> free_pointers objects to_free (freed objects x p.1 s)
        ])
        removed
      ∙ rw (ready, (==_iff (objects.get_counters_ptr counter.fat_ptr) key).1 own) refl

  -- The objects are freed one after the other, and the counters of the `Sdarc`s that each drops are
  -- added to the set to re-check.
  abbrev pub free_each : List ℕ → List ℕ × W → List ℕ × W
  free_each [] r = r
  free_each (fat_ptr ∷ rest) (set, world) =
      let (dropped, world') = objects.free fat_ptr world in
      free_each rest (extend dropped set, world')

  pub free_pointers-past :
      (b : ℕ) (pre m : TrackedCounters) (s : CollectorThreadState W)
      → s.tracked_counters ≡ pre ++ m
      → PrefixBelow b pre
      → AllFrom b m
      → Owned m
      → free_pointers objects (ready_keys m) s
        ≡ done (
            let (set, world) = free_each (ready_fat_ptrs m) (s.counters_to_recheck, s.world) in
            record {
              tracked_counters = pre ++ not_ready m;
              counters_to_recheck = set;
              world = world;
            })
  unfolding free_pointers
  free_pointers-past b pre [] s e p v o = ap (λ x. done (record s { tracked_counters = x })) e
  free_pointers-past b pre ((key, counter) ∷ rest) s e p v o =
      elim (Bool-cases (is_ready counter.state)) [
        | inl ready ↦
            let done_so =
              free_pointers-past (suc key) pre rest (freed objects counter (pre ++ rest) s) refl
                (PrefixBelow-weaken b (suc key) pre (omega (arith, v.0)) p) v.1 o.1 in
            let removed : remove key s.tracked_counters ≡ (some counter, pre ++ rest) =
              ap (remove key) e
              ∙ remove_past pre rest key counter (PrefixBelow-weaken b key pre v.0 p) in
            rw ready (free_pointers-ready key _ counter _ s removed ready o.0 ∙ done_so)
        | inr other ↦
            let done_so =
              free_pointers-past (suc key) (pre ++ (key, counter) ∷ []) rest s
                (e ∙ sym (append_one pre rest (key, counter)))
                (PrefixBelow-append (suc key) key counter pre (omega arith)
                  (PrefixBelow-weaken b (suc key) pre (omega (arith, v.0)) p))
                v.1 o.1 in
            rw other (
              done_so
              ∙ ap
                  (λ x.
                    let (set, world) =
                      free_each (ready_fat_ptrs rest) (s.counters_to_recheck, s.world) in
                    done
                      (record { tracked_counters = x; counters_to_recheck = set; world = world }))
                  (append_one pre (not_ready rest) (key, counter)))
      ]
