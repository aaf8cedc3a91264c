-- ===== src/Tracker/Freeing.antt =====
-- The loop of src/collector.rs over the counters that an iteration found to be ready to free, when
-- the objects keep what they promise.
use sdarc.Prelude.{
  ℕ, suc, ◌≡◌, refl, sym, ap, ◌∙◌, inl, inr, true, false, Bool-cases, List, [], ◌∷◌, some, arith,
  ◌==◌, ==_iff,
}
use mathlib.Core.Path.{subst}
use sdarc.Outcome.{done}
use sdarc.Collector.{TrackedCounterState, default_state, requires_re_checking, ready_to_free}
use sdarc.BTree.{extend, remove, get, set_insert}
use sdarc.BTree.Order.{AllFrom}
use sdarc.BTree.Laws.{
  Ascending, elem, elem-above, Ascending-extend, remove-get, get-remove, AllFrom-remove,
}
use sdarc.Tracker.{
  on_sdarc_drop, on_sdarc_drops, TrackedCounter, Objects, CollectorThreadState, is_ready,
  free_pointers, freed,
}
use sdarc.Tracker.FreesReady.{free_pointers-ready}
use sdarc.Tracker.Contract.{Promises}

pub is_ready-eq : (state : TrackedCounterState) → is_ready state ≡ true → state ≡ ready_to_free
is_ready-eq ready_to_free h = refl
is_ready-eq default_state h = cc
is_ready-eq requires_re_checking h = cc

-- The drops in the collector's thread extend the set of counters to re-check, as `freed` has it.
pub on_sdarc_drops-extend :
    (dropped set : List ℕ)
    → on_sdarc_drops dropped (some (some set)) ≡ some (some (extend dropped set))
unfolding on_sdarc_drops on_sdarc_drop extend
on_sdarc_drops-extend [] set = refl
on_sdarc_drops-extend (p ∷ dropped) set = on_sdarc_drops-extend dropped (set_insert p set)

module _ {W : Type 0} (objects : Objects W) (promises : Promises objects) where
  open promises use {Good, Means}

  -- The keys of `to_free` are those of the map whose counters are ready to free.
  pub record IsFreeing (to_free : List ℕ) (s : CollectorThreadState W) : Type 0 where
    pub ascending : AllFrom 0 s.tracked_counters
    pub good : Good s.world
    pub own :
        (k : ℕ) (counter : TrackedCounter)
        → get k s.tracked_counters ≡ some counter
        → objects.get_counters_ptr counter.fat_ptr ≡ k
    pub means :
        (k : ℕ) (counter : TrackedCounter)
        → get k s.tracked_counters ≡ some counter
        → Means k counter.state s.world
    pub listed :
        (k : ℕ) (counter : TrackedCounter)
        → get k s.tracked_counters ≡ some counter
        → is_ready counter.state ≡ true
        → elem k to_free ≡ true
    pub ready :
        (k : ℕ)
        → elem k to_free ≡ true
        → (counter : TrackedCounter) × (get k s.tracked_counters ≡ some counter)
          × (is_ready counter.state ≡ true)
    pub pending : Ascending 0 s.counters_to_recheck

  -- The first of the keys is freed.
  freed-IsFreeing :
      (b p : ℕ) (to_free : List ℕ) (counter : TrackedCounter) (s : CollectorThreadState W)
      → Ascending b (p ∷ to_free)
      → get p s.tracked_counters ≡ some counter
      → is_ready counter.state ≡ true
      → IsFreeing (p ∷ to_free) s
      → IsFreeing to_free (freed objects counter (remove p s.tracked_counters).1 s)
  freed-IsFreeing b p to_free counter s a found r v =
      let own = v.own p counter found in
      let stands : Means (objects.get_counters_ptr counter.fat_ptr) ready_to_free s.world =
        subst (λ k. Means k ready_to_free s.world) (sym own)
          (subst (λ state. Means p state s.world) (is_ready-eq counter.state r)
            (v.means p counter found)) in
      let (good, others) = promises.freeing counter.fat_ptr s.world v.good stands in
      let kept : (k : ℕ) (c : TrackedCounter)
          → get k (remove p s.tracked_counters).1 ≡ some c
          → ((k == p) ≡ false) × (get k s.tracked_counters ≡ some c) =
        λ k c h.
          let now = sym (get-remove 0 k p s.tracked_counters v.ascending) ∙ h in
          elim (Bool-cases (k == p)) [
            | inl here ↦ absurd (ground (arith, rw here at now))
            | inr there ↦ (there, rw there at now)
          ] in
      record {
        ascending = AllFrom-remove 0 p s.tracked_counters v.ascending;
        good = good;
        own = λ k c h. v.own k c (kept k c h).1;
        means = λ k c h.
            let (there, before) = kept k c h in
            others k c.state (λ same. ground (arith, own, there)) (v.means k c before);
        listed =
            λ k c h is. let (there, before) = kept k c h in rw there at (v.listed k c before is);
        ready = λ k h.
            let above = elem-above (suc p) k to_free a.1 h in
            let there : (k == p) ≡ false = ground arith in
            let (c, before, is) = v.ready k (rw there h) in
            (c, get-remove 0 k p s.tracked_counters v.ascending ∙ rw there before, is);
        pending =
            Ascending-extend (objects.free counter.fat_ptr s.world).0 s.counters_to_recheck
              v.pending;
      }

  pub free_pointers-IsFreeing :
      (b : ℕ) (to_free : List ℕ) (s : CollectorThreadState W)
      → Ascending b to_free
      → IsFreeing to_free s
      → (s' : CollectorThreadState W) × (free_pointers objects to_free s ≡ done s')
        × IsFreeing [] s'
  unfolding free_pointers
  free_pointers-IsFreeing b [] s a v = (s, refl, v)
  free_pointers-IsFreeing b (p ∷ to_free) s a v =
      let (counter, found, r) = v.ready p (rw ((==_iff p p).1 refl) refl) in
      let removed : remove p s.tracked_counters ≡ (some counter, (remove p s.tracked_counters).1) =
        ap (λ x. (x, (remove p s.tracked_counters).1)) (remove-get p s.tracked_counters ∙ found) in
      let (s', e, is) =
        free_pointers-IsFreeing (suc p) to_free _ a.1
          (freed-IsFreeing b p to_free counter s a found r v) in
      (
        s',
        free_pointers-ready objects p to_free counter _ s removed r (v.own p counter found) ∙ e,
        is,
      )
