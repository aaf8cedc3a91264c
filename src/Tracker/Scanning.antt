-- ===== src/Tracker/Scanning.antt =====
-- What a scan of some tracked counters of src/collector.rs leaves, when the objects keep what they
-- promise.
use sdarc.Prelude.{
  ℕ, suc, ◌≤◌, ◌≡◌, refl, sym, ap, ◌∙◌, inl, inr, Bool, true, false, Bool-cases, Option-cases, List,
  [], ◌∷◌, none, some, arith, dec_lt, ◌==◌, ==_iff,
}
use mathlib.Core.Option.{some-injective}
use sdarc.Outcome.{done}
use sdarc.BTree.{get, put}
use sdarc.BTree.Laws.{Ascending, Ascending-weaken, Ascending-set_insert, get-put}
use sdarc.Tracker.{
  TrackedCounter, TrackedCounters, Objects, Scanned, is_ready, is_re_checking, with_state,
  sorted_out, scan_specific,
}
use sdarc.Tracker.Contract.{
  Promises, IsVisiting, IsScanned, IsEntry-later, visit-IsVisited, put-IsVisiting,
}

module _ {W : Type 0} (objects : Objects W) (promises : Promises objects) where
  -- No counters at the first key: nothing is done for it.
  skipped-IsScanned :
      (b p : ℕ) (hazard : ℕ → Bool) (m : TrackedCounters) (w : W) (scan : Scanned W)
      → b ≤ p
      → get p m ≡ none
      → IsVisiting objects promises b hazard m w
      → IsScanned objects promises (suc p) m scan
      → IsScanned objects promises b m scan
  skipped-IsScanned b p hazard m w scan le missing v is = record {
    ascending = is.ascending;
    good = is.good;
    to_free_ascending = Ascending-weaken b (suc p) scan.to_free (omega arith) is.to_free_ascending;
    to_re_check_ascending =
        Ascending-weaken b (suc p) scan.to_re_check (omega arith) is.to_re_check_ascending;
    below = λ k lt. is.below k (omega arith);
    own = is.own;
    means = is.means;
    listed = λ k c h r above. elim (dec_lt p k) [
      | yes later ↦ is.listed k c h r later
      | no earlier ↦
          let e = v.entry k c (sym (is.below k (omega arith)) ∙ h) in
          let waits = e.waiting above in cc
    ];
    ready = is.ready;
  }

  -- The scan after the first key, with what the first key adds
  sorted_out-IsScanned :
      (b p : ℕ) (hazard : ℕ → Bool) (counter visited : TrackedCounter) (m : TrackedCounters) (w : W)
      (scan : Scanned W)
      → b ≤ p
      → get p m ≡ some counter
      → IsVisiting objects promises b hazard m w
      → IsScanned objects promises (suc p) (put p visited m) scan
      → IsScanned objects promises b m (sorted_out objects p visited scan.tracked scan)
  sorted_out-IsScanned b p hazard counter visited m w scan le found v is = record {
    ascending = is.ascending;
    good = is.good;
    to_free_ascending = elim (Bool-cases (is_ready visited.state)) [
      | inl r ↦ rw r (le, is.to_free_ascending)
      | inr n ↦ rw n (Ascending-weaken b (suc p) scan.to_free (omega arith) is.to_free_ascending)
    ];
    to_re_check_ascending =
        let kept =
          Ascending-weaken b (suc p) scan.to_re_check (omega arith) is.to_re_check_ascending in
        elim (Bool-cases (is_re_checking visited.state)) [
          | inl r ↦ rw r (Ascending-set_insert b p scan.to_re_check le kept)
          | inr n ↦ rw n kept
        ];
    below = λ k lt.
        let differs : (k == p) ≡ false = ground arith in
        is.below k (omega arith) ∙ rw (get-put k p visited m found, differs) refl;
    own = is.own;
    means = is.means;
    listed = λ k c h r above. elim (dec_lt p k) [
      | yes later ↦ ground (arith, is.listed k c h r later)
      | no earlier ↦
          let now = sym (get-put k p visited m found) ∙ sym (is.below k (omega arith)) ∙ h in
          elim (Bool-cases (k == p)) [
            | inl here ↦
                let same : visited ≡ c = some-injective _ _ (rw here at now) in
                let is_now : is_ready visited.state ≡ true = ap (λ x. is_ready x.state) same ∙ r in
                rw (is_now, here) refl
            | inr there ↦ let waits = (v.entry k c (rw there at now)).waiting above in cc
          ]
    ];
    ready = λ k h. elim (Bool-cases (is_ready visited.state)) [
      | inl r ↦ elim (Bool-cases (k == p)) [
        | inl here ↦
            let same : k ≡ p = (==_iff k p).0 here in
            (visited, is.below k (omega arith) ∙ get-put k p visited m found ∙ rw here refl, r)
        | inr there ↦ is.ready k (rw (r, there) at h)
      ]
      | inr n ↦ is.ready k (rw n at h)
    ];
  }

  pub scan_specific-IsScanned :
      (hazard : ℕ → Bool) (b : ℕ) (old : List ℕ) (m : TrackedCounters) (w : W)
      → Ascending b old
      → IsVisiting objects promises b hazard m w
      → (scan : Scanned W) × (scan_specific objects hazard old m w ≡ done scan)
        × IsScanned objects promises b m scan
  unfolding scan_specific
  scan_specific-IsScanned hazard b [] m w a v = (
    _,
    refl,
    record {
      ascending = v.ascending;
      good = v.good;
      to_free_ascending = tt;
      to_re_check_ascending = tt;
      below = λ k lt. refl;
      own = λ k c h. (v.entry k c h).own;
      means = λ k c h. (v.entry k c h).means;
      listed = λ k c h r above. let waits = (v.entry k c h).waiting above in cc;
      ready = λ k h. cc;
    },
  )
  scan_specific-IsScanned hazard b (p ∷ rest) m w a v = elim (Option-cases (get p m)) [
    | inl missing ↦
        let (scan, e, is) = scan_specific-IsScanned hazard (suc p) rest m w a.1 (record {
          ascending = v.ascending;
          good = v.good;
          entry = λ k c h.
              IsEntry-later objects promises b (suc p) hazard w k c (omega (arith, a.0))
                (v.entry k c h);
        }) in
        (
          scan,
          rw (missing, scan_specific) e,
          skipped-IsScanned b p hazard m w scan a.0 missing v is,
        )
    | inr (counter, found) ↦
        let (state, w', visited, new) =
          visit-IsVisited objects promises hazard b p counter w a.0 v.good
            (v.entry p counter found) in
        let (scan, e, is) =
          scan_specific-IsScanned hazard (suc p) rest (put p (with_state state counter) m) w' a.1
            (put-IsVisiting objects promises hazard b p counter m w state w' a.0 found v new) in
        (
          sorted_out objects p (with_state state counter) scan.tracked scan,
          rw (found, scan_specific, visited, e) refl,
          sorted_out-IsScanned b p hazard counter (with_state state counter) m w scan a.0 found v
              is,
        )
  ]
