-- ===== src/Tracker/Pending.antt =====
-- What holds of objects of src/collector.rs that no iteration tracks, such as those that are still
-- pending, holds after the iteration: it touches only what it tracks.
use sdarc.Prelude.{ℕ, ◌≡◌, ◌≢◌, refl, sym, Bool, true, false, List, [], ◌∷◌, map, arith}
use mathlib.Core.Path.{subst}
use sdarc.Collector.{default_state}
use sdarc.BTree.Laws.{elem}
use sdarc.Tracker.{Objects}
use sdarc.Tracker.Contract.{Promises}

-- Are the counters at `p` among those of the list?
abbrev pub listed_in : ℕ → List (ℕ × ℕ) → Bool
listed_in p l = elem p (map (λ x. x.1) l)

module _ {W : Type 0} (objects : Objects W) (promises : Promises objects) where
  -- Each of these counters is its own object's, and stands for the default state.
  abbrev pub Standing : List (ℕ × ℕ) → W → Type 0
  Standing [] w = Unit
  Standing ((fat_ptr, p) ∷ rest) w =
      (objects.get_counters_ptr fat_ptr ≡ p) × promises.Means p default_state w × Standing rest w

  pub Standing-map :
      (l : List (ℕ × ℕ)) (w w' : W)
      → ((fat_ptr p : ℕ)
          → objects.get_counters_ptr fat_ptr ≡ p
          → listed_in p l ≡ true
          → promises.Means p default_state w
          → promises.Means p default_state w')
      → Standing l w
      → Standing l w'
  Standing-map [] w w' f v = tt
  Standing-map ((fat_ptr, p) ∷ rest) w w' f v = (
    v.0,
    f fat_ptr p v.0 (ground arith) v.1,
    Standing-map rest w w' (λ g q own h m. f g q own (ground (arith, h)) m) v.2,
  )

  pub differs : (p k : ℕ) (l : List (ℕ × ℕ)) → listed_in p l ≡ true → listed_in k l ≡ false → p ≢ k
  differs p k l is not e = cc (ap_listed e)
    where
      ap_listed : p ≡ k → listed_in p l ≡ listed_in k l
      ap_listed e = subst (λ x. listed_in p l ≡ listed_in x l) e refl

  -- The objects promise as much together with counters that are listed and not tracked.
  unfoldable pub with_pending : List (ℕ × ℕ) → Promises objects
  with_pending l = record {
    Good = λ w. promises.Good w × Standing l w;
    Means = λ k state w. promises.Means k state w × (listed_in k l ≡ false);
    Updatable = λ k state w. promises.Updatable k state w × (listed_in k l ≡ false);
    signals = λ w hazard w' h good.
        let (now, settled) = promises.signals w hazard w' h good.0 in
        (
          (
            now,
            Standing-map l w w'
                (λ f p own is m.
                  subst (λ k. promises.Means k default_state w') own
                    (settled f default_state refl
                      (subst (λ k. promises.Means k default_state w) (sym own) m)).0)
                good.1,
          ),
          λ f state waits v.
              let (means, can) = settled f state waits v.0 in
              ((means, v.1), λ hidden. (can hidden, v.1)),
        );
    reset = λ k state w waits v. (promises.reset k state w waits v.0, v.1);
    update = λ k state w good v.
        let (state', w', e, now, means, others, updatable) = promises.update k state w good.0 v.0 in
        (
          state',
          w',
          e,
          (
            now,
            Standing-map l w w' (λ f p own is m. others p default_state (differs p k l is v.1) m)
                good.1,
          ),
          (means, v.1),
          (λ j s ne x. (others j s ne x.0, x.1)),
          (λ j s ne x. (updatable j s ne x.0, x.1)),
        );
    freeing = λ f w good v.
        let (now, others) = promises.freeing f w good.0 v.0 in
        (
          (
            now,
            Standing-map l w (objects.free f w).1
                (λ g p own is m.
                  others p default_state (differs p (objects.get_counters_ptr f) l is v.1) m)
                good.1,
          ),
          λ j s ne x. (others j s ne x.0, x.1),
        );
  }
