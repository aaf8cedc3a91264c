-- ===== src/AtomicSdarc/Counts.antt =====
-- What the counters of an object of src/sdarc.rs add up to after a clone, a drop or a load.
use sdarc.Prelude.{
  ℕ, ◌<◌, ◌≡◌, ◌≢◌, refl, sym, ◌∙◌, inl, inr, Bool, true, false, Bool-cases, Option, none, some,
  arith, ◌==◌, ==_iff, if◌then◌else◌,
}
use sdarc.Prelude.Int.{ℤ, pos, ◌+ℤ◌, ◌-ℤ◌, int_laws}
use sdarc.Cell
use sdarc.Cell.{Cell}
use sdarc.Object.Totals.{total, total_step, update_self, update_ne}
use sdarc.AtomicSdarc.{
  Memory, at_shard, clone_sdarc, drop_sdarc, drop_option, load_atomic_ptr_owned,
}

-- 1 for a true test
abbrev pub bit : Bool → ℕ
bit true = 1
bit false = 0

-- How many `Sdarc`s of the object at `p` there are in an `Option<Sdarc>`
abbrev pub owns : Option ℕ → ℕ → ℕ
owns none p = 0
owns (some q) p = bit (q == p)

-- What the counters of the object at `p` add up to
abbrev pub strong_count : ℕ → ℕ → Memory → ℤ
strong_count shards p m = total shards (λ i. (m.counters p i).count)

module _ (shards : ℕ) where
  strong_count-at_shard :
      (i q p : ℕ) (f : Cell → Cell) (d : ℤ) (m : Memory)
      → i < shards
      → ((x : Cell) → (f x).count ≡ x.count +ℤ d)
      → strong_count shards p (at_shard i q f m)
        ≡ (if q == p then strong_count shards p m +ℤ d else strong_count shards p m)
  strong_count-at_shard i q p f d m lt counts = elim (Bool-cases (q == p)) [
    | inl here ↦
        let same : q ≡ p = (==_iff q p).0 here in
        rw here (
          total_step shards i (λ j. (m.counters p j).count) _ d lt
            (rw (same, update_self (m.counters p) i (f (m.counters p i))) (counts (m.counters p i)))
            (λ j ne.
              rw (same, update_ne (m.counters p) i j (f (m.counters p i)) (λ e. ne (sym e))) refl))
    | inr there ↦ rw there refl
  ]

  pub strong_count-clone_sdarc :
      (i q p : ℕ) (m : Memory)
      → i < shards
      → strong_count shards p (clone_sdarc i q m) ≡ strong_count shards p m +ℤ pos (bit (q == p))
  strong_count-clone_sdarc i q p m lt =
      strong_count-at_shard i q p Cell.increment (pos 1) m lt (λ x. refl)
      ∙ elim (Bool-cases (q == p)) [
        | inl here ↦ rw here refl
        | inr there ↦ rw there (omega int_laws)
      ]

  pub strong_count-drop_sdarc :
      (i q p : ℕ) (m : Memory)
      → i < shards
      → strong_count shards p (drop_sdarc i q m) ≡ strong_count shards p m -ℤ pos (bit (q == p))
  strong_count-drop_sdarc i q p m lt =
      strong_count-at_shard i q p Cell.decrement (pos 0 -ℤ pos 1) m lt (λ x. omega int_laws)
      ∙ elim (Bool-cases (q == p)) [
        | inl here ↦ rw here (omega int_laws)
        | inr there ↦ rw there (omega int_laws)
      ]

  pub strong_count-drop_option :
      (i p : ℕ) (o : Option ℕ) (m : Memory)
      → i < shards
      → strong_count shards p (drop_option i o m) ≡ strong_count shards p m -ℤ pos (owns o p)
  strong_count-drop_option i p none m lt = omega int_laws
  strong_count-drop_option i p (some q) m lt = strong_count-drop_sdarc i q p m lt

  pub strong_count-load :
      (i ptr p : ℕ) (m : Memory)
      → i < shards
      → p ≢ 0
      → let (loaded, m') = load_atomic_ptr_owned i ptr m in
        (strong_count shards p m' ≡ strong_count shards p m +ℤ pos (bit (ptr == p)))
        × (owns loaded p ≡ bit (ptr == p))
  unfolding load_atomic_ptr_owned
  strong_count-load i ptr p m lt ne = elim (Bool-cases (ptr == 0)) [
    | inl null ↦
        let other : (ptr == p) ≡ false = ground arith in rw (null, other) (omega int_laws, refl)
    | inr something ↦ rw something (strong_count-clone_sdarc i ptr p m lt, refl)
  ]
