-- ===== src/Object/Accounts.antt =====
-- What one action does to the counters, and why their sum is the number of references.
use sdarc.Prelude.{
  ℕ, ◌+◌, ◌-◌, ◌<◌, ◌≡◌, ◌≢◌, refl, ap, ◌∙◌, ◌⊎◌, inl, inr, Bool, true, false, arith, ◌==◌, ==_iff,
  if◌then◌else◌, Bool-cases,
}
use sdarc.Prelude.Int.{ℤ, pos, negsuc, ◌+ℤ◌, int_laws}
use sdarc.Cell
use sdarc.Cell.{Cell}
use sdarc.Object.{
  Object, Action, Config, incremented_at, decremented_at, clone, drop, swap_in, swap_out, cas_set,
  cas_count, count, clone_borrowed, apply,
}
use sdarc.Object.Totals.{total, total_step}

abbrev pub counts : Object → ℕ → ℤ
counts o i = (o.cell i).count

-- What a counter shard is after one action.
abbrev pub CellStep : Cell → Cell → Type 0
CellStep old new = (new ≡ old) ⊎ ((new ≡ Cell.increment old) ⊎ (new ≡ Cell.decrement old))

-- What all the counters are after one action.
pub record Steps (o o' : Object) : Type 0 where
  pub cell : (j : ℕ) → CellStep (o.cell j) (o'.cell j)

Steps-same : (o : Object) → Steps o o
Steps-same o = record { cell = λ j. inl refl }

-- No `raw_compare_and_set` is between its exchange and its increment.
pub record HasNoPinned (o : Object) : Type 0 where
  pub none_pinned : o.pinned ≡ 0

incremented_at-CellStep : (i : ℕ) (o : Object) (j : ℕ) → CellStep (o.cell j) (incremented_at i o j)
incremented_at-CellStep i o j = elim (Bool-cases (i == j)) [
  | inl here ↦ let e : i ≡ j = (==_iff i j).0 here in rw (here, e) (inr (inl refl))
  | inr there ↦ rw there (inl refl)
]

decremented_at-CellStep : (i : ℕ) (o : Object) (j : ℕ) → CellStep (o.cell j) (decremented_at i o j)
decremented_at-CellStep i o j = elim (Bool-cases (i == j)) [
  | inl here ↦ let e : i ≡ j = (==_iff i j).0 here in rw (here, e) (inr (inr refl))
  | inr there ↦ rw there (inl refl)
]

-- What holds of both branches holds of a guarded change.
pub guarded {ℓ} :
    {A : Type 0} (P : A → Type ℓ) (b : Bool) {x y : A}
    → (b ≡ true → P x)
    → P y
    → P (if b then x else y)
guarded P true changed same = changed refl
guarded P false changed same = same

-- The shards count as many references as there are in owners and in atomic pointers.
abbrev pub Accounted : ℕ → Object → Type 0
Accounted n o = total n (counts o) ≡ pos (o.owners + o.stored)

-- An action other than the exchange of a `raw_compare_and_set`
abbrev pub Plain : Action → Type 0
Plain cas_set = ⊥
Plain _ = Unit

elsewhere : (i j : ℕ) (x y : Cell) → j ≢ i → (if i == j then x else y).count ≡ y.count
elsewhere i j x y ne = ground arith

module _ (c : Config) where
  -- Each action leaves each counter alone, or increments it, or decrements it and sets its tag.
  pub apply-Steps : (a : Action) (o : Object) → Steps o (apply c a o)
  unfolding apply
  apply-Steps (clone i) o =
      guarded (Steps o) _ (λ _. record { cell = incremented_at-CellStep i o }) (Steps-same o)
  apply-Steps (drop i) o =
      guarded (Steps o) _ (λ _. record { cell = decremented_at-CellStep i o }) (Steps-same o)
  apply-Steps (cas_count i) o =
      guarded (Steps o) _ (λ _. record { cell = incremented_at-CellStep i o }) (Steps-same o)
  apply-Steps (count t i) o =
      guarded (Steps o) _ (λ _. record { cell = incremented_at-CellStep i o }) (Steps-same o)
  apply-Steps (clone_borrowed t s i) o =
      guarded (Steps o) _ (λ _. record { cell = incremented_at-CellStep i o }) (Steps-same o)
  apply-Steps _ o = guarded (Steps o) _ (λ _. record { cell = λ j. inl refl }) (Steps-same o)

  incremented_total :
      (i : ℕ) (o : Object)
      → i < c.shards
      → total c.shards (λ j. (incremented_at i o j).count) ≡ total c.shards (counts o) +ℤ pos 1
  incremented_total i o lt =
      total_step c.shards i (counts o) _ (pos 1) lt (rw (==_iff i i).1 refl)
        (λ j ne. elsewhere i j _ _ ne)

  decremented_total :
      (i : ℕ) (o : Object)
      → i < c.shards
      → total c.shards (λ j. (decremented_at i o j).count) ≡ total c.shards (counts o) +ℤ negsuc 0
  decremented_total i o lt =
      total_step c.shards i (counts o) _ (negsuc 0) lt (rw ((==_iff i i).1 refl) (omega int_laws))
        (λ j ne. elsewhere i j _ _ ne)

  -- One reference more, and one less.
  gained :
      (i : ℕ) (o : Object) (owners : ℕ)
      → i < c.shards
      → Accounted c.shards o
      → owners ≡ o.owners + 1
      → total c.shards (λ j. (incremented_at i o j).count) ≡ pos (owners + o.stored)
  gained i o owners lt v e = incremented_total i o lt ∙ rw (v, e) (omega int_laws)

  lost :
      (i : ℕ) (o : Object)
      → i < c.shards
      → 0 < o.owners
      → Accounted c.shards o
      → total c.shards (λ j. (decremented_at i o j).count) ≡ pos (o.owners - 1 + o.stored)
  lost i o lt p v = decremented_total i o lt ∙ rw v (omega int_laws)

  -- Every action keeps the account: each count goes with a reference.
  pub apply-Accounted :
      (a : Action) (o : Object) → Accounted c.shards o → Accounted c.shards (apply c a o)
  unfolding apply
  apply-Accounted (clone i) o v =
      guarded (Accounted c.shards) _ (λ h. gained i o _ (ground arith) v refl) v
  apply-Accounted (drop i) o v =
      guarded (Accounted c.shards) _ (λ h. lost i o (ground arith) (ground arith) v) v
  apply-Accounted swap_in o v = guarded (Accounted c.shards) _ (λ h. v ∙ ap pos (ground arith)) v
  apply-Accounted swap_out o v = guarded (Accounted c.shards) _ (λ h. v ∙ ap pos (ground arith)) v
  apply-Accounted cas_set o v = guarded (Accounted c.shards) _ (λ h. v ∙ ap pos (ground arith)) v
  apply-Accounted (cas_count i) o v =
      guarded (Accounted c.shards) _ (λ h. gained i o _ (ground arith) v refl) v
  apply-Accounted (count t i) o v =
      guarded (Accounted c.shards) _ (λ h. gained i o _ (ground arith) v refl) v
  apply-Accounted (clone_borrowed t s i) o v =
      guarded (Accounted c.shards) _ (λ h. gained i o _ (ground arith) v refl) v
  apply-Accounted _ o v = guarded (Accounted c.shards) _ (λ _. v) v

  pub apply-HasNoPinned :
      (a : Action) (o : Object) → Plain a → HasNoPinned o → HasNoPinned (apply c a o)
  unfolding apply
  apply-HasNoPinned cas_set o p e = absurd p
  apply-HasNoPinned (cas_count i) o p e = ground arith
  apply-HasNoPinned _ o p e = ground arith
