-- ===== src/AtomicSdarc/Effects.antt =====
-- What the accesses of src/atomic_sdarc.rs and src/sdarc.rs make of one object, when the program
-- holds what it needs for them.
use sdarc.Prelude.{
  ℕ, ◌+◌, ◌-◌, ◌<◌, ◌≤◌, ◌≡◌, refl, ap, ◌∙◌, Bool, true, false, List, [], ◌∷◌, ◌++◌, arith, lt→ltb,
  if◌then◌else◌,
}
use sdarc.Cell
use sdarc.Cell.{Cell}
use sdarc.Object.{
  Object, Action, Config, update, clone, drop, swap_in, swap_out, cas_set, cas_count, apply,
  apply_all,
}
use sdarc.AtomicSdarc.Counts.{bit}
use sdarc.AtomicSdarc.Accesses.{only_if}

-- The object with other counters and other numbers of `Sdarc`s
abbrev pub with_counts : (ℕ → Cell) → ℕ → ℕ → ℕ → Object → Object
with_counts cell owners stored pinned o = record o {
  cell = cell;
  owners = owners;
  stored = stored;
  pinned = pinned;
}

pub with_counts-eq :
    {cell cell' : ℕ → Cell} {n n' s s' q q' : ℕ} (o : Object)
    → cell ≡ cell'
    → n ≡ n'
    → s ≡ s'
    → q ≡ q'
    → with_counts cell n s q o ≡ with_counts cell' n' s' q' o
with_counts-eq o d e f g = rw (d, e, f, g) refl

-- The counter at shard `i` is increased, or decreased, if `b`.
abbrev pub increased_if : Bool → ℕ → (ℕ → Cell) → ℕ → Cell
increased_if b i cell = if b then update cell i (Cell.increment (cell i)) else cell

abbrev pub decreased_if : Bool → ℕ → (ℕ → Cell) → ℕ → Cell
decreased_if b i cell = if b then update cell i (Cell.decrement (cell i)) else cell

module _ (c : Config) where
  pub apply_all-++ :
      (before after : List Action) (o : Object)
      → apply_all c (before ++ after) o ≡ apply_all c after (apply_all c before o)
  unfolding apply_all
  apply_all-++ [] after o = refl
  apply_all-++ (a ∷ rest) after o = apply_all-++ rest after (apply c a o)

  pub clone_if :
      (b : Bool) (i : ℕ) (o : Object)
      → i < c.shards
      → bit b ≤ o.owners
      → apply_all c (only_if b (clone i)) o
        ≡ with_counts (increased_if b i o.cell) (o.owners + bit b) o.stored o.pinned o
  unfolding apply_all apply
  clone_if false i o lt le = with_counts-eq o refl (omega arith) refl refl
  clone_if true i o lt le = rw (lt→ltb i c.shards lt, lt→ltb 0 o.owners (omega arith)) refl

  pub drop_if :
      (b : Bool) (i : ℕ) (o : Object)
      → i < c.shards
      → bit b ≤ o.owners
      → apply_all c (only_if b (drop i)) o
        ≡ with_counts (decreased_if b i o.cell) (o.owners - bit b) o.stored o.pinned o
  unfolding apply_all apply
  drop_if false i o lt le = with_counts-eq o refl (omega arith) refl refl
  drop_if true i o lt le = rw (lt→ltb i c.shards lt, lt→ltb 0 o.owners (omega arith)) refl

  pub swap_in_if :
      (b : Bool) (o : Object)
      → bit b ≤ o.owners
      → apply_all c (only_if b swap_in) o
        ≡ with_counts o.cell (o.owners - bit b) (o.stored + bit b) o.pinned o
  unfolding apply_all apply
  swap_in_if false o le = with_counts-eq o refl (omega arith) (omega arith) refl
  swap_in_if true o le = rw (lt→ltb 0 o.owners (omega arith)) refl

  pub swap_out_if :
      (b : Bool) (o : Object)
      → bit b ≤ o.stored
      → apply_all c (only_if b swap_out) o
        ≡ with_counts o.cell (o.owners + bit b) (o.stored - bit b) o.pinned o
  unfolding apply_all apply
  swap_out_if false o le = with_counts-eq o refl (omega arith) (omega arith) refl
  swap_out_if true o le = rw (lt→ltb 0 o.stored (omega arith)) refl

  pub cas_set_if :
      (b : Bool) (o : Object)
      → bit b ≤ o.owners
      → apply_all c (only_if b cas_set) o
        ≡ with_counts o.cell (o.owners - bit b) (o.stored + bit b) (o.pinned + bit b) o
  unfolding apply_all apply
  cas_set_if false o le = with_counts-eq o refl (omega arith) (omega arith) (omega arith)
  cas_set_if true o le = rw (lt→ltb 0 o.owners (omega arith)) refl

  pub cas_count_if :
      (b : Bool) (i : ℕ) (o : Object)
      → i < c.shards
      → bit b ≤ o.pinned
      → apply_all c (only_if b (cas_count i)) o
        ≡ with_counts (increased_if b i o.cell) (o.owners + bit b) o.stored (o.pinned - bit b) o
  unfolding apply_all apply
  cas_count_if false i o lt le = with_counts-eq o refl (omega arith) refl (omega arith)
  cas_count_if true i o lt le = rw (lt→ltb i c.shards lt, lt→ltb 0 o.pinned (omega arith)) refl

  -- A pointer to the object or to another goes in, and what the pointer was comes out.
  pub exchange_if :
      (into from : Bool) (o : Object)
      → bit into ≤ o.owners
      → bit from ≤ o.stored
      → apply_all c (only_if into swap_in ++ only_if from swap_out) o
        ≡ with_counts o.cell
            (o.owners - bit into + bit from)
            (o.stored + bit into - bit from)
            o.pinned
            o
  exchange_if into from o le le' =
      apply_all-++ (only_if into swap_in) _ o
      ∙ ap (apply_all c (only_if from swap_out)) (swap_in_if into o le)
      ∙ swap_out_if from _ (omega arith)

  pub cas_exchange_if :
      (into from : Bool) (o : Object)
      → bit into ≤ o.owners
      → bit from ≤ o.stored
      → apply_all c (only_if into cas_set ++ only_if from swap_out) o
        ≡ with_counts o.cell
            (o.owners - bit into + bit from)
            (o.stored + bit into - bit from)
            (o.pinned + bit into)
            o
  cas_exchange_if into from o le le' =
      apply_all-++ (only_if into cas_set) _ o
      ∙ ap (apply_all c (only_if from swap_out)) (cas_set_if into o le)
      ∙ swap_out_if from _ (omega arith)
