-- ===== src/AtomicSdarc/Loads.antt =====
-- What the critical section of `load_atomic_ptr_owned` in src/atomic_sdarc.rs makes of one object.
use sdarc.Prelude.{
  ℕ, ◌+◌, ◌<◌, ◌≤◌, ◌≡◌, refl, sym, ap, ◌∙◌, Bool, true, false, arith, lt→ltb, ◌==◌, ==_iff,
  Bool-cases, inl, inr,
}
use mathlib.Core.Path.{fun_ext}
use sdarc.Cell
use sdarc.Cell.{Cell}
use sdarc.Object.{
  Object, Section, Config, outside, entered, loaded, passed, with_section, update, enter, load,
  load_other, leave, count, apply, apply_all,
}
use sdarc.AtomicSdarc.Counts.{bit}
use sdarc.AtomicSdarc.Accesses.{load_accesses}
use sdarc.AtomicSdarc.Effects.{with_counts, with_counts-eq, increased_if}

-- The object with thread `t` elsewhere in its critical section
abbrev staged : ℕ → Section → Object → Object
staged t x o = record o { reader = with_section t x o }

module _ (c : Config) where
  -- Where a thread stands is what it was last set to, and nothing else is changed.
  with_section-twice :
      (t : ℕ) (x y : Section) (o : Object)
      → update (with_section t y o) t (record { section = x; slot = (o.reader t).slot })
        ≡ with_section t x o
  with_section-twice t x y o =
      fun_ext
        (λ u. elim (Bool-cases (t == u)) [ inl here ↦ rw here refl | inr there ↦ rw there refl ])

  staged-outside : (t : ℕ) (o : Object) → (o.reader t).section ≡ outside → staged t outside o ≡ o
  staged-outside t o out =
      ap (λ r. record o { reader = r })
        (fun_ext (λ u. elim (Bool-cases (t == u)) [
          | inl here ↦
              let same : t ≡ u = (==_iff t u).0 here in
              rw here
                (rw (← same) (ap (λ x. record { section = x; slot = (o.reader t).slot }) (sym out)))
          | inr there ↦ rw there refl
        ]))

  enters :
      (t : ℕ) (o : Object)
      → t < c.readers
      → (o.reader t).section ≡ outside
      → apply c (enter t) o ≡ staged t entered o
  unfolding apply
  enters t o r out = rw (lt→ltb t c.readers r, out) refl

  loads_it :
      (t : ℕ) (o : Object)
      → t < c.readers
      → 1 ≤ o.stored
      → apply c (load t) (staged t entered o) ≡ staged t loaded o
  unfolding apply
  loads_it t o r le =
      rw (lt→ltb t c.readers r, (==_iff t t).1 refl, lt→ltb 0 o.stored (omega arith))
        (ap (λ x. record o { reader = x }) (with_section-twice t loaded entered o))

  loads_other :
      (t : ℕ) (o : Object)
      → t < c.readers
      → apply c (load_other t) (staged t entered o) ≡ staged t passed o
  unfolding apply
  loads_other t o r =
      rw (lt→ltb t c.readers r, (==_iff t t).1 refl)
        (ap (λ x. record o { reader = x }) (with_section-twice t passed entered o))

  counts_it :
      (t i : ℕ) (o : Object)
      → t < c.readers
      → i < c.shards
      → apply c (count t i) (staged t loaded o)
        ≡ staged t passed
            (with_counts (increased_if true i o.cell) (o.owners + 1) o.stored o.pinned o)
  unfolding apply
  counts_it t i o r lt =
      rw (lt→ltb i c.shards lt, lt→ltb t c.readers r, (==_iff t t).1 refl)
        (ap
          (λ x. record o {
            cell = update o.cell i (Cell.increment (o.cell i));
            owners = o.owners + 1;
            reader = x;
          })
          (with_section-twice t passed loaded o))

  leaves :
      (t : ℕ) (o : Object)
      → t < c.readers
      → (o.reader t).section ≡ outside
      → apply c (leave t) (staged t passed o) ≡ o
  unfolding apply
  leaves t o r out =
      rw (lt→ltb t c.readers r, (==_iff t t).1 refl)
        (ap (λ x. record o { reader = x }) (with_section-twice t outside passed o)
          ∙ staged-outside t o out)

  -- A thread that is outside its critical section goes in, loads, counts what it is to count, and
  -- comes out.
  pub load_if :
      (b : Bool) (t i : ℕ) (o : Object)
      → t < c.readers
      → i < c.shards
      → (o.reader t).section ≡ outside
      → bit b ≤ o.stored
      → apply_all c (load_accesses b t i) o
        ≡ with_counts (increased_if b i o.cell) (o.owners + bit b) o.stored o.pinned o
  unfolding apply_all apply
  load_if false t i o r lt out le =
      ap (λ x. apply c (leave t) (apply c (load_other t) x)) (enters t o r out)
      ∙ ap (apply c (leave t)) (loads_other t o r)
      ∙ leaves t o r out
      ∙ with_counts-eq o refl (omega arith) refl refl
  load_if true t i o r lt out le =
      ap (λ x. apply c (leave t) (apply c (count t i) (apply c (load t) x))) (enters t o r out)
      ∙ ap (λ x. apply c (leave t) (apply c (count t i) x)) (loads_it t o r le)
      ∙ ap (apply c (leave t)) (counts_it t i o r lt)
      ∙ leaves t _ r out
