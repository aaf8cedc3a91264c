-- ===== src/AtomicSdarc/Cells.antt =====
-- Which counter of an object the operations of src/sdarc.rs and src/atomic_sdarc.rs change.
use sdarc.Prelude.{
  ℕ, ◌≡◌, ◌≢◌, refl, inl, inr, true, false, Bool-cases, Option, none, some, arith, ◌==◌, ==_iff,
}
use sdarc.AtomicSdarc.{
  Memory, clone_sdarc, drop_sdarc, drop_option, nullable_from_raw_ptr, nullable_into_raw_ptr,
  load_atomic_ptr_owned, count_set,
}
use sdarc.AtomicSdarc.Counts.{bit, owns}
use sdarc.AtomicSdarc.Program.{World, holds}
use sdarc.AtomicSdarc.Accesses.{is_of}
use sdarc.AtomicSdarc.Effects.{increased_if, decreased_if}

pub owns-is_of : (o : Option ℕ) (p : ℕ) → owns o p ≡ bit (is_of o p)
owns-is_of none p = refl
owns-is_of (some q) p = refl

pub from-is_of : (ptr p : ℕ) → p ≢ 0 → is_of (nullable_from_raw_ptr ptr) p ≡ (ptr == p)
from-is_of ptr p ne = elim (Bool-cases (ptr == 0)) [
  | inl null ↦ let other : (ptr == p) ≡ false = ground arith in rw (null, other) refl
  | inr something ↦ rw something refl
]

pub counters-clone :
    (i q p : ℕ) (m : Memory)
    → (clone_sdarc i q m).counters p ≡ increased_if (q == p) i (m.counters p)
counters-clone i q p m = elim (Bool-cases (q == p)) [
  | inl here ↦ let same : q ≡ p = (==_iff q p).0 here in rw (here, same) refl
  | inr there ↦ rw there refl
]

pub counters-drop :
    (i q p : ℕ) (m : Memory)
    → (drop_sdarc i q m).counters p ≡ decreased_if (q == p) i (m.counters p)
counters-drop i q p m = elim (Bool-cases (q == p)) [
  | inl here ↦ let same : q ≡ p = (==_iff q p).0 here in rw (here, same) refl
  | inr there ↦ rw there refl
]

pub counters-drop_option :
    (i p : ℕ) (o : Option ℕ) (m : Memory)
    → (drop_option i o m).counters p ≡ decreased_if (is_of o p) i (m.counters p)
counters-drop_option i p none m = refl
counters-drop_option i p (some q) m = counters-drop i q p m

pub counters-load :
    (i ptr p : ℕ) (m : Memory)
    → p ≢ 0
    → let (loaded, m') = load_atomic_ptr_owned i ptr m in
      (m'.counters p ≡ increased_if (ptr == p) i (m.counters p)) × (owns loaded p ≡ bit (ptr == p))
unfolding load_atomic_ptr_owned
counters-load i ptr p m ne = elim (Bool-cases (ptr == 0)) [
  | inl null ↦ let other : (ptr == p) ≡ false = ground arith in rw (null, other) (refl, refl)
  | inr something ↦ rw something (counters-clone i ptr p m, refl)
]

pub counters-count_set :
    (i p : ℕ) (o : Option ℕ) (w : World)
    → holds w o ≡ true
    → (count_set i (nullable_into_raw_ptr o) w.memory).counters p
      ≡ increased_if (is_of o p) i (w.memory.counters p)
counters-count_set i p none w h = refl
counters-count_set i p (some q) w h =
    let something : (q == 0) ≡ false = ground arith in rw something (counters-clone i q p w.memory)
