-- ===== src/Tracker/NotReady.antt =====
-- The counters of a map of src/collector.rs that are ready to free, and the others.
use sdarc.Prelude.{ℕ, suc, ◌≡◌, inl, inr, false, Bool-cases, List, [], ◌∷◌, arith, if◌then◌else◌}
use sdarc.BTree.{set_insert}
use sdarc.BTree.Order.{AllFrom, AllFrom-weaken, PrefixBelow}
use sdarc.Tracker.{TrackedCounter, TrackedCounters, is_ready, is_re_checking}

abbrev pub ready_keys : TrackedCounters → List ℕ
ready_keys [] = []
ready_keys ((key, counter) ∷ rest) =
    if is_ready counter.state then key ∷ ready_keys rest else ready_keys rest

-- The objects of those counters
abbrev pub ready_fat_ptrs : TrackedCounters → List ℕ
ready_fat_ptrs [] = []
ready_fat_ptrs ((key, counter) ∷ rest) =
    if is_ready counter.state then counter.fat_ptr ∷ ready_fat_ptrs rest else ready_fat_ptrs rest

-- The set of the counters that require re-checking
abbrev pub re_checking_keys : TrackedCounters → List ℕ
re_checking_keys [] = []
re_checking_keys ((key, counter) ∷ rest) =
    if is_re_checking counter.state
    then set_insert key (re_checking_keys rest)
    else re_checking_keys rest

-- The map without the counters that are ready to free
abbrev pub not_ready : TrackedCounters → TrackedCounters
not_ready [] = []
not_ready ((key, counter) ∷ rest) =
    if is_ready counter.state then not_ready rest else (key, counter) ∷ not_ready rest

abbrev pub NoneReady : TrackedCounters → Type 0
NoneReady [] = Unit
NoneReady ((key, counter) ∷ rest) = (is_ready counter.state ≡ false) × NoneReady rest

pub not_ready-NoneReady : (m : TrackedCounters) → NoneReady (not_ready m)
not_ready-NoneReady [] = tt
not_ready-NoneReady ((key, counter) ∷ rest) = elim (Bool-cases (is_ready counter.state)) [
  | inl ready ↦ rw ready (not_ready-NoneReady rest)
  | inr other ↦ rw other (other, not_ready-NoneReady rest)
]

pub not_ready-AllFrom : (b : ℕ) (m : TrackedCounters) → AllFrom b m → AllFrom b (not_ready m)
not_ready-AllFrom b [] v = tt
not_ready-AllFrom b ((key, counter) ∷ rest) v = elim (Bool-cases (is_ready counter.state)) [
  | inl ready ↦
      rw ready
        (AllFrom-weaken b (suc key) _ (omega (arith, v.0)) (not_ready-AllFrom (suc key) rest v.1))
  | inr other ↦ rw other (v.0, not_ready-AllFrom (suc key) rest v.1)
]

pub below_none : PrefixBelow {V = TrackedCounter} 0 []
unfolding PrefixBelow
below_none = tt
