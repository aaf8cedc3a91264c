-- ===== src/AtomicSdarc/Accesses.antt =====
-- The accesses to one object that the operations of src/atomic_sdarc.rs and src/sdarc.rs are made
-- of, as `Action`s of `Object`, in the code's order. An exchange of the pointer that puts the object
-- in and takes it out is two actions of `Object`, first in, then out.
use sdarc.Prelude.{
  ℕ, Bool, false, ◌&&◌, List, [], ◌∷◌, ◌++◌, Option, none, some, ltb, ◌==◌, if◌then◌else◌,
}
use sdarc.Object.{
  Action, clone, drop, swap_in, swap_out, cas_set, cas_count, enter, load, load_other, leave, count,
}
use sdarc.AtomicSdarc.{nullable_into_raw_ptr}
use sdarc.AtomicSdarc.Program.{
  World, Op, clones, drops, loads, swaps, stores, compares, syncs, holds,
}

-- The `Option<Sdarc>` is a `Sdarc` of the object at `p`.
abbrev pub is_of : Option ℕ → ℕ → Bool
is_of none p = false
is_of (some q) p = q == p

abbrev pub only_if : Bool → Action → List Action
only_if b a = if b then a ∷ [] else []

-- `load_atomic_ptr_owned` in thread `t`, of a pointer that is the object or is not
abbrev pub load_accesses : Bool → ℕ → ℕ → List Action
load_accesses is_object t i =
    if is_object
    then enter t ∷ load t ∷ count t i ∷ leave t ∷ []
    else enter t ∷ load_other t ∷ leave t ∷ []

-- What an operation in thread `t` does to the object at `p`
abbrev pub accesses : ℕ → ℕ → ℕ → Op → World → List Action
accesses shards t p (clones i q) w =
    if ltb i shards && holds w (some q) then only_if (q == p) (clone i) else []
accesses shards t p (drops i q) w =
    if ltb i shards && holds w (some q) then only_if (q == p) (drop i) else []
accesses shards t p (loads i) w = if ltb i shards then load_accesses (w.inner_ptr == p) t i else []
accesses shards t p (swaps sdarc) w =
    if holds w sdarc
    then only_if (is_of sdarc p) swap_in ++ only_if (w.inner_ptr == p) swap_out
    else []
accesses shards t p (stores i sdarc) w =
    if ltb i shards && holds w sdarc
    then (only_if (is_of sdarc p) swap_in ++ only_if (w.inner_ptr == p) swap_out)
      ++ only_if (w.inner_ptr == p) (drop i)
    else []
accesses shards t p (compares i if_matches then_set) w =
    if ltb i shards && holds w if_matches && holds w then_set
    then (if w.inner_ptr == nullable_into_raw_ptr if_matches
        then (only_if (is_of then_set p) cas_set ++ only_if (w.inner_ptr == p) swap_out)
          ++ only_if (is_of then_set p) (cas_count i)
        else [])
    else []
accesses shards t p (syncs i target) w =
    if ltb i shards && holds w target
    then (if nullable_into_raw_ptr target == w.inner_ptr
        then []
        else load_accesses (w.inner_ptr == p) t i ++ only_if (is_of target p) (drop i))
    else []
