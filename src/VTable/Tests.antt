-- ===== src/VTable/Tests.antt =====
-- Runs of the definitions for the type erasure of src/sdarc.rs, and its theorem at an input.
use sdarc.Prelude.{ℕ, Bool, ◌&&◌, ◌==◌, ◌≡◌, refl, List, [], ◌∷◌, none, arith}
use sdarc.Outcome.{Outcome, done, panic, Gives}
use sdarc.ShardedAlloc.{ShardedDataPtr}
use sdarc.VTable.{
  TypeName, content, weak_sdarc_inner, Erased, Operation, creates, downgrades, clears, drops,
  deallocates, operate, operate_all, into_typed, clear_weak_backref_at, drop_fields_at,
  drop_weak_ref, drop_value,
}
use sdarc.VTable.Sound.{GivesCounters, operate_all-IsErased}
use sdarc.VTable.Created.{IsErased}

-- The compiler has put the counters of a `WeakSdarcInner` first, and those of others second.
abbrev offset_of : TypeName → ℕ
offset_of (content n) = 1
offset_of (weak_sdarc_inner t) = 0

-- The `Drop` of the content 7 panics for the value 6.
abbrev user_drop_panics : ℕ → ℕ → Bool
user_drop_panics n m = n == 7 && m == 6

abbrev slot : ℕ → ShardedDataPtr
slot a = record { base_ptr = a }

abbrev empty : Erased offset_of user_drop_panics
empty = record {
  boxes = record { place = λ p. none; field = λ p. none; decrements = []; deallocated = [] };
  fats = λ p. none;
  freeing = none;
  errors = [];
}

-- The `Drop` of the object at 1000 creates a `Sdarc`, and panics.
abbrev born_and_freed : List (Operation offset_of user_drop_panics)
born_and_freed =
    creates 7 6 1000 (slot 1)
    ∷ downgrades (content 7) 1000 1100 (slot 2)
    ∷ clears 1000
    ∷ drops 1000
    ∷ creates 8 0 1200 (slot 3)
    ∷ deallocates
    ∷ drops 1100
    ∷ deallocates
    ∷ []

abbrev deallocations : Outcome (Erased offset_of user_drop_panics) → List ShardedDataPtr × List ℕ
deallocations (done s) = (s.boxes.deallocated, s.errors)
deallocations panic = ([], [])

frees_both :
    deallocations (operate_all offset_of user_drop_panics born_and_freed empty)
    ≡ (slot 2 ∷ slot 1 ∷ [], 1000 ∷ [])
unfolding operate_all operate into_typed clear_weak_backref_at drop_fields_at drop_weak_ref
    drop_value
frees_both = refl

-- Without the clearing, the drop of the `WeakSdarcInner` panics, which is caught.
needs_clearing :
    deallocations (
      operate_all offset_of user_drop_panics
        (creates 7 5 1000 (slot 1) ∷ downgrades (content 7) 1000 1100 (slot 2) ∷ drops 1100 ∷ [])
        empty)
    ≡ (slot 2 ∷ [], 1100 ∷ [])
unfolding operate_all operate into_typed clear_weak_backref_at drop_fields_at drop_weak_ref
    drop_value
needs_clearing = refl

operate_all-IsErased_example :
    Gives
      (λ s. IsErased offset_of user_drop_panics s × GivesCounters offset_of user_drop_panics s)
      (operate_all offset_of user_drop_panics born_and_freed empty)
unfolding operate into_typed clear_weak_backref_at drop_fields_at drop_weak_ref drop_value
operate_all-IsErased_example =
    operate_all-IsErased offset_of user_drop_panics born_and_freed empty
      ((λ p i e. cc), (λ p f e. cc))
      (
        (refl, refl),
        (
          (refl, (λ e. omega arith), refl, refl),
          (
            tt,
            (
              tt,
              (
                (refl, refl),
                (
                  (λ p h q i e r. ground (arith, h, e, r)),
                  (tt, ((λ p h q i e r. ground (arith, h, e, r)), tt)),
                ),
              ),
            ),
          ),
        ),
      )
