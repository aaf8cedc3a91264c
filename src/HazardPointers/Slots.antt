-- ===== src/HazardPointers/Slots.antt =====
-- What the slots of src/atomic_sdarc.rs hold after a publication and after a borrow.
use sdarc.Prelude.{
  ℕ, zero, suc, ◌+◌, ◌<◌, ◌≡◌, ◌≢◌, refl, sym, ap, ◌⊎◌, inl, inr, true, false, ◌||◌, ◌&&◌, not,
  Bool-cases, List, [], ◌∷◌, Option, none, some, arith, ◌==◌, ==_iff, length, set, get_or,
}
use sdarc.Outcome.{done}
use sdarc.HazardPointers.{
  publish_from, try_publish_maybe_dangling_hazard_pointer,
  unpublish_hazard_pointer_on_borrow_finish, shows, slot_full, pointer_changed, TryBorrow, ok, err,
  after_publish, try_borrow,
}

abbrev pub AllFull : List ℕ → Type 0
AllFull [] = Unit
AllFull (x ∷ slots) = (x ≢ 0) × AllFull slots

abbrev pub AllFullBelow : ℕ → List ℕ → Type 0
AllFullBelow zero slots = Unit
AllFullBelow (suc k) [] = Unit
AllFullBelow (suc k) (x ∷ slots) = (x ≢ 0) × AllFullBelow k slots

-- What a publication finds: a first null slot, at `i + k`, or none.
abbrev pub Published : ℕ → ℕ → List ℕ → Option ℕ × List ℕ → Type 0
Published ptr i slots r =
    ((r ≡ (none, slots)) × AllFull slots)
    ⊎ ((k : ℕ) × (r ≡ (some (i + k), set slots k ptr))
        × (k < length slots)
        × (get_or slots k 1 ≡ 0)
        × AllFullBelow k slots)

publish_from-Published :
    (ptr i : ℕ) (slots : List ℕ) → Published ptr i slots (publish_from ptr i slots)
unfolding publish_from
publish_from-Published ptr i [] = inl (refl, tt)
publish_from-Published ptr i (x ∷ slots) = elim (Bool-cases (x == 0)) [
  | inl null ↦
      let same : x ≡ 0 = (==_iff x 0).0 null in
      let start : i + 0 ≡ i = omega arith in
      rw (null, publish_from) (inr (0, rw start refl, omega arith, same, tt))
  | inr taken ↦
      let full : x ≢ 0 = λ e. ground arith in
      elim (publish_from-Published ptr (suc i) slots) [
        | inl (e, rest) ↦ rw (publish_from, taken, e) (inl (refl, (full, rest)))
        | inr (k, e, lt, null, below) ↦
            let next : suc i + k ≡ i + suc k = omega arith in
            rw (publish_from, taken, e)
              (inr (suc k, rw next refl, omega arith, null, (full, below)))
      ]
]

-- A published pointer is in the first slot that was null, and no other slot changes; there is no
-- index exactly when no slot is null, and then nothing changes.
pub try_publish_maybe_dangling_hazard_pointer-Published :
    (ptr : ℕ) (slots : List ℕ)
    → Published ptr 0 slots (try_publish_maybe_dangling_hazard_pointer ptr slots)
unfolding try_publish_maybe_dangling_hazard_pointer
try_publish_maybe_dangling_hazard_pointer-Published ptr slots = publish_from-Published ptr 0 slots

set-null_again :
    (slots : List ℕ) (k ptr : ℕ)
    → k < length slots
    → get_or slots k 1 ≡ 0
    → set (set slots k ptr) k 0 ≡ slots
set-null_again [] k ptr lt null = absurd (omega arith)
set-null_again (x ∷ slots) zero ptr lt null = ap (λ y. y ∷ slots) (sym null)
set-null_again (x ∷ slots) (suc k) ptr lt null =
    ap (λ s. x ∷ s) (set-null_again slots k ptr (omega arith) null)

get_or-set : (slots : List ℕ) (k x d : ℕ) → k < length slots → get_or (set slots k x) k d ≡ x
get_or-set [] k x d lt = absurd (omega arith)
get_or-set (y ∷ slots) zero x d lt = refl
get_or-set (y ∷ slots) (suc k) x d lt = get_or-set slots k x d (omega arith)

shows-set :
    (slots : List ℕ) (k ptr : ℕ) → k < length slots → ptr ≢ 0 → shows ptr (set slots k ptr) ≡ true
unfolding shows
shows-set [] k ptr lt ne = absurd (omega arith)
shows-set (x ∷ slots) zero ptr lt ne =
    let some_ptr : (ptr == 0) ≡ false = ground arith in rw (some_ptr, (==_iff ptr ptr).1 refl) refl
shows-set (x ∷ slots) (suc k) ptr lt ne =
    let later = shows-set slots k ptr (omega arith) ne in ground (arith, later)

shows-set_other :
    (slots : List ℕ) (k ptr q : ℕ)
    → get_or slots k 1 ≡ 0
    → q ≢ ptr
    → shows q (set slots k ptr) ≡ shows q slots
unfolding shows
shows-set_other [] k ptr q null ne = refl
shows-set_other (x ∷ slots) zero ptr q null ne =
    let here : (x == 0) ≡ true = ground arith in
    let there : (ptr == q) ≡ false = ground arith in
    elim (Bool-cases (ptr == 0)) [
      | inl nothing ↦ rw (here, nothing) refl
      | inr something ↦ rw (here, something, there) refl
    ]
shows-set_other (x ∷ slots) (suc k) ptr q null ne =
    ap (λ b. (not (x == 0) && x == q) || b) (shows-set_other slots k ptr q null ne)

-- What a borrow gives, by its result
abbrev pub Borrows : ℕ → ℕ → List ℕ → TryBorrow × List ℕ → Type 0
Borrows pre re slots (ok none, after) = (pre ≡ 0) × (after ≡ slots)
Borrows pre re slots (ok (some g), after) =
    (g.loaded_ptr ≡ re)
    × (re ≡ pre)
    × (pre ≢ 0)
    × (shows re after ≡ true)
    × ((q : ℕ) → q ≢ re → shows q after ≡ shows q slots)
    × (unpublish_hazard_pointer_on_borrow_finish g.hazard_slot_index after ≡ done slots)
Borrows pre re slots (err slot_full, after) = (pre ≢ 0) × AllFull slots × (after ≡ slots)
Borrows pre re slots (err pointer_changed, after) = (pre ≢ 0) × (re ≢ pre) × (after ≡ slots)

after_publish-Borrows :
    (pre re k : ℕ) (slots : List ℕ)
    → pre ≢ 0
    → k < length slots
    → get_or slots k 1 ≡ 0
    → Borrows pre re slots (after_publish pre re (some k) (set slots k pre))
unfolding unpublish_hazard_pointer_on_borrow_finish
after_publish-Borrows pre re k slots ne lt null = elim (Bool-cases (re == pre)) [
  | inl same ↦
      let e : re ≡ pre = (==_iff re pre).0 same in
      let something : (pre == 0) ≡ false = ground arith in
      rw (same, e)
        (
          refl,
          refl,
          ne,
          shows-set slots k pre lt ne,
          (λ q other. shows-set_other slots k pre q null other),
          rw (unpublish_hazard_pointer_on_borrow_finish, get_or-set slots k pre 0 lt, something)
              (ap done (set-null_again slots k pre lt null)),
        )
  | inr changed ↦ rw changed (ne, (λ e. ground arith), set-null_again slots k pre lt null)
]

-- A borrow of an atomic pointer through a hazard pointer, whatever its two loads give. It gives
-- nothing when the first load gives null. It gives a guard exactly when both loads agree and a slot
-- is free: then the collector is shown the address that the guard borrows, and of other addresses
-- the same as before; and the end of the borrow, which does not panic, brings the slots back. When
-- no slot is free, or when the second load differs, it fails and leaves the slots as they were.
pub try_borrow-Borrows :
    (pre re : ℕ) (slots : List ℕ) → Borrows pre re slots (try_borrow pre re slots)
unfolding try_borrow
try_borrow-Borrows pre re slots = elim (Bool-cases (pre == 0)) [
  | inl null ↦ rw (try_borrow, null) ((==_iff pre 0).0 null, refl)
  | inr something ↦
      let ne : pre ≢ 0 = λ e. ground arith in
      elim (try_publish_maybe_dangling_hazard_pointer-Published pre slots) [
        | inl (e, full) ↦ rw (try_borrow, something, e) (ne, full, refl)
        | inr (k, e, lt, null, below) ↦
            let start : 0 + k ≡ k = omega arith in
            rw (try_borrow, something, e, start) (after_publish-Borrows pre re k slots ne lt null)
      ]
]
