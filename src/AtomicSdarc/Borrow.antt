-- ===== src/AtomicSdarc/Borrow.antt =====
-- `borrow_from_atomic_ptr` of src/atomic_sdarc.rs: a borrow by a hazard pointer, or by an owned
-- `Sdarc` when that fails.
use sdarc.Prelude.{
  ℕ, suc, ◌<◌, ◌≡◌, ◌≢◌, refl, sym, ◌∙◌, ◌⊎◌, inl, inr, true, Bool-cases, List, Option, none, some,
  arith, ◌==◌, ==_iff,
}
use sdarc.Prelude.Int.{pos, ◌+ℤ◌, int_laws}
use sdarc.Outcome.{◌>>=◌, done}
use sdarc.HazardPointers.{TryBorrow, ok, err, slot_full, pointer_changed, try_borrow, shows}
use sdarc.HazardPointers.Slots.{Borrows, try_borrow-Borrows}
use sdarc.AtomicSdarc.{
  Memory, drop_sdarc, clone_sdarc, load_atomic_ptr_owned, BorrowGuard, using_hazard_ptr, owned,
  owned_guard, or_load, borrow_from_atomic_ptr, drop_guard,
}
use sdarc.AtomicSdarc.NonNull.{unwrap, non_null_borrow}
use sdarc.AtomicSdarc.Counts.{strong_count, strong_count-clone_sdarc, strong_count-drop_sdarc}

-- What a guard keeps alive
abbrev pub borrowed_ptr : BorrowGuard → ℕ
borrowed_ptr (using_hazard_ptr g) = g.loaded_ptr
borrowed_ptr (owned p) = p

module _ (shards : ℕ) where
  -- While the guard lives: the collector is shown the address, or the counters have one more.
  abbrev pub IsKept : Memory → Memory → List ℕ → BorrowGuard → Type 0
  IsKept m m' slots (using_hazard_ptr g) = (shows g.loaded_ptr slots ≡ true) × (m' ≡ m)
  IsKept m m' slots (owned p) = strong_count shards p m' ≡ strong_count shards p m +ℤ pos 1

  -- What a borrow gives, by its result
  abbrev pub IsBorrowed :
      ℕ → ℕ → ℕ → List ℕ → Memory → Option BorrowGuard × List ℕ × Memory → Type 0
  IsBorrowed pre re last slots m (none, slots', m') =
      ((pre ≡ 0) ⊎ (last ≡ 0)) × (slots' ≡ slots) × (m' ≡ m)
  IsBorrowed pre re last slots m (some guard, slots', m') =
      ((borrowed_ptr guard ≡ re) ⊎ (borrowed_ptr guard ≡ last))
      × (borrowed_ptr guard ≢ 0)
      × IsKept m m' slots' guard
      × ((j : ℕ)
          → j < shards
          → (m'' : Memory) × (drop_guard j guard slots' m' ≡ done (slots, m''))
            × ((p : ℕ) → strong_count shards p m'' ≡ strong_count shards p m))

  owned-IsBorrowed :
      (i pre re last : ℕ) (slots : List ℕ) (m : Memory)
      → i < shards
      → IsBorrowed pre re last slots m (owned_guard slots (load_atomic_ptr_owned i last m))
  unfolding load_atomic_ptr_owned drop_guard
  owned-IsBorrowed i pre re last slots m lt = elim (Bool-cases (last == 0)) [
    | inl null ↦ rw (load_atomic_ptr_owned, null) (inr ((==_iff last 0).0 null), refl, refl)
    | inr something ↦
        let count = λ (p : ℕ). strong_count-clone_sdarc shards i last p m lt in
        let here : (last == last) ≡ true = (==_iff last last).1 refl in
        rw (load_atomic_ptr_owned, something)
          (
            inr refl,
            (λ e. ground arith),
            (count last ∙ rw here refl),
            λ j inside. (
              drop_sdarc j last (clone_sdarc i last m),
              refl,
              λ p.
                  strong_count-drop_sdarc shards j last p (clone_sdarc i last m) inside
                  ∙ rw (count p) (omega int_laws),
            ),
          )
  ]

  or_load-IsBorrowed :
      (i pre re last : ℕ) (slots : List ℕ) (m : Memory) (r : TryBorrow × List ℕ)
      → i < shards
      → Borrows pre re slots r
      → IsBorrowed pre re last slots m (or_load i last m r)
  unfolding drop_guard
  or_load-IsBorrowed i pre re last slots m (ok none, slots') lt b = (inl b.0, b.1, refl)
  or_load-IsBorrowed i pre re last slots m (ok (some g), slots') lt
        (loaded, same, ne, shown, others, back) =
      (
        inl loaded,
        (λ e. ne (sym same ∙ sym loaded ∙ e)),
        (rw loaded shown, refl),
        λ j inside. (m, rw back refl, λ p. refl),
      )
  or_load-IsBorrowed i pre re last slots m (err slot_full, slots') lt b =
      rw b.2 (owned-IsBorrowed i pre re last slots m lt)
  or_load-IsBorrowed i pre re last slots m (err pointer_changed, slots') lt b =
      rw b.2 (owned-IsBorrowed i pre re last slots m lt)

  -- A borrow from an atomic pointer, whatever its loads of the pointer give. It gives nothing only
  -- when a load gave null, and then it changes nothing. Otherwise it gives a guard on an address
  -- that it loaded, which is not null: the collector is shown the address, or its object's counters
  -- have one more. The guard's drop, at whatever shard, does not panic, and brings back the slots
  -- and what the counters of every object add up to.
  pub borrow_from_atomic_ptr-IsBorrowed :
      (i pre re last : ℕ) (slots : List ℕ) (m : Memory)
      → i < shards
      → IsBorrowed pre re last slots m (borrow_from_atomic_ptr i pre re last slots m)
  unfolding borrow_from_atomic_ptr
  borrow_from_atomic_ptr-IsBorrowed i pre re last slots m lt =
      or_load-IsBorrowed i pre re last slots m (try_borrow pre re slots) lt
        (try_borrow-Borrows pre re slots)

-- Where every load gives an address that is not null, `AtomicSdarc::borrow` does not panic.
pub non_null_borrow-done :
    (i pre re last : ℕ) (slots : List ℕ) (m : Memory)
    → pre ≢ 0
    → last ≢ 0
    → (r : BorrowGuard × List ℕ × Memory) × (non_null_borrow i pre re last slots m ≡ done r)
unfolding non_null_borrow
non_null_borrow-done i pre re last slots m ne ne' =
    from_result (borrow_from_atomic_ptr i pre re last slots m)
      (borrow_from_atomic_ptr-IsBorrowed (suc i) i pre re last slots m (omega arith))
  where
    from_result :
        (b : Option BorrowGuard × List ℕ × Memory)
        → IsBorrowed (suc i) pre re last slots m b
        → (r : BorrowGuard × List ℕ × Memory) × ((unwrap b.0 >>= λ g. done (g, b.1, b.2)) ≡ done r)
    from_result (none, slots', m') v =
        absurd (elim v.0 [ inl null ↦ ne null | inr null ↦ ne' null ])
    from_result (some g, slots', m') v = ((g, slots', m'), refl)
