-- ===== src/AtomicSdarc/NonNull.antt =====
-- `AtomicSdarc` of src/atomic_sdarc.rs: its pointer is never null, so none of its `unwrap`s panics.
use sdarc.Prelude.{
  List, ℕ, ◌≡◌, ◌≢◌, refl, inl, inr, false, Bool-cases, Option, none, some, arith, ◌==◌, ==_iff,
  if◌then◌else◌,
}
use sdarc.Outcome.{Outcome, done, panic, ◌>>=◌}
use sdarc.AtomicSdarc.{
  new_with_value, BorrowGuard, borrow_from_atomic_ptr, Memory, nullable_from_raw_ptr,
  load_atomic_ptr_owned, swap, store, raw_compare_and_set, count_set, clone_sdarc, drop_sdarc,
  drop_option,
}

-- `Option::unwrap`
abbrev pub unwrap {ℓ} : {A : Type ℓ} → Option A → Outcome A
unwrap none = panic
unwrap (some a) = done a

-- `AtomicSdarc`'s operations, over those of `AtomicNullableSdarc`: what they give, the pointer, the
-- memory
unfoldable pub non_null_load_owned : ℕ → ℕ → Memory → Outcome (ℕ × Memory)
non_null_load_owned i inner_ptr m =
    let (loaded, m') = load_atomic_ptr_owned i inner_ptr m in unwrap loaded >>= λ p. done (p, m')

unfoldable pub non_null_swap : ℕ → ℕ → Outcome (ℕ × ℕ)
non_null_swap new_sdarc inner_ptr =
    let (old, inner_ptr') = swap (some new_sdarc) inner_ptr in
    unwrap old >>= λ p. done (p, inner_ptr')

unfoldable pub non_null_store : ℕ → ℕ → ℕ → Memory → ℕ × Memory
non_null_store i new_sdarc inner_ptr m = store i (some new_sdarc) inner_ptr m

abbrev pub unwrapped : Option (Option ℕ) × ℕ × Memory → Outcome (Option ℕ × ℕ × Memory)
unwrapped (none, inner_ptr, m) = done (none, inner_ptr, m)
unwrapped (some original, inner_ptr, m) = unwrap original >>= λ p. done (some p, inner_ptr, m)

unfoldable pub non_null_compare_and_set : ℕ → ℕ → ℕ → ℕ → Memory → Outcome (Option ℕ × ℕ × Memory)
non_null_compare_and_set i if_matches then_set inner_ptr m =
    raw_compare_and_set i if_matches then_set inner_ptr m >>= unwrapped

unfoldable pub non_null_sync_to : ℕ → ℕ → ℕ → Memory → Outcome (ℕ × Memory)
non_null_sync_to i target inner_ptr m =
    let synced = non_null_load_owned i inner_ptr m >>= λ r. done (r.0, drop_sdarc i target r.1) in
    if target == inner_ptr then done (target, m) else synced

-- `AtomicSdarc::new` and `AtomicSdarc::borrow`
unfoldable pub new_non_null : ℕ → ℕ → Memory → ℕ × Memory
new_non_null i p m = new_with_value i p m

unfoldable pub non_null_borrow :
    ℕ → ℕ → ℕ → ℕ → List ℕ → Memory → Outcome (BorrowGuard × List ℕ × Memory)
non_null_borrow i pre re last slots m =
    let (guard, slots', m') = borrow_from_atomic_ptr i pre re last slots m in
    unwrap guard >>= λ g. done (g, slots', m')

-- The operations, at the shard `i`, with addresses of `Sdarc`s
pub data Op : Type 0 where
  loads : (i : ℕ) → Op
  swaps : (new_sdarc : ℕ) → Op
  stores : (i new_sdarc : ℕ) → Op
  compares : (i if_matches then_set : ℕ) → Op
  syncs : (i target : ℕ) → Op

-- No `Sdarc` is null: `inner_ptr` is a `NonNull`.
abbrev pub IsNonNull : Op → Type 0
IsNonNull (loads i) = Unit
IsNonNull (swaps p) = p ≢ 0
IsNonNull (stores i p) = p ≢ 0
IsNonNull (compares i p q) = (p ≢ 0) × (q ≢ 0)
IsNonNull (syncs i p) = p ≢ 0

-- What an operation gives, if anything, with the pointer and the memory
unfoldable pub run_non_null : Op → ℕ × Memory → Outcome (Option ℕ × ℕ × Memory)
run_non_null (loads i) (ptr, m) = non_null_load_owned i ptr m >>= λ r. done (some r.0, ptr, r.1)
run_non_null (swaps p) (ptr, m) = non_null_swap p ptr >>= λ r. done (some r.0, r.1, m)
run_non_null (stores i p) (ptr, m) =
    let (ptr', m') = non_null_store i p ptr m in done (none, ptr', m')
run_non_null (compares i p q) (ptr, m) = non_null_compare_and_set i p q ptr m
run_non_null (syncs i p) (ptr, m) = non_null_sync_to i p ptr m >>= λ r. done (some r.0, ptr, r.1)

abbrev pub value_after : Op → ℕ → ℕ
value_after (loads i) ptr = ptr
value_after (swaps p) ptr = p
value_after (stores i p) ptr = p
value_after (compares i p q) ptr = if ptr == p then q else ptr
value_after (syncs i p) ptr = ptr

abbrev pub result_of : Op → ℕ → Option ℕ
result_of (loads i) ptr = some ptr
result_of (swaps p) ptr = some ptr
result_of (stores i p) ptr = none
result_of (compares i p q) ptr = if ptr == p then some ptr else none
result_of (syncs i p) ptr = some ptr

-- An `AtomicSdarc` is a register of addresses: on a pointer that is not null, with `Sdarc`s that
-- are not null, no operation panics, `load_owned` and `sync_to` give the value, `swap` gives the
-- old value and sets the new one, `store` sets it, and `compare_and_set` sets it and gives the old
-- value exactly when the value is the expected one; and the pointer is again not null.
pub run_non_null-register :
    (a : Op) (ptr : ℕ) (m : Memory)
    → IsNonNull a
    → ptr ≢ 0
    → (m' : Memory) × (run_non_null a (ptr, m) ≡ done (result_of a ptr, value_after a ptr, m'))
      × (value_after a ptr ≢ 0)
unfolding run_non_null non_null_load_owned load_atomic_ptr_owned non_null_swap swap non_null_store
    store non_null_compare_and_set raw_compare_and_set non_null_sync_to
run_non_null-register (loads i) ptr m ok ne =
    let something : (ptr == 0) ≡ false = ground arith in
    (clone_sdarc i ptr m, rw something refl, ne)
run_non_null-register (swaps p) ptr m ok ne =
    let something : (ptr == 0) ≡ false = ground arith in (m, rw something refl, ok)
run_non_null-register (stores i p) ptr m ok ne =
    (drop_option i (nullable_from_raw_ptr ptr) m, refl, ok)
run_non_null-register (compares i p q) ptr m ok ne =
    let something : (ptr == 0) ≡ false = ground arith in
    elim (Bool-cases (ptr == p)) [
      | inl matches ↦ (count_set i q m, rw (matches, something) refl, rw matches ok.1)
      | inr differs ↦ (m, rw differs refl, rw differs ne)
    ]
run_non_null-register (syncs i p) ptr m ok ne =
    let something : (ptr == 0) ≡ false = ground arith in
    elim (Bool-cases (p == ptr)) [
      | inl current ↦
          let same : p ≡ ptr = (==_iff p ptr).0 current in (m, rw (current, same) refl, ne)
      | inr stale ↦ (drop_sdarc i p (clone_sdarc i ptr m), rw (stale, something) refl, ne)
    ]
