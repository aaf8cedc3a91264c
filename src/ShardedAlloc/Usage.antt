-- ===== src/ShardedAlloc/Usage.antt =====
-- The usage flags of one unit of src/sharded_alloc.rs: which slot a scan takes, and what it and
-- the release of a slot leave.
use sdarc.Prelude.{
  ℕ, zero, suc, ◌+◌, ◌-◌, ◌<◌, ◌≡◌, refl, ap, ◌⊎◌, inl, inr, List, [], ◌∷◌, none, some, arith,
  length, get_elem?, get_or, set, ltb,
}
use sdarc.Outcome.{done}
use sdarc.ShardedAlloc.{
  AllocUnit, ShardedDataPtr, slot_count_per_unit, take_free, with_flags, any_flag, count_flags,
  allocate_without_initializing, deallocate_without_dropping,
}

abbrev pub AllValid : List ℕ → Type 0
AllValid [] = Unit
AllValid (flag ∷ flags) = ((flag ≡ 0) ⊎ (flag ≡ 1)) × AllValid flags

pub record IsValidUnit (unit : AllocUnit) : Type 0 where
  pub flag_count : length unit.usage_flags ≡ slot_count_per_unit
  pub flags_valid : AllValid unit.usage_flags

-- Slot `i` is the first free one.
pub record IsFirstFree (i : ℕ) (flags : List ℕ) : Type 0 where
  pub free : get_elem? flags i ≡ some 0
  pub used_before : (j : ℕ) → j < i → get_elem? flags j ≡ some 1

IsFirstFree-suc : (i : ℕ) (flags : List ℕ) → IsFirstFree i flags → IsFirstFree (suc i) (1 ∷ flags)
IsFirstFree-suc i flags v = record { free = v.free; used_before = before }
  where
    before : (j : ℕ) → j < suc i → get_elem? (1 ∷ flags) j ≡ some 1
    before zero lt = refl
    before (suc j) lt = v.used_before j (omega arith)

pub take_free-finds :
    (flags : List ℕ)
    → AllValid flags
    → ((i : ℕ) × IsFirstFree i flags × (take_free flags ≡ done (some i, set flags i 1)))
      ⊎ ((take_free flags ≡ done (none, flags)) × (count_flags 0 flags ≡ 0))
unfolding take_free count_flags
take_free-finds [] v = inr (refl, refl)
take_free-finds (flag ∷ flags) (inl e, v) =
    inl (0, record { free = rw e; used_before = λ j lt. absurd (omega arith) }, rw e)
take_free-finds (flag ∷ flags) (inr e, v) = elim (take_free-finds flags v) [
  | inl (i, first, found) ↦ inl (suc i, rw e (IsFirstFree-suc i flags first), rw (e, found))
  | inr (missed, none_free) ↦ inr (rw (e, missed), rw (e, none_free))
]

pub set-AllValid :
    (flags : List ℕ) (i v : ℕ) → (v ≡ 0) ⊎ (v ≡ 1) → AllValid flags → AllValid (set flags i v)
set-AllValid [] i v ok valid = tt
set-AllValid (flag ∷ flags) zero v ok valid = (ok, valid.1)
set-AllValid (flag ∷ flags) (suc i) v ok valid = (valid.0, set-AllValid flags i v ok valid.1)

pub count_flags-taken :
    (flags : List ℕ) (i : ℕ)
    → get_elem? flags i ≡ some 0
    → count_flags 1 (set flags i 1) ≡ suc (count_flags 1 flags)
unfolding count_flags
count_flags-taken [] i h = cc
count_flags-taken (flag ∷ flags) zero h = ground arith
count_flags-taken (flag ∷ flags) (suc i) h = omega (arith, count_flags-taken flags i h)

pub count_flags-both :
    (flags : List ℕ) → AllValid flags → count_flags 0 flags + count_flags 1 flags ≡ length flags
unfolding count_flags
count_flags-both [] v = refl
count_flags-both (flag ∷ flags) (inl e, v) = rw e (omega (arith, count_flags-both flags v))
count_flags-both (flag ∷ flags) (inr e, v) = rw e (omega (arith, count_flags-both flags v))

pub any_flag-counts :
    (value : ℕ) (flags : List ℕ)
    → AllValid flags
    → any_flag value flags ≡ done (ltb 0 (count_flags value flags))
unfolding any_flag count_flags
any_flag-counts value [] v = refl
any_flag-counts value (flag ∷ flags) (inl e, v) =
    rw (e, any_flag-counts value flags v) (ground arith)
any_flag-counts value (flag ∷ flags) (inr e, v) =
    rw (e, any_flag-counts value flags v) (ground arith)

pub set-undone :
    (flags : List ℕ) (i v : ℕ) → get_elem? flags i ≡ some 0 → set (set flags i v) i 0 ≡ flags
set-undone [] i v h = refl
set-undone (flag ∷ flags) zero v h = ground arith
set-undone (flag ∷ flags) (suc i) v h = ap (λ x. flag ∷ x) (set-undone flags i v h)

pub get_or-set :
    (flags : List ℕ) (i v : ℕ) → get_elem? flags i ≡ some 0 → get_or (set flags i v) i 0 ≡ v
get_or-set [] i v h = cc
get_or-set (flag ∷ flags) zero v h = refl
get_or-set (flag ∷ flags) (suc i) v h = get_or-set flags i v h

-- On a unit with 16 valid flags, the scan takes the first free slot: it sets that flag and no
-- other, and its pointer is the address of that slot. If no slot is free, it changes nothing and
-- gives no pointer. It does not panic.
pub allocate_without_initializing-IsFirstFree :
    (unit : AllocUnit)
    → IsValidUnit unit
    → ((i : ℕ) × IsFirstFree i unit.usage_flags
        × (allocate_without_initializing unit
            ≡ done (
              some (record { base_ptr = unit.data_ptr + i }),
              with_flags unit (set unit.usage_flags i 1),
            )))
      ⊎ ((allocate_without_initializing unit ≡ done (none, unit))
          × (count_flags 0 unit.usage_flags ≡ 0))
unfolding allocate_without_initializing
allocate_without_initializing-IsFirstFree unit v =
    elim (take_free-finds unit.usage_flags v.flags_valid) [
      | inl (i, first, found) ↦ inl (i, first, rw found refl)
      | inr (missed, none_free) ↦ inr (rw missed refl, none_free)
    ]

pub release_taken :
    (unit : AllocUnit) (i : ℕ)
    → get_elem? unit.usage_flags i ≡ some 0
    → deallocate_without_dropping
        (record { base_ptr = unit.data_ptr + i })
        (with_flags unit (set unit.usage_flags i 1))
      ≡ done unit
unfolding deallocate_without_dropping
release_taken unit i free =
    let slot : unit.data_ptr + i - unit.data_ptr ≡ i = omega arith in
    rw (slot, get_or-set unit.usage_flags i 1 free, set-undone unit.usage_flags i 1 free) refl

-- When the scan of a valid unit gives a pointer, releasing that pointer gives back the unit as it
-- was, and does not panic.
pub deallocate-allocate :
    (unit : AllocUnit) {ptr : ShardedDataPtr} {unit' : AllocUnit}
    → IsValidUnit unit
    → allocate_without_initializing unit ≡ done (some ptr, unit')
    → deallocate_without_dropping ptr unit' ≡ done unit
deallocate-allocate unit v h = elim (allocate_without_initializing-IsFirstFree unit v) [
  | inl (i, first, found) ↦ let released = release_taken unit i first.free in cc
  | inr (missed, _) ↦ cc
]
