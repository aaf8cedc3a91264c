-- ===== src/ShardedAlloc/Groups.antt =====
-- When a group of units of src/sharded_alloc.rs is well formed, and how many of its slots are used.
use sdarc.Prelude.{
  ℕ, zero, suc, ◌+◌, ◌<◌, ◌≤◌, ◌≡◌, refl, sym, ap, List, [], ◌∷◌, ◌++◌, some, arith, length,
  get_elem?, set,
}
use mathlib.Core.Option.{some-injective}
use sdarc.ShardedAlloc.{
  AllocUnit, AllocUnitGroup, count_flags, last_of, but_last, swap_remove_first,
}
use sdarc.ShardedAlloc.Usage.{IsValidUnit}

abbrev pub AllUnits : List AllocUnit → Type 0
AllUnits [] = Unit
AllUnits (unit ∷ units) = IsValidUnit unit × AllUnits units

abbrev pub AllBelow : ℕ → List ℕ → Type 0
AllBelow n [] = Unit
AllBelow n (i ∷ indexes) = (i < n) × AllBelow n indexes

-- The units are valid, and each index to check is the index of a unit.
pub record IsValidGroup (group : AllocUnitGroup) : Type 0 where
  pub units_valid : AllUnits group.all_units
  pub indexes_valid :
      AllBelow (length group.all_units) group.indexes_of_units_to_check_for_allocation

unfoldable pub used_slots : List AllocUnit → ℕ
used_slots [] = 0
used_slots (unit ∷ units) = count_flags 1 unit.usage_flags + used_slots units

abbrev pub group_of : List AllocUnit → List ℕ → AllocUnitGroup
group_of units indexes = record {
  all_units = units;
  indexes_of_units_to_check_for_allocation = indexes;
}

pub unit_at :
    (units : List AllocUnit) (i : ℕ)
    → AllUnits units
    → i < length units
    → (unit : AllocUnit) × (get_elem? units i ≡ some unit) × IsValidUnit unit
unit_at [] i v lt = absurd (omega arith)
unit_at (unit ∷ units) zero v lt = (unit, refl, v.0)
unit_at (unit ∷ units) (suc i) v lt = unit_at units i v.1 (omega arith)

pub set_same :
    (units : List AllocUnit) (i : ℕ) (unit : AllocUnit)
    → get_elem? units i ≡ some unit
    → set units i unit ≡ units
set_same [] i unit e = refl
set_same (x ∷ units) zero unit e = ap (λ y. y ∷ units) (some-injective _ _ (sym e))
set_same (x ∷ units) (suc i) unit e = ap (λ y. x ∷ y) (set_same units i unit e)

pub AllUnits-set :
    (units : List AllocUnit) (i : ℕ) (unit : AllocUnit)
    → IsValidUnit unit
    → AllUnits units
    → AllUnits (set units i unit)
AllUnits-set [] i unit ok v = tt
AllUnits-set (x ∷ units) zero unit ok v = (ok, v.1)
AllUnits-set (x ∷ units) (suc i) unit ok v = (v.0, AllUnits-set units i unit ok v.1)

pub used_slots-set :
    (units : List AllocUnit) (i : ℕ) (unit unit' : AllocUnit)
    → get_elem? units i ≡ some unit
    → count_flags 1 unit'.usage_flags ≡ suc (count_flags 1 unit.usage_flags)
    → used_slots (set units i unit') ≡ suc (used_slots units)
unfolding used_slots
used_slots-set [] i unit unit' e h = cc
used_slots-set (x ∷ units) zero unit unit' e h =
    let same : count_flags 1 x.usage_flags ≡ count_flags 1 unit.usage_flags =
      ap (λ y. count_flags 1 y.usage_flags) (some-injective _ _ e) in
    omega arith
used_slots-set (x ∷ units) (suc i) unit unit' e h =
    omega (arith, used_slots-set units i unit unit' e h)

pub AllUnits-append :
    (units : List AllocUnit) (unit : AllocUnit)
    → IsValidUnit unit
    → AllUnits units
    → AllUnits (units ++ unit ∷ [])
AllUnits-append [] unit ok v = (ok, tt)
AllUnits-append (x ∷ units) unit ok v = (v.0, AllUnits-append units unit ok v.1)

pub used_slots-append :
    (units : List AllocUnit) (unit : AllocUnit)
    → used_slots (units ++ unit ∷ []) ≡ used_slots units + count_flags 1 unit.usage_flags
unfolding used_slots
used_slots-append [] unit = omega arith
used_slots-append (x ∷ units) unit = omega (arith, used_slots-append units unit)

pub AllBelow-weaken : (n m : ℕ) (indexes : List ℕ) → n ≤ m → AllBelow n indexes → AllBelow m indexes
AllBelow-weaken n m [] le v = tt
AllBelow-weaken n m (i ∷ indexes) le v = (omega (arith, v.0), AllBelow-weaken n m indexes le v.1)

pub AllBelow-append :
    (n : ℕ) (indexes : List ℕ) (i : ℕ) → i < n → AllBelow n indexes → AllBelow n (indexes ++ i ∷ [])
AllBelow-append n [] i lt v = (lt, tt)
AllBelow-append n (x ∷ indexes) i lt v = (v.0, AllBelow-append n indexes i lt v.1)

last_of_below : (n x : ℕ) (xs : List ℕ) → AllBelow n (x ∷ xs) → last_of x xs < n
last_of_below n x [] v = v.0
last_of_below n x (y ∷ ys) v = last_of_below n y ys v.1

but_last_below : (n x : ℕ) (xs : List ℕ) → AllBelow n (x ∷ xs) → AllBelow n (but_last x xs)
but_last_below n x [] v = tt
but_last_below n x (y ∷ ys) v = (v.0, but_last_below n y ys v.1)

pub swap_remove_first_below :
    (n x : ℕ) (xs : List ℕ) → AllBelow n xs → AllBelow n (swap_remove_first x xs)
swap_remove_first_below n x [] v = tt
swap_remove_first_below n x (y ∷ ys) v = (last_of_below n y ys v, but_last_below n y ys v)

length-but_last : (x : ℕ) (xs : List ℕ) → length (but_last x xs) ≡ length xs
length-but_last x [] = refl
length-but_last x (y ∷ ys) = ap suc (length-but_last y ys)

pub length-swap_remove_first : (x : ℕ) (xs : List ℕ) → length (swap_remove_first x xs) ≡ length xs
length-swap_remove_first x [] = refl
length-swap_remove_first x (y ∷ ys) = ap suc (length-but_last y ys)
