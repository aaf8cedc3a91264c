-- ===== src/ShardedAlloc/Concurrent.antt =====
-- src/sharded_alloc.rs while other threads use the same usage flags: each access to a flag is a step,
-- and before each step of the thread that has locked a group the others take and release slots.
pub mod Agreed
pub mod Scans
pub mod Kept
pub mod Maintained
pub mod Allocation
pub mod Taken
pub mod Attempts
pub mod NewUnit
pub mod Exclusive
mod Tests
use sdarc.Prelude.{
  ℕ, zero, suc, ◌+◌, ◌-◌, Bool, true, false, not, List, [], ◌∷◌, Option, none, some, ◌==◌,
  if◌then◌else◌,
}
use sdarc.Outcome.{Outcome, done, ◌>>=◌, ◌>>◌, assert}
use sdarc.Object.{update}
use sdarc.ShardedAlloc.{slot_count_per_unit, assert_usage_flag_value_valid}

-- What another thread does to the flag at an address.
pub data FlagAccess : Type 0 where
  takes gives_back : (address : ℕ) → FlagAccess

-- The usage flags by address, and how many pointers to the slot the other threads have.
pub record Flags : Type 0 where
  pub value : ℕ → ℕ
  pub others : ℕ → ℕ

-- The accesses that the others make before each step
pub record Run : Type 0 where
  pub flags : Flags
  pub future : List (List FlagAccess)

abbrev pub with_value : ℕ → ℕ → Flags → Flags
with_value address value s = record s { value = update s.value address value }

-- A scan's `swap(USAGE_FLAG_USED)` in another thread; it has the slot if the flag was clear.
unfoldable pub other_takes : ℕ → Flags → Flags
other_takes a s = record {
  value = update s.value a 1;
  others = update s.others a (if s.value a == 0 then suc (s.others a) else s.others a);
}

-- `deallocate_without_dropping`
unfoldable pub release : ℕ → Flags → Outcome Flags
release a s = assert (s.value a == 1) >> done (with_value a 0 s)

-- The same in another thread, which has a pointer to the slot.
unfoldable pub other_gives_back : ℕ → Flags → Outcome Flags
other_gives_back a s =
    if s.others a == 0
    then done s
    else (release a s >>= λ s'. done (record s' { others = update s'.others a (s'.others a - 1) }))

unfoldable pub flag_access : FlagAccess → Flags → Outcome Flags
flag_access (takes a) s = done (other_takes a s)
flag_access (gives_back a) s = other_gives_back a s

unfoldable pub accesses : List FlagAccess → Flags → Outcome Flags
accesses [] s = done s
accesses (x ∷ xs) s = flag_access x s >>= accesses xs

unfoldable pub tick_by : List (List FlagAccess) → Flags → Outcome Run
tick_by [] s = done (record { flags = s; future = [] })
tick_by (now ∷ later) s = accesses now s >>= λ s'. done (record { flags = s'; future = later })

abbrev pub tick : Run → Outcome Run
tick r = tick_by r.future r.flags

-- `allocate_without_initializing`, from slot `i` on: the address of a slot whose flag was clear
unfoldable pub take_free_at : ℕ → ℕ → ℕ → Run → Outcome (Option ℕ × Run)
take_free_at zero i data_ptr r = done (none, r)
take_free_at (suc rest) i data_ptr r = tick r >>= λ r.
    let a = data_ptr + i in
    let old = r.flags.value a in
    let r' : Run = record r { flags = with_value a 1 r.flags } in
    assert_usage_flag_value_valid old >> (elim (old == 0) [
      | true ↦ done (some a, r')
      | false ↦ take_free_at rest (suc i) data_ptr r'
    ])

-- `any` over the flags, from slot `i` on
unfoldable pub any_flag_at : ℕ → ℕ → ℕ → ℕ → Run → Outcome (Bool × Run)
any_flag_at wanted zero i data_ptr r = done (false, r)
any_flag_at wanted (suc rest) i data_ptr r = tick r >>= λ r.
    let value = r.flags.value (data_ptr + i) in
    assert_usage_flag_value_valid value >> (elim (value == wanted) [
      | true ↦ done (true, r)
      | false ↦ any_flag_at wanted rest (suc i) data_ptr r
    ])

abbrev pub is_any_slot_used_at : ℕ → Run → Outcome (Bool × Run)
is_any_slot_used_at data_ptr r = any_flag_at 1 slot_count_per_unit 0 data_ptr r

abbrev pub has_any_free_slot_at : ℕ → Run → Outcome (Bool × Run)
has_any_free_slot_at data_ptr r = any_flag_at 0 slot_count_per_unit 0 data_ptr r

-- `Drop for AllocUnit`
abbrev pub drop_unit_at : ℕ → Run → Outcome Run
drop_unit_at data_ptr r = is_any_slot_used_at data_ptr r >>= λ u. assert (not u.0) >> done u.1

-- `retain_mut`, over the units' addresses
unfoldable pub retain_used_at : List ℕ → Run → Outcome (List ℕ × Run)
retain_used_at [] r = done ([], r)
retain_used_at (unit ∷ units) r = is_any_slot_used_at unit r >>= λ u.
    (if u.0 then done u.1 else drop_unit_at unit u.1) >>= λ r'.
    retain_used_at units r' >>= λ k. done ((if u.0 then unit ∷ k.0 else k.0), k.1)

unfoldable pub indexes_at : ℕ → List ℕ → Run → Outcome (List ℕ × Run)
indexes_at i [] r = done ([], r)
indexes_at i (unit ∷ units) r = has_any_free_slot_at unit r >>= λ f.
    indexes_at (suc i) units f.1 >>= λ k. done ((if f.0 then i ∷ k.0 else k.0), k.1)

-- An `AllocUnitGroup`, with each unit as its address
pub record Group : Type 0 where
  pub all_units : List ℕ
  pub indexes : List ℕ

unfoldable pub do_maintenance_at : Group → Run → Outcome (Group × Run)
do_maintenance_at group r = retain_used_at group.all_units r >>= λ k.
    indexes_at 0 k.0 k.1 >>= λ x. done (record { all_units = k.0; indexes = x.0 }, x.1)
