-- ===== src/HazardPointers/Registry.antt =====
-- `SHARED_HAZARD_DATA` of src/atomic_sdarc.rs: how threads obtain their hazard data, one atomic
-- access at a time, and give it back.
pub mod Entries
pub mod Changes
pub mod Exclusive
use sdarc.Prelude.{
  ℕ, suc, Bool, true, false, ◌&&◌, not, List, ◌∷◌, ◌++◌, Option, none, some, ◌==◌, ltb,
  if◌then◌else◌, length, set, get_elem?, [],
}
use sdarc.Outcome.{Outcome, done, ◌>>=◌, ◌>>◌, assert}
use sdarc.Object.{update}
use sdarc.HazardPointers.{new_slots}

-- `PerThreadSharedHazardData`
pub record HazardData : Type 0 where
  pub hazard_ptr_slots : List ℕ
  pub is_used : Bool
  pub reader_critical_section_flag : Bool

-- Where a thread stands in `obtain_per_thread_shared_hazard_data`: at entry `k` of the first `len`,
-- which is all there were when its loop began, or done with the entry `k`.
pub data Claim : Type 0 where
  nothing : Claim
  looking : (k len : ℕ) → Claim
  holding : (k : ℕ) → Claim

pub record Registry : Type 0 where
  pub entries : List HazardData
  pub thread : ℕ → Claim

-- A thread `t` begins its loop, makes its next step in it, or ends. The one that holds an entry
-- writes to its slots and its flag.
pub data Access : Type 0 where
  begin look release : (t : ℕ) → Access
  write_slots : (t : ℕ) (slots : List ℕ) → Access
  write_flag : (t : ℕ) (flag : Bool) → Access

abbrev pub all_null : List ℕ → Bool
all_null [] = true
all_null (x ∷ slots) = x == 0 && all_null slots

abbrev pub new_hazard_data : HazardData
new_hazard_data = record {
  hazard_ptr_slots = new_slots;
  is_used = true;
  reader_critical_section_flag = false;
}

-- What is done with an entry that is there
abbrev pub on_entry :
    Option HazardData → Registry → (HazardData → Outcome Registry) → Outcome Registry
on_entry none r f = done r
on_entry (some e) r f = f e

-- `push`, which gives the index of the new entry
abbrev pub with_pushed : ℕ → Registry → Registry
with_pushed t r = record {
  entries = r.entries ++ new_hazard_data ∷ [];
  thread = update r.thread t (holding (length r.entries));
}

-- The entry at that index is looked up, and asserted to be in use.
abbrev pub pushed : ℕ → Registry → Outcome Registry
pushed t r =
    let r' = with_pushed t r in
    on_entry (get_elem? r'.entries (length r.entries)) r' (λ e. assert e.is_used >> done r')

-- The swap of `is_used` with true at entry `k`
abbrev pub swap_used : ℕ → ℕ → ℕ → HazardData → Registry → Registry
swap_used t k len e r =
    if e.is_used then record r { thread = update r.thread t (looking (suc k) len) } else record {
      entries = set r.entries k (record e { is_used = true });
      thread = update r.thread t (holding k);
    }

abbrev pub look_at : ℕ → ℕ → ℕ → Option HazardData → Registry → Outcome Registry
look_at t k len none r = pushed t r
look_at t k len (some e) r = if ltb k len then done (swap_used t k len e r) else pushed t r

-- `release_hazard_data`, with its three assertions
abbrev pub release_at : ℕ → ℕ → HazardData → Registry → Outcome Registry
release_at t k e r =
    assert (all_null e.hazard_ptr_slots)
    >> (assert (not e.reader_critical_section_flag)
        >> (assert e.is_used
            >> done (record {
              entries = set r.entries k (record e { is_used = false });
              thread = update r.thread t nothing;
            })))

abbrev pub with_held : Claim → Registry → (ℕ → HazardData → Outcome Registry) → Outcome Registry
with_held (holding k) r f = on_entry (get_elem? r.entries k) r (f k)
with_held _ r f = done r

abbrev pub begins : ℕ → Claim → Registry → Registry
begins t nothing r = record r { thread = update r.thread t (looking 0 (length r.entries)) }
begins t _ r = r

abbrev pub looks : ℕ → Claim → Registry → Outcome Registry
looks t (looking k len) r = look_at t k len (get_elem? r.entries k) r
looks t _ r = done r

unfoldable pub access : Access → Registry → Outcome Registry
access (begin t) r = done (begins t (r.thread t) r)
access (look t) r = looks t (r.thread t) r
access (release t) r = with_held (r.thread t) r (λ k e. release_at t k e r)
access (write_slots t slots) r =
    with_held (r.thread t) r
      (λ k e. done (record r { entries = set r.entries k (record e { hazard_ptr_slots = slots }) }))
access (write_flag t flag) r = with_held (r.thread t) r (λ k e.
    done
      (record r { entries = set r.entries k (record e { reader_critical_section_flag = flag }) }))

unfoldable pub accesses : List Access → Registry → Outcome Registry
unfolding access
accesses [] r = done r
accesses (a ∷ rest) r = access a r >>= accesses rest

abbrev pub empty_registry : Registry
empty_registry = record { entries = []; thread = λ _. nothing }
