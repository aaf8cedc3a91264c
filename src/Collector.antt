-- ===== src/Collector.antt =====
-- src/collector.rs, the part that looks at one tracked object: the scans of its counters, the
-- reader signals that an iteration reads first (src/atomic_sdarc.rs), and `update_state`. Between
-- any two of its accesses the other threads act.
pub mod Schedule
pub mod Scan
pub mod SecondScan
pub mod Kept
pub mod Settled
pub mod Signals
pub mod States
pub mod Safety
pub mod Freed
pub mod Quiet
pub mod Progress
pub mod CasRace
mod Tests
use sdarc.Prelude.{
  ℕ, zero, suc, ◌≡◌, Bool, true, false, ◌||◌, not, List, [], ◌∷◌, Option, none, some, ltb,
  if◌then◌else◌,
}
use sdarc.Prelude.Int.{ℤ, pos, negsuc, ◌+ℤ◌, ltb_ℤ}
use sdarc.Outcome.{Outcome, done, panic}
use sdarc.Cell
use sdarc.Cell.{Cell}
use sdarc.Object.{
  Object, Action, Config, Weak, absent, live, cleared, Section, outside, Slot, published, borrowed,
  slot_is, section_is, hz_ptr_slot_count, update, apply_all,
}

-- The collector at work: the object, and what the others do before each of its next accesses.
-- When the list is used up, nobody else acts any more.
pub record Run : Type 0 where
  pub object : Object
  pub future : List (List Action)

pub data TrackedCounterState : Type 0 where
  default_state requires_re_checking ready_to_free : TrackedCounterState

pub data ClearWeakBackRefResult : Type 0 where
  weak_ref_not_involved weak_back_ref_cleared weak_back_ref_was_already_null :
      ClearWeakBackRefResult

abbrev pub is_zero : ℤ → Bool
is_zero (pos zero) = true
is_zero _ = false

-- Does a slot hold the object's address?
abbrev pub hazards : Slot → Bool
hazards x = slot_is x published || slot_is x borrowed

abbrev pub untagged_at : ℕ → Object → Object
untagged_at k o = record o { cell = update o.cell k (Cell.clear_tag (o.cell k)) }

abbrev pub with_weak : Weak → Run → Run
with_weak w r = record r { object = record (r.object) { weak = w } }

-- The swap of the back reference with null, by what it holds
abbrev pub swap_back_ref : Weak → Run → ClearWeakBackRefResult × Run
swap_back_ref Weak.absent r = (weak_ref_not_involved, r)
swap_back_ref Weak.live r = (weak_back_ref_cleared, with_weak cleared r)
swap_back_ref Weak.cleared r = (weak_back_ref_was_already_null, r)

-- The new state after a re-check that found zero
abbrev pub after_clearing : ClearWeakBackRefResult → Run → Outcome (TrackedCounterState × Run)
after_clearing weak_ref_not_involved r = done (ready_to_free, r)
after_clearing weak_back_ref_was_already_null r = done (ready_to_free, r)
after_clearing weak_back_ref_cleared r = done (requires_re_checking, r)

-- Go on with the next iteration, unless this one spins or panics.
abbrev pub then_inspect :
    (TrackedCounterState → Run → Option (Outcome (TrackedCounterState × Run)))
    → Option (Outcome (TrackedCounterState × Run))
    → Option (Outcome (TrackedCounterState × Run))
then_inspect next none = none
then_inspect next (some panic) = some panic
then_inspect next (some (done (state, r))) = next state r

module _ (c : Config) where
  unfoldable pub others : Object → List (List Action) → Run
  others o [] = record { object = o; future = [] }
  others o (now ∷ later) = record { object = apply_all c now o; future = later }

  -- The others act, then the collector makes its access.
  unfoldable pub tick : Run → Run
  unfolding others
  tick r = others r.object r.future

  -- `read_ref_count_sum_relaxed`: the loop, from shard `k` on with `rest` shards to go
  unfoldable pub sum_from : ℕ → ℕ → ℤ → Run → ℤ × Run
  sum_from zero k sum r = (sum, r)
  sum_from (suc rest) k sum r =
      let r' = tick r in sum_from rest (suc k) (sum +ℤ (r'.object.cell k).count) r'

  unfoldable pub read_ref_count_sum_relaxed : Run → ℤ × Run
  read_ref_count_sum_relaxed r = sum_from c.shards 0 (pos 0) r

  -- `clear_tags_and_read_ref_count_sum_acquire`
  unfoldable pub clear_from : ℕ → ℕ → ℤ → Run → ℤ × Run
  clear_from zero k sum r = (sum, r)
  clear_from (suc rest) k sum r =
      let r' = tick r in
      clear_from rest (suc k) (sum +ℤ (r'.object.cell k).count)
        (record r' { object = untagged_at k r'.object })

  unfoldable pub clear_tags_and_read_ref_count_sum_acquire : Run → ℤ × Run
  clear_tags_and_read_ref_count_sum_acquire r = clear_from c.shards 0 (pos 0) r

  -- `read_ref_count_sum_if_all_tags_unset_acquire`
  unfoldable pub check_from : ℕ → ℕ → ℤ → Run → Option ℤ × Run
  check_from zero k sum r = (some sum, r)
  check_from (suc rest) k sum r =
      let r' = tick r in
      let onward = check_from rest (suc k) (sum +ℤ (r'.object.cell k).count) r' in
      if (r'.object.cell k).tag then (none, r') else onward

  unfoldable pub read_ref_count_sum_if_all_tags_unset_acquire : Run → Option ℤ × Run
  read_ref_count_sum_if_all_tags_unset_acquire r = check_from c.shards 0 (pos 0) r

  -- `clear_weak_backref_impl`
  unfoldable pub clear_weak_back_ref : Run → ClearWeakBackRefResult × Run
  clear_weak_back_ref r = let r' = tick r in swap_back_ref r'.object.weak r'

  -- `TrackedCounter::update_state`, state by state
  unfoldable pub update_default : Run → Outcome (TrackedCounterState × Run)
  update_default r =
      let (relaxed_sum, r1) = read_ref_count_sum_relaxed r in
      let (sum, r2) = clear_tags_and_read_ref_count_sum_acquire r1 in
      if is_zero relaxed_sum
      then (if is_zero sum then done (requires_re_checking, r2) else done (default_state, r2))
      else done (default_state, r1)

  unfoldable pub confirm_zero : Run → Outcome (TrackedCounterState × Run)
  confirm_zero r = let (cleared_ref, r') = clear_weak_back_ref r in after_clearing cleared_ref r'

  -- with the assertion that the sum is positive
  unfoldable pub judge : Option ℤ → Run → Outcome (TrackedCounterState × Run)
  judge none r = done (default_state, r)
  judge (some sum) r =
      if is_zero sum
      then confirm_zero r
      else if ltb_ℤ (pos 0) sum
      then done (default_state, r)
      else panic

  unfoldable pub update_re_checking : Run → Outcome (TrackedCounterState × Run)
  update_re_checking r =
      let (opt_sum, r') = read_ref_count_sum_if_all_tags_unset_acquire r in judge opt_sum r'

  unfoldable pub update_state : TrackedCounterState → Run → Outcome (TrackedCounterState × Run)
  update_state default_state r = update_default r
  update_state requires_re_checking r = update_re_checking r
  update_state ready_to_free r = panic

  -- `collector_poll_until_false` of thread `t`; `none` means that the collector goes on spinning.
  unfoldable pub poll_from : ℕ → Object → List (List Action) → Option Run
  poll_from t o [] =
      if section_is (o.reader t).section outside
      then some (record { object = o; future = [] })
      else none
  poll_from t o (now ∷ later) =
      let o' = apply_all c now o in
      let again = poll_from t o' later in
      if section_is (o'.reader t).section outside
      then some (record { object = o'; future = later })
      else again

  -- The scan of one thread's slots, from slot `s` on with `rest` slots to go: is the object's
  -- address among them, or `found` before?
  unfoldable pub slots_from : ℕ → ℕ → ℕ → Bool → Run → Bool × Run
  slots_from t zero s found r = (found, r)
  slots_from t (suc rest) s found r =
      let r' = tick r in
      slots_from t rest (suc s) (found || hazards ((r'.object.reader t).slot s)) r'

  -- `traverse_atomic_reader_signals`, and whether its set contains the object
  unfoldable pub signals_from : ℕ → ℕ → Bool → Run → Option (Bool × Run)
  signals_from zero t found r = some (found, r)
  signals_from (suc rest) t found r =
      let (found', r') = slots_from t hz_ptr_slot_count 0 found r in
      elim (poll_from t r'.object r'.future) [
        | none ↦ none
        | some r'' ↦ signals_from rest (suc t) found' r''
      ]

  unfoldable pub traverse_atomic_reader_signals : Run → Option (Bool × Run)
  traverse_atomic_reader_signals r = signals_from c.readers 0 false r

  -- One inner iteration, for this object: it is left alone while a hazard pointer shows it.
  unfoldable pub inspect : TrackedCounterState → Run → Option (Outcome (TrackedCounterState × Run))
  inspect state r = elim (traverse_atomic_reader_signals r) [
    | none ↦ none
    | some (found, r') ↦ some (if found then done (default_state, r') else update_state state r')
  ]

  -- Inner iterations one after the other, until the object is to be freed or the fuel is used up.
  unfoldable pub inspect_times :
      ℕ → TrackedCounterState → Run → Option (Outcome (TrackedCounterState × Run))
  inspect_times zero state r = some (done (state, r))
  inspect_times (suc k) ready_to_free r = some (done (ready_to_free, r))
  inspect_times (suc k) state r = then_inspect (inspect_times k) (inspect state r)
