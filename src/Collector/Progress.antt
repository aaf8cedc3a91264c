-- ===== src/Collector/Progress.antt =====
-- When nobody acts, an object without references is ready to free after two inner iterations, or
-- three if there is a weak reference to clear.
use sdarc.Prelude.{ℕ, ◌<◌, ◌≡◌, refl, ap, ◌∙◌, true, false, arith, none, some, if◌then◌else◌}
use sdarc.Prelude.Int.{pos}
use sdarc.Outcome.{done}
use sdarc.Object.{Object, Config, Weak, live, absent, cleared, is_live}
use sdarc.Object.Totals.{total-zero, total_congr}
use sdarc.Object.Accounts.{counts}
use sdarc.Collector.{
  Run, TrackedCounterState, default_state, requires_re_checking, ready_to_free, tick, inspect,
  is_zero, inspect_times, update_state, traverse_atomic_reader_signals, update_default,
  read_ref_count_sum_relaxed, clear_tags_and_read_ref_count_sum_acquire, update_re_checking,
  read_ref_count_sum_if_all_tags_unset_acquire, judge, confirm_zero, clear_weak_back_ref,
  swap_back_ref, after_clearing, with_weak,
}
use sdarc.Collector.Quiet.{
  quiet, IsUnused, IsUntagged, quiet_sum, quiet_check, quiet_clear, quiet_signals,
}

swap-gone :
    (w : Weak) (r : Run)
    → is_live w ≡ false
    → (let (result, r') = swap_back_ref w r in after_clearing result r') ≡ done (ready_to_free, r)
swap-gone absent r e = refl
swap-gone live r e = ground arith
swap-gone cleared r e = refl

swap-alive :
    (w : Weak) (r : Run)
    → is_live w ≡ true
    → (let (result, r') = swap_back_ref w r in after_clearing result r')
      ≡ done (requires_re_checking, with_weak cleared r)
swap-alive absent r e = ground arith
swap-alive live r e = refl
swap-alive cleared r e = ground arith

module _ (c : Config) where
  inspect-quiet :
      (state : TrackedCounterState) (o : Object)
      → IsUnused c o
      → inspect c state (quiet o) ≡ some (update_state c state (quiet o))
  unfolding inspect traverse_atomic_reader_signals
  inspect-quiet state o v =
      ap
        (λ x. elim x [
          | none ↦ none
          | some p ↦ some (if p.0 then done (default_state, p.1) else update_state c state p.1)
        ])
        (quiet_signals c c.readers 0 o (omega arith) v)

  default_step :
      (o o' : Object)
      → read_ref_count_sum_relaxed c (quiet o) ≡ (pos 0, quiet o)
      → clear_tags_and_read_ref_count_sum_acquire c (quiet o) ≡ (pos 0, quiet o')
      → update_state c default_state (quiet o) ≡ done (requires_re_checking, quiet o')
  unfolding update_state update_default
  default_step o o' relaxed clears =
      ap
        (λ p.
          let q = clear_tags_and_read_ref_count_sum_acquire c p.1 in
          if is_zero p.0
          then (if is_zero q.0 then done (requires_re_checking, q.1) else done (default_state, q.1))
          else done (default_state, p.1))
        relaxed
      ∙ ap
          (λ q. if is_zero q.0 then done (requires_re_checking, q.1) else done (default_state, q.1))
          clears

  -- The object after the scans that see zero: it is unused still, and no tag is set.
  record Scanned (o o' : Object) : Type 0 where
    unused : IsUnused c o'
    untagged : (i : ℕ) → i < c.shards → (o'.cell i).tag ≡ false
    weak : o'.weak ≡ o.weak
    pinned : o'.pinned ≡ o.pinned

  first_inspect :
      (o : Object)
      → IsUnused c o
      → (o' : Object) × (inspect c default_state (quiet o)
          ≡ some (done (requires_re_checking, quiet o')))
        × Scanned o o'
  unfolding read_ref_count_sum_relaxed clear_tags_and_read_ref_count_sum_acquire
  first_inspect o v =
      let (o', scan, u) =
        quiet_clear c c.shards 0 (pos 0) o o (omega arith) (fresh o) (total-zero (counts o)) in
      (
        o',
        inspect-quiet default_state o v
            ∙ ap some (
                default_step o o'
                  (quiet_sum c c.shards 0 (pos 0) o (omega arith) (total-zero (counts o))
                    ∙ ap (λ x. (x, quiet o)) v.zero_sum)
                  (scan ∙ ap (λ x. (x, quiet o')) v.zero_sum)),
        record {
          unused = record {
            zero_sum = total_congr c.shards (counts o') (counts o) (λ i _. u.count i) ∙ v.zero_sum;
            section = rw u.reader v.section;
            slot = rw u.reader v.slot;
          };
          untagged = u.untagged;
          weak = u.weak;
          pinned = u.pinned;
        },
      )
    where
      fresh : (o : Object) → IsUntagged 0 o o
      fresh o = record {
        count = λ i. refl;
        untagged = λ i lt. absurd (omega arith);
        reader = refl;
        weak = refl;
        pinned = refl;
      }

  re_inspect :
      (o : Object)
      → IsUnused c o
      → ((i : ℕ) → i < c.shards → (o.cell i).tag ≡ false)
      → let (result, r) = swap_back_ref o.weak (quiet o) in
        inspect c requires_re_checking (quiet o) ≡ some (after_clearing result r)
  unfolding update_state update_re_checking judge confirm_zero clear_weak_back_ref tick
      read_ref_count_sum_if_all_tags_unset_acquire
  re_inspect o v u =
      inspect-quiet requires_re_checking o v
      ∙ ap some (
          ap (λ p. judge c p.0 p.1)
            (quiet_check c c.shards 0 (pos 0) o (omega arith) u (total-zero (counts o))
              ∙ ap (λ x. (some x, quiet o)) v.zero_sum))

  re_inspect_gone :
      (o : Object)
      → IsUnused c o
      → ((i : ℕ) → i < c.shards → (o.cell i).tag ≡ false)
      → is_live o.weak ≡ false
      → inspect c requires_re_checking (quiet o) ≡ some (done (ready_to_free, quiet o))
  re_inspect_gone o v u gone = re_inspect o v u ∙ ap some (swap-gone o.weak (quiet o) gone)

  re_inspect_alive :
      (o : Object)
      → IsUnused c o
      → ((i : ℕ) → i < c.shards → (o.cell i).tag ≡ false)
      → is_live o.weak ≡ true
      → inspect c requires_re_checking (quiet o)
        ≡ some (done (requires_re_checking, with_weak cleared (quiet o)))
  re_inspect_alive o v u alive = re_inspect o v u ∙ ap some (swap-alive o.weak (quiet o) alive)

  -- Take an object that no counter, no critical section and no hazard pointer keeps, and let nobody
  -- act. With no weak reference to clear, its state is ready to free after exactly two inner
  -- iterations; with one, after exactly three, the second of which clears it.
  pub unused_is_freed :
      (o : Object)
      → IsUnused c o
      → (o' : Object) × (o'.pinned ≡ o.pinned)
        × (inspect_times c 1 default_state (quiet o) ≡ some (done (requires_re_checking, quiet o')))
        × (is_live o.weak ≡ false
            → inspect_times c 2 default_state (quiet o) ≡ some (done (ready_to_free, quiet o')))
        × (is_live o.weak ≡ true
            → let swapped = record o' { weak = cleared } in
              (inspect_times c 2 default_state (quiet o)
                ≡ some (done (requires_re_checking, quiet swapped)))
              × (inspect_times c 3 default_state (quiet o)
                  ≡ some (done (ready_to_free, quiet swapped))))
  unfolding inspect_times
  unused_is_freed o v =
      let (o', first, s) = first_inspect o v in
      let swapped : Object = record o' { weak = cleared } in
      let v' : IsUnused c swapped = record {
        zero_sum = s.unused.zero_sum;
        section = s.unused.section;
        slot = s.unused.slot;
      } in
      (
        o',
        s.pinned,
        rw first refl,
        λ gone. rw (first, re_inspect_gone o' s.unused s.untagged (rw s.weak gone)) refl,
        λ alive.
            let second = re_inspect_alive o' s.unused s.untagged (rw s.weak alive) in
            (
              rw (first, second) refl,
              rw (first, second, re_inspect_gone swapped v' s.untagged refl) refl,
            ),
      )
