-- ===== src/Collector/States.antt =====
-- What a tracked object's state stands for, and that `update_state` of src/collector.rs, when it
-- scans, gives a state that holds.
use sdarc.Prelude.{
  ℕ, zero, suc, ◌<◌, ◌≡◌, refl, sym, ◌∙◌, inl, inr, true, false, arith, Bool-cases, some, none,
  Option,
}
use mathlib.Core.Path.{subst₂}
use sdarc.Prelude.Int.{ℤ, pos, negsuc, ◌≤ℤ◌, ltb_ℤ}
use sdarc.Outcome.{Outcome, done, panic}
use sdarc.Object.{Object, Config, Weak, is_live}
use sdarc.Object.Totals.{total, total-zero, total_squeeze, total_mono}
use sdarc.Object.Quiet.{IsDead, apply-IsDead, apply-live}
use sdarc.Collector.{
  Run, TrackedCounterState, default_state, requires_re_checking, ready_to_free, tick, is_zero,
  sum_from, clear_from, check_from, read_ref_count_sum_relaxed,
  clear_tags_and_read_ref_count_sum_acquire, read_ref_count_sum_if_all_tags_unset_acquire,
  clear_weak_back_ref, update_default, confirm_zero, judge, update_re_checking, swap_back_ref,
  after_clearing,
}
use sdarc.Collector.Schedule.{PlainFuture, IsBalanced, apply-IsBalanced, tick_keeps, tick-IsDead}
use sdarc.Collector.Scan.{
  AtLeast, IsClean, tick-Since, Cleared, clear_from-Cleared, check_from_keeps, sum_from_keeps,
}
use sdarc.Collector.SecondScan.{Checked, check_from-Checked}
use sdarc.Collector.Settled.{IsStill}

-- A scan has added up to zero, and no shard has fallen since with its tag clear.
pub record IsWatched (c : Config) (o : Object) : Type 0 where
  pub balanced : IsBalanced c o
  pub base : ℕ → ℤ
  pub zero_sum : total c.shards base ≡ pos 0
  pub above : (i : ℕ) → i < c.shards → AtLeast (base i) (o.cell i)

-- What a state of the tracked object stands for
abbrev pub Means : Config → TrackedCounterState → Object → Type 0
Means c default_state o = IsBalanced c o
Means c requires_re_checking o = IsWatched c o
Means c ready_to_free o = IsDead c o

is_zero-eq : (z : ℤ) → is_zero z ≡ true → z ≡ pos 0
is_zero-eq (pos zero) h = refl
is_zero-eq (pos (suc n)) h = cc
is_zero-eq (negsuc n) h = cc

positive : (z : ℤ) → pos 0 ≤ℤ z → is_zero z ≡ false → ltb_ℤ (pos 0) z ≡ true
positive (pos zero) le h = cc
positive (pos (suc n)) le h = ground arith
positive (negsuc n) le h = absurd (omega arith)

-- The code does not panic, and its new state is what it says.
abbrev pub Sound : Config → Outcome (TrackedCounterState × Run) → Type 0
Sound c (done (state, r)) = Means c state r.object × PlainFuture r.future
Sound c panic = ⊥

module _ (c : Config) where
  pub update_default-Sound :
      (r : Run) → IsBalanced c r.object → PlainFuture r.future → Sound c (update_default c r)
  unfolding update_default read_ref_count_sum_relaxed clear_tags_and_read_ref_count_sum_acquire
  update_default-Sound r v p = elim (Bool-cases (is_zero relaxed.0)) [
    | inr some_seen ↦ rw some_seen first
    | inl none_seen ↦ rw none_seen (elim (Bool-cases (is_zero scan.0)) [
      | inr more ↦ rw more (second.balanced, second.plain)
      | inl zero_found ↦ rw zero_found (
        record {
          balanced = second.balanced;
          base = second.base;
          zero_sum = second.summed ∙ is_zero-eq _ zero_found;
          above = second.above;
        },
        second.plain,
      )
    ])
  ]
    where
      relaxed : ℤ × Run
      relaxed = sum_from c c.shards 0 (pos 0) r

      first : IsBalanced c relaxed.1.object × PlainFuture relaxed.1.future
      first = sum_from_keeps c (IsBalanced c) (apply-IsBalanced c) c.shards 0 (pos 0) r p v

      scan : ℤ × Run
      scan = clear_from c c.shards 0 (pos 0) relaxed.1

      second : Cleared c scan.0 scan.1
      second =
          clear_from-Cleared c c.shards 0 (λ _. pos 0) (pos 0) relaxed.1 (omega arith)
            (record {
              summed = total-zero _;
              balanced = first.0;
              above = λ i lt. absurd (omega arith);
              plain = first.1;
            })

  -- A re-check that saw no tag and a sum of zero, and what follows it
  record Confirmed (r : Run) : Type 0 where
    watched : IsWatched c r.object
    plain : PlainFuture r.future
    dead : is_live r.object.weak ≡ false → IsDead c r.object

  confirm_zero-Sound : (r : Run) → Confirmed r → Sound c (confirm_zero c r)
  unfolding confirm_zero clear_weak_back_ref
  confirm_zero-Sound r v = by_weak (tick c r).object.weak refl
    where
      now : IsWatched c (tick c r).object × PlainFuture (tick c r).future
      now =
          let w = v.watched in
          let (since, plain) = tick-Since c c.shards w.base r.object r v.plain (record {
            balanced = w.balanced;
            above = w.above;
            back = λ i lt x. x;
            not_live = λ x. x;
          }) in
          (
            record {
              balanced = since.balanced;
              base = w.base;
              zero_sum = w.zero_sum;
              above = since.above;
            },
            plain,
          )

      dead : is_live (tick c r).object.weak ≡ false → IsDead c (tick c r).object
      dead e = tick-IsDead c r (
          v.dead (
            (tick_keeps c (λ o. is_live o.weak ≡ false → is_live r.object.weak ≡ false)
                (λ a o _ back e. back (apply-live c a o e)) r v.plain (λ x. x)).0
              e))

      by_weak :
          (w : Weak)
          → (tick c r).object.weak ≡ w
          → let (result, r') = swap_back_ref w (tick c r) in Sound c (after_clearing result r')
      by_weak Weak.absent e = (dead (rw e), now.1)
      by_weak Weak.live e = (
        record {
          balanced = record {
            accounted = now.0.balanced.accounted;
            none_pinned = record { none_pinned = now.0.balanced.none_pinned.none_pinned };
          };
          base = now.0.base;
          zero_sum = now.0.zero_sum;
          above = now.0.above;
        },
        now.1,
      )
      by_weak Weak.cleared e = (dead (rw e), now.1)

  -- The second scan of two that both add up to zero
  check-Confirmed :
      (r : Run) (w : IsWatched c r.object)
      → PlainFuture r.future
      → (IsStill c w.base r.object → IsDead c r.object)
      → {s : ℤ} → (read_ref_count_sum_if_all_tags_unset_acquire c r).0 ≡ some s
      → (pos 0 ≤ℤ s) × (s ≡ pos 0 → Confirmed (read_ref_count_sum_if_all_tags_unset_acquire c r).1)
  unfolding read_ref_count_sum_if_all_tags_unset_acquire
  check-Confirmed r w p dead {s} h = (not_negative, confirmed)
    where
      end : Run
      end = (check_from c c.shards 0 (pos 0) r).1

      seen : Checked c w.base (λ _. pos 0) 0 r.object s end
      seen =
          check_from-Checked c c.shards 0 w.base (λ _. pos 0) (pos 0) r (omega arith)
            (record {
              summed = total-zero _;
              balanced = w.balanced;
              before = w.above;
              above = λ i lt. absurd (omega arith);
              grown = λ i lt. absurd (omega arith);
              plain = p;
            })
            h

      not_negative : pos 0 ≤ℤ s
      not_negative =
          subst₂ ◌≤ℤ◌ w.zero_sum seen.summed (total_mono c.shards w.base seen.found seen.grown)

      later :
          (IsBalanced c end.object
            × (is_live end.object.weak ≡ false → is_live r.object.weak ≡ false))
          × PlainFuture end.future
      later =
          check_from_keeps c
            (λ o. IsBalanced c o × (is_live o.weak ≡ false → is_live r.object.weak ≡ false))
            (λ a o q v. (apply-IsBalanced c a o q v.0, λ e. v.1 (apply-live c a o e))) c.shards 0
            (pos 0) r p (w.balanced, λ x. x)

      clean_before : s ≡ pos 0 → (i : ℕ) → i < c.shards → IsClean (w.base i) (r.object.cell i)
      clean_before e i lt = seen.clean i (omega arith) lt (
          sym (
            total_squeeze c.shards w.base seen.found seen.grown
              (w.zero_sum ∙ sym e ∙ sym seen.summed) i lt))

      confirmed : s ≡ pos 0 → Confirmed end
      confirmed e = record {
        watched = record {
          balanced = later.0.0;
          base = seen.found;
          zero_sum = seen.summed ∙ e;
          above = seen.above;
        };
        plain = later.1;
        dead = λ gone.
            (check_from_keeps c (IsDead c) (λ a o _ v. apply-IsDead c a o v) c.shards 0 (pos 0) r p
              (dead (clean_before e, later.0.1 gone))).0;
      }

  judge-Sound :
      (opt_sum : Option ℤ) (r : Run)
      → IsBalanced c r.object
      → PlainFuture r.future
      → ((s : ℤ) → opt_sum ≡ some s → (pos 0 ≤ℤ s) × (s ≡ pos 0 → Confirmed r))
      → Sound c (judge c opt_sum r)
  unfolding judge
  judge-Sound none r v p h = (v, p)
  judge-Sound (some s) r v p h = elim (Bool-cases (is_zero s)) [
    | inl zero_found ↦ rw zero_found (confirm_zero-Sound r ((h s refl).1 (is_zero-eq s zero_found)))
    | inr other ↦ rw (other, positive s (h s refl).0 other) (v, p)
  ]

  pub update_re_checking-Sound :
      (r : Run) (w : IsWatched c r.object)
      → PlainFuture r.future
      → (IsStill c w.base r.object → IsDead c r.object)
      → Sound c (update_re_checking c r)
  unfolding update_re_checking
  update_re_checking-Sound r w p dead =
      judge-Sound _ _ kept.0 kept.1 (λ s. check-Confirmed r w p dead)
    where
      kept :
          let (_, end) = read_ref_count_sum_if_all_tags_unset_acquire c r in
          IsBalanced c end.object × PlainFuture end.future
      kept =
          unfold read_ref_count_sum_if_all_tags_unset_acquire in
          check_from_keeps c (IsBalanced c) (apply-IsBalanced c) c.shards 0 (pos 0) r p w.balanced
