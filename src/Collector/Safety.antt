-- ===== src/Collector/Safety.antt =====
-- Every iteration keeps what a tracked object's state stands for: an object is ready to be freed
-- only when nobody has it or can get it.
use sdarc.Prelude.{
  ℕ, zero, suc, ◌<◌, ◌≡◌, ◌≢◌, refl, inl, inr, true, false, arith, some, Option-cases, Bool,
}
use mathlib.Core.Path.{subst}
use mathlib.Core.Option.{some-injective}
use sdarc.Outcome.{Outcome, done, panic}
use sdarc.Object.{Object, Config}
use sdarc.Collector.{
  Run, TrackedCounterState, default_state, requires_re_checking, ready_to_free, update_re_checking,
  update_state, traverse_atomic_reader_signals, inspect, inspect_times, then_inspect,
}
use sdarc.Collector.Schedule.{PlainFuture, IsBalanced, apply-IsBalanced}
use sdarc.Collector.Scan.{Since}
use sdarc.Collector.Kept.{signals_from_keeps}
use sdarc.Collector.Settled.{Settled, Seen, Settled-IsDead}
use sdarc.Collector.Signals.{signals_from-Settled}
use sdarc.Collector.States.{IsWatched, Means, Sound, update_default-Sound, update_re_checking-Sound}

module _ (c : Config) where
  pub watched-Since : (o : Object) (w : IsWatched c o) → Since c c.shards w.base o o
  watched-Since o w = record {
    balanced = w.balanced;
    above = w.above;
    back = λ i lt x. x;
    not_live = λ x. x;
  }

  -- The re-check after signals that do not show the object
  Settled-Sound :
      (o : Object) (w : IsWatched c o) (r : Run)
      → PlainFuture r.future
      → Settled c w.base w.zero_sum (λ u. u < c.readers) (Seen c.readers 0) o r.object
      → Sound c (update_re_checking c r)
  Settled-Sound o w r p v =
      update_re_checking-Sound c r
        (record {
          balanced = v.since.balanced;
          base = w.base;
          zero_sum = w.zero_sum;
          above = v.since.above;
        })
        p (Settled-IsDead c w.base w.zero_sum o r.object v)

  pub signals-Settled :
      (r r' : Run) (w : IsWatched c r.object)
      → PlainFuture r.future
      → traverse_atomic_reader_signals c r ≡ some (false, r')
      → Settled c w.base w.zero_sum (λ u. u < c.readers) (Seen c.readers 0) r.object r'.object
        × PlainFuture r'.future
  unfolding traverse_atomic_reader_signals
  signals-Settled r r' w p h =
      signals_from-Settled c w.base w.zero_sum c.readers 0 false r.object r r' (omega arith) p h
        (record {
          since = watched-Since r.object w;
          section = λ still t lt. absurd (omega arith);
          slot = λ still t s seen. absurd (omega arith);
        })

  pub signals-IsBalanced :
      (r r' : Run) (found : Bool)
      → IsBalanced c r.object
      → PlainFuture r.future
      → traverse_atomic_reader_signals c r ≡ some (found, r')
      → IsBalanced c r'.object × PlainFuture r'.future
  unfolding traverse_atomic_reader_signals
  signals-IsBalanced r r' found v p h =
      signals_from_keeps c (IsBalanced c) (apply-IsBalanced c) c.readers 0 false r p v h

  -- `update_state` where the signals do not show the object
  pub updated-Sound :
      (state : TrackedCounterState) (r r' : Run)
      → state ≢ ready_to_free
      → PlainFuture r.future
      → Means c state r.object
      → traverse_atomic_reader_signals c r ≡ some (false, r')
      → Sound c (update_state c state r')
  unfolding update_state
  updated-Sound default_state r r' ne p m h =
      let w = signals-IsBalanced r r' false m p h in update_default-Sound c r' w.0 w.1
  updated-Sound requires_re_checking r r' ne p m h =
      let w = signals-Settled r r' m p h in Settled-Sound r.object m r' w.1 w.0
  updated-Sound ready_to_free r r' ne p m h = absurd (ne refl)

  pub Means-IsBalanced :
      (state : TrackedCounterState) (o : Object)
      → state ≢ ready_to_free
      → Means c state o
      → IsBalanced c o
  Means-IsBalanced default_state o ne m = m
  Means-IsBalanced requires_re_checking o ne m = m.balanced
  Means-IsBalanced ready_to_free o ne m = absurd (ne refl)

  -- An inner iteration that does not spin for ever keeps what the state means.
  pub inspect-Sound :
      (state : TrackedCounterState) (r : Run) (out : Outcome (TrackedCounterState × Run))
      → state ≢ ready_to_free
      → PlainFuture r.future
      → Means c state r.object
      → inspect c state r ≡ some out
      → Sound c out
  unfolding inspect
  inspect-Sound state r out ne p m h = elim (Option-cases (traverse_atomic_reader_signals c r)) [
    | inl spins ↦ cc (rw (spins, inspect) at h)
    | inr ((true, r'), e) ↦
        subst (Sound c) (some-injective _ _ (rw (e, inspect) at h))
          (signals-IsBalanced r r' true (Means-IsBalanced state r.object ne m) p e)
    | inr ((false, r'), e) ↦
        subst (Sound c) (some-injective _ _ (rw (e, inspect) at h))
          (updated-Sound state r r' ne p m e)
  ]

  -- One iteration, and then the `k` that follow
  onward :
      (k : ℕ) (state : TrackedCounterState) (r : Run) (out : Outcome (TrackedCounterState × Run))
      → state ≢ ready_to_free
      → PlainFuture r.future
      → Means c state r.object
      → ((state' : TrackedCounterState) (r' : Run) (out' : Outcome (TrackedCounterState × Run))
          → PlainFuture r'.future
          → Means c state' r'.object
          → inspect_times c k state' r' ≡ some out'
          → Sound c out')
      → then_inspect (inspect_times c k) (inspect c state r) ≡ some out
      → Sound c out
  onward k state r out ne p m later h = elim (Option-cases (inspect c state r)) [
    | inl spins ↦ cc (rw spins at h)
    | inr (panic, e) ↦ absurd (inspect-Sound state r panic ne p m e)
    | inr (done (state', r'), e) ↦
        let w = inspect-Sound state r (done (state', r')) ne p m e in
        later state' r' out w.1 w.0 (rw e at h)
  ]

  pub inspect_times-Sound :
      (k : ℕ) (state : TrackedCounterState) (r : Run) (out : Outcome (TrackedCounterState × Run))
      → PlainFuture r.future
      → Means c state r.object
      → inspect_times c k state r ≡ some out
      → Sound c out
  unfolding inspect_times
  inspect_times-Sound zero state r out p m h = subst (Sound c) (some-injective _ _ h) (m, p)
  inspect_times-Sound (suc k) ready_to_free r out p m h =
      subst (Sound c) (some-injective _ _ h) (m, p)
  inspect_times-Sound (suc k) default_state r out p m h =
      onward k default_state r out (λ e. cc) p m (inspect_times-Sound k) h
  inspect_times-Sound (suc k) requires_re_checking r out p m h =
      onward k requires_re_checking r out (λ e. cc) p m (inspect_times-Sound k) h
