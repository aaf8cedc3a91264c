-- ===== src/Collector/Signals.antt =====
-- The loops of src/atomic_sdarc.rs over the reader signals, against every interleaving with other
-- threads: when they end without the object, each thread and slot has been seen without it.
use sdarc.Prelude.{
  ℕ, zero, suc, ◌+◌, ◌<◌, ◌≡◌, refl, ap, inl, inr, true, false, arith, Bool-cases, some,
  Option-cases, Bool, ◌||◌, List, [], ◌∷◌,
}
use sdarc.Prelude.Int.{ℤ, pos}
use mathlib.Core.Path.{subst₂}
use mathlib.Core.Option.{some-injective}
use sdarc.Object.{Object, Action, Config, apply_all, outside, section_is, hz_ptr_slot_count}
use sdarc.Object.Totals.{total}
use sdarc.Collector.{Run, tick, hazards, slots_from, poll_from, signals_from}
use sdarc.Collector.Schedule.{PlainFuture, tick_keeps, apply_all_keeps}
use sdarc.Collector.Settled.{Seen, Settled, apply-Settled, Settled-slot, Settled-thread}

or-right : (a : Bool) {b : Bool} → (a || b) ≡ false → b ≡ false
or-right true h = cc
or-right false h = h

module _ (c : Config) (base : ℕ → ℤ) (zero_sum : total c.shards base ≡ pos 0) where
  slots_from_found : (t rest s : ℕ) (r : Run) → (slots_from c t rest s true r).0 ≡ true
  unfolding slots_from
  slots_from_found t zero s r = refl
  slots_from_found t (suc rest) s r = slots_from_found t rest (suc s) (tick c r)

  not_found :
      (t rest s : ℕ) (found : Bool) (r : Run)
      → (slots_from c t rest s found r).0 ≡ false
      → found ≡ false
  not_found t rest s true r h = cc (slots_from_found t rest s r, h)
  not_found t rest s false r h = refl

  slots_from-Settled :
      (t rest k : ℕ) (found : Bool) (start : Object) (r : Run)
      → k + rest ≡ hz_ptr_slot_count
      → PlainFuture r.future
      → (slots_from c t rest k found r).0 ≡ false
      → Settled c base zero_sum (λ u. u < t) (Seen t k) start r.object
      → let end = (slots_from c t rest k found r).1 in
        Settled c base zero_sum (λ u. u < t) (Seen t hz_ptr_slot_count) start end.object
        × PlainFuture end.future
  unfolding slots_from
  slots_from-Settled t zero k found start r e p h v =
      let whole : hz_ptr_slot_count ≡ k = omega arith in (rw whole v, p)
  slots_from-Settled t (suc rest) k found start r e p h v =
      slots_from-Settled t rest (suc k) _ start (tick c r) (omega arith) ticked.1 h
        (Settled-slot c base zero_sum (λ u. u < t) t k start o' missed ticked.0)
    where
      o' : Object
      o' = (tick c r).object

      missed : hazards ((o'.reader t).slot k) ≡ false
      missed = or-right found (not_found t rest (suc k) _ (tick c r) h)

      ticked :
          Settled c base zero_sum (λ u. u < t) (Seen t k) start o' × PlainFuture (tick c r).future
      ticked = tick_keeps c _ (apply-Settled c base zero_sum (λ u. u < t) (Seen t k) start) r p v

  poll_from-Settled :
      (t : ℕ) (start o : Object) (future : List (List Action)) (r' : Run)
      → PlainFuture future
      → poll_from c t o future ≡ some r'
      → Settled c base zero_sum (λ u. u < t) (Seen t hz_ptr_slot_count) start o
      → Settled c base zero_sum (λ u. u < suc t) (Seen (suc t) 0) start r'.object
        × PlainFuture r'.future
  unfolding poll_from
  poll_from-Settled t start o [] r' p h v =
      elim (Bool-cases (section_is (o.reader t).section outside)) [
        | inl out ↦
            let q = some-injective _ _ (rw out at h) in
            rw (← q) (Settled-thread c base zero_sum t start o out v, tt)
        | inr stays ↦ cc (rw stays at h)
      ]
  poll_from-Settled t start o (now ∷ later) r' p h v =
      let w =
        apply_all_keeps c _ (apply-Settled c base zero_sum (λ u. u < t) _ start) now o p.0 v in
      elim (Bool-cases (section_is ((apply_all c now o).reader t).section outside)) [
        | inl out ↦
            let q = some-injective _ _ (rw out at h) in
            rw (← q) (Settled-thread c base zero_sum t start (apply_all c now o) out w, p.1)
        | inr stays ↦ poll_from-Settled t start (apply_all c now o) later r' p.1 (rw stays at h) w
      ]

  signals_not_found :
      (rest t : ℕ) (found : Bool) (r r' : Run)
      → signals_from c rest t found r ≡ some (false, r')
      → found ≡ false
  unfolding signals_from
  signals_not_found zero t found r r' h = ap (λ (x : Bool × Run). x.0) (some-injective _ _ h)
  signals_not_found (suc rest) t found r r' h =
      let mid = slots_from c t hz_ptr_slot_count 0 found r in
      elim (Option-cases (poll_from c t mid.1.object mid.1.future)) [
        | inl spins ↦ cc (rw (spins, signals_from) at h)
        | inr (r'', polled) ↦
            not_found t hz_ptr_slot_count 0 found r
              (signals_not_found rest (suc t) mid.0 r'' r' (rw (polled, signals_from) at h))
      ]

  pub signals_from-Settled :
      (rest t : ℕ) (found : Bool) (start : Object) (r r' : Run)
      → t + rest ≡ c.readers
      → PlainFuture r.future
      → signals_from c rest t found r ≡ some (false, r')
      → Settled c base zero_sum (λ u. u < t) (Seen t 0) start r.object
      → Settled c base zero_sum (λ u. u < c.readers) (Seen c.readers 0) start r'.object
        × PlainFuture r'.future
  unfolding signals_from
  signals_from-Settled zero t found start r r' e p h v =
      let q = ap (λ (x : Bool × Run). x.1) (some-injective _ _ h) in
      let whole : t ≡ c.readers = omega arith in
      subst₂
        (λ n (x : Run).
          Settled c base zero_sum (λ u. u < n) (Seen n 0) start x.object × PlainFuture x.future)
        whole q (v, p)
  signals_from-Settled (suc rest) t found start r r' e p h v =
      elim (Option-cases (poll_from c t mid.1.object mid.1.future)) [
        | inl spins ↦ cc (rw (spins, signals_from) at h)
        | inr (r'', polled) ↦
            let onward = rw (polled, signals_from) at h in
            let scanned =
              slots_from-Settled t hz_ptr_slot_count 0 found start r (omega arith) p
                (signals_not_found rest (suc t) mid.0 r'' r' onward) v in
            let w =
              poll_from-Settled t start mid.1.object mid.1.future r'' scanned.1 polled scanned.0 in
            signals_from-Settled rest (suc t) mid.0 start r'' r' (omega arith) w.1 onward w.0
      ]
    where
      mid : Bool × Run
      mid = slots_from c t hz_ptr_slot_count 0 found r
