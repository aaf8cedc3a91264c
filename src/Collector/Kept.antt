-- ===== src/Collector/Kept.antt =====
-- What the other threads keep true, the reading of the reader signals of src/atomic_sdarc.rs keeps
-- true.
use sdarc.Prelude.{
  ℕ, zero, suc, ◌≡◌, ap, inl, inr, Bool-cases, some, Option-cases, Bool, List, [], ◌∷◌,
}
use mathlib.Core.Option.{some-injective}
use sdarc.Object.{Object, Action, Config, apply, apply_all, outside, section_is, hz_ptr_slot_count}
use sdarc.Object.Accounts.{Plain}
use sdarc.Collector.{Run, tick, slots_from, poll_from, signals_from}
use sdarc.Collector.Schedule.{PlainFuture, tick_keeps, apply_all_keeps}

-- What the others keep true, the reading of the signals keeps true.
module _ {ℓ} (c : Config) (P : Object → Type ℓ)
    (keeps : (a : Action) (o : Object) → Plain a → P o → P (apply c a o)) where
  Kept : Run → Type ℓ
  Kept r = P r.object × PlainFuture r.future

  slots_from_keeps :
      (t rest k : ℕ) (found : Bool) (r : Run) → Kept r → Kept (slots_from c t rest k found r).1
  unfolding slots_from Kept
  slots_from_keeps t zero k found r v = v
  slots_from_keeps t (suc rest) k found r v =
      slots_from_keeps t rest (suc k) _ (tick c r) (tick_keeps c P keeps r v.1 v.0)

  poll_from_keeps :
      (t : ℕ) (o : Object) (future : List (List Action)) (r' : Run)
      → PlainFuture future
      → P o
      → poll_from c t o future ≡ some r'
      → Kept r'
  unfolding poll_from Kept
  poll_from_keeps t o [] r' p v h = elim (Bool-cases (section_is (o.reader t).section outside)) [
    | inl out ↦ rw (← some-injective _ _ (rw out at h)) (v, tt)
    | inr stays ↦ cc (rw stays at h)
  ]
  poll_from_keeps t o (now ∷ later) r' p v h =
      let w = apply_all_keeps c P keeps now o p.0 v in
      elim (Bool-cases (section_is ((apply_all c now o).reader t).section outside)) [
        | inl out ↦ rw (← some-injective _ _ (rw out at h)) (w, p.1)
        | inr stays ↦ poll_from_keeps t (apply_all c now o) later r' p.1 w (rw stays at h)
      ]

  pub signals_from_keeps :
      (rest t : ℕ) (found : Bool) (r : Run) {found' : Bool} {r' : Run}
      → PlainFuture r.future
      → P r.object
      → signals_from c rest t found r ≡ some (found', r')
      → P r'.object × PlainFuture r'.future
  unfolding signals_from Kept
  signals_from_keeps zero t found r p v h =
      rw (← ap (λ (x : Bool × Run). x.1) (some-injective _ _ h)) (v, p)
  signals_from_keeps (suc rest) t found r p v h =
      let mid = slots_from c t hz_ptr_slot_count 0 found r in
      let w = slots_from_keeps t hz_ptr_slot_count 0 found r (v, p) in
      elim (Option-cases (poll_from c t mid.1.object mid.1.future)) [
        | inl spins ↦ cc (rw (spins, signals_from) at h)
        | inr (r'', polled) ↦
            let q = poll_from_keeps t mid.1.object mid.1.future r'' w.1 w.0 polled in
            signals_from_keeps rest (suc t) mid.0 r'' q.1 q.0 (rw (polled, signals_from) at h)
      ]
