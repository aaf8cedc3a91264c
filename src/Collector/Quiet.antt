-- ===== src/Collector/Quiet.antt =====
-- The scans and the reader signals of src/collector.rs on an object that nobody touches meanwhile.
use sdarc.Prelude.{
  ℕ, zero, suc, ◌+◌, ◌<◌, ◌≡◌, refl, sym, ap, ◌∙◌, false, arith, ◌==◌, Bool-cases, inl, inr, [],
  none, some,
}
use mathlib.Core.Path.{ap₂}
use sdarc.Prelude.Int.{ℤ, pos, ◌+ℤ◌}
use sdarc.Object.{Object, Config, outside, hz_ptr_slot_count}
use sdarc.Object.Totals.{total, total_next}
use sdarc.Object.Accounts.{counts}
use sdarc.Collector.Scan.{untagged_count}
use sdarc.Collector.{
  Run, tick, sum_from, clear_from, check_from, slots_from, poll_from, signals_from, hazards,
  untagged_at,
}

abbrev pub quiet : Object → Run
quiet o = record { object = o; future = [] }

-- Nothing references the object, and no reader signal shows it.
pub record IsUnused (c : Config) (o : Object) : Type 0 where
  pub zero_sum : total c.shards (counts o) ≡ pos 0
  pub section : (t : ℕ) → t < c.readers → (o.reader t).section ≡ outside
  pub slot :
      (t s : ℕ) → t < c.readers → s < hz_ptr_slot_count → hazards ((o.reader t).slot s) ≡ false

-- `o'` is `o` with the tags of the first `k` shards clear.
pub record IsUntagged (k : ℕ) (o o' : Object) : Type 0 where
  pub count : (i : ℕ) → (o'.cell i).count ≡ (o.cell i).count
  pub untagged : (i : ℕ) → i < k → (o'.cell i).tag ≡ false
  pub reader : o'.reader ≡ o.reader
  pub weak : o'.weak ≡ o.weak
  pub pinned : o'.pinned ≡ o.pinned

module _ (c : Config) where
  pub quiet_sum :
      (rest k : ℕ) (sum : ℤ) (o : Object)
      → k + rest ≡ c.shards
      → total k (counts o) ≡ sum
      → sum_from c rest k sum (quiet o) ≡ (total c.shards (counts o), quiet o)
  unfolding sum_from tick
  quiet_sum zero k sum o e h = let whole : k ≡ c.shards = omega arith in rw (← h, whole)
  quiet_sum (suc rest) k sum o e h =
      quiet_sum rest (suc k) _ o (omega arith)
        (total_next k (counts o) ∙ ap (λ x. x +ℤ counts o k) h)

  pub quiet_check :
      (rest k : ℕ) (sum : ℤ) (o : Object)
      → k + rest ≡ c.shards
      → ((i : ℕ) → i < c.shards → (o.cell i).tag ≡ false)
      → total k (counts o) ≡ sum
      → check_from c rest k sum (quiet o) ≡ (some (total c.shards (counts o)), quiet o)
  unfolding check_from tick
  quiet_check zero k sum o e u h = let whole : k ≡ c.shards = omega arith in rw (← h, whole)
  quiet_check (suc rest) k sum o e u h = rw (u k (omega arith)) (
      quiet_check rest (suc k) _ o (omega arith) u
        (total_next k (counts o) ∙ ap (λ x. x +ℤ counts o k) h))

  IsUntagged-step :
      (k : ℕ) (o o' : Object) → IsUntagged k o o' → IsUntagged (suc k) o (untagged_at k o')
  IsUntagged-step k o o' v = record {
    count = λ i. untagged_count k i o' ∙ v.count i;
    untagged = λ i lt. elim (Bool-cases (k == i)) [
      | inl e ↦ rw e
      | inr e ↦ rw e (v.untagged i (ground arith))
    ];
    reader = v.reader;
    weak = v.weak;
    pinned = v.pinned;
  }

  pub quiet_clear :
      (rest k : ℕ) (sum : ℤ) (o o' : Object)
      → k + rest ≡ c.shards
      → IsUntagged k o o'
      → total k (counts o) ≡ sum
      → (o'' : Object) × (clear_from c rest k sum (quiet o')
          ≡ (total c.shards (counts o), quiet o''))
        × IsUntagged c.shards o o''
  unfolding clear_from tick
  quiet_clear zero k sum o o' e v h =
      let whole : k ≡ c.shards = omega arith in
      (
        o',
        rw (← h, whole),
        record {
          count = v.count;
          untagged = λ i lt. v.untagged i (omega arith);
          reader = v.reader;
          weak = v.weak;
          pinned = v.pinned;
        },
      )
  quiet_clear (suc rest) k sum o o' e v h =
      quiet_clear rest (suc k) _ o (untagged_at k o') (omega arith) (IsUntagged-step k o o' v)
        (total_next k (counts o) ∙ ap₂ ◌+ℤ◌ h (sym (v.count k)))

  quiet_slots :
      (t rest k : ℕ) (o : Object)
      → ((s : ℕ) → s < k + rest → hazards ((o.reader t).slot s) ≡ false)
      → slots_from c t rest k false (quiet o) ≡ (false, quiet o)
  unfolding slots_from tick
  quiet_slots t zero k o h = refl
  quiet_slots t (suc rest) k o h =
      rw (h k (omega arith)) (quiet_slots t rest (suc k) o (λ s lt. h s (omega arith)))

  pub quiet_signals :
      (rest t : ℕ) (o : Object)
      → t + rest ≡ c.readers
      → IsUnused c o
      → signals_from c rest t false (quiet o) ≡ some (false, quiet o)
  unfolding signals_from poll_from
  quiet_signals zero t o e v = refl
  quiet_signals (suc rest) t o e v =
      let slots : slots_from c t hz_ptr_slot_count 0 false (quiet o) ≡ (false, quiet o) =
        quiet_slots t hz_ptr_slot_count 0 o (λ s lt. v.slot t s (omega arith) (omega arith)) in
      ap
        (λ p. elim (poll_from c t p.1.object p.1.future) [
          | none ↦ none
          | some r ↦ signals_from c rest (suc t) p.0 r
        ])
        slots
      ∙ rw (v.section t (omega arith)) (quiet_signals rest (suc t) o (omega arith) v)
