-- ===== src/Collector/Settled.antt =====
-- Which threads and slots cannot hold the object, once the reader signals of src/collector.rs have
-- been seen without it and as long as the counters stand still.
use sdarc.Prelude.{
  ℕ, suc, ◌+◌, ◌<◌, ◌≡◌, ◌≢◌, sym, ap, ◌∙◌, ◌⊎◌, inl, inr, true, false, arith, dec_lt,
}
use sdarc.Prelude.Int.{ℤ, pos, pos_part}
use sdarc.Object.{
  Object, Action, Config, apply, is_live, Section, loaded, outside, Slot, borrowed, section_is,
  hz_ptr_slot_count,
}
use sdarc.Object.Totals.{total, total_congr}
use sdarc.Object.Accounts.{Plain, counts}
use sdarc.Object.Quiet.{HasNoSource, NoGain, apply-NoGain, apply-live, IsDead}
use sdarc.Collector.{hazards}
use sdarc.Collector.Schedule.{IsBalanced}
use sdarc.Collector.Scan.{IsClean, Since, apply-Since}

-- Every shard is clean since the scan that found `base`, and there is no weak reference to upgrade.
abbrev pub IsStill : Config → (ℕ → ℤ) → Object → Type 0
IsStill c base o = ((i : ℕ) → i < c.shards → IsClean (base i) (o.cell i)) × (is_live o.weak ≡ false)

-- The slots that have been read when `t` threads are done, and `k` slots of thread `t`
abbrev pub Seen : ℕ → ℕ → ℕ → ℕ → Type 0
Seen t k u s = (s < hz_ptr_slot_count) × ((u < t) ⊎ ((u ≡ t) × (s < k)))

not_borrowed : (x : Slot) → hazards x ≡ false → x ≢ borrowed
not_borrowed x h e = cc (rw e at h)

not_loaded : (x : Section) → section_is x outside ≡ true → x ≢ loaded
not_loaded x h e = cc (rw e at h)

module _ (c : Config) (base : ℕ → ℤ) (zero_sum : total c.shards base ≡ pos 0) where
  -- Then the counters add up to zero, so there is no reference to load.
  pub IsStill-HasNoSource : (o : Object) → IsBalanced c o → IsStill c base o → HasNoSource o
  IsStill-HasNoSource o v still = record {
    no_owner = omega (arith, ap pos_part none_counted);
    no_stored = omega (arith, ap pos_part none_counted);
    no_upgrade = still.1;
  }
    where
      none_counted : pos (o.owners + o.stored) ≡ pos 0
      none_counted =
          sym v.accounted
          ∙ total_congr c.shards (counts o) base (λ i lt. (still.0 i lt).1)
          ∙ zero_sum

  -- Threads in `T` have been seen outside, slots in `S` without the object.
  pub record Settled (T : ℕ → Type 0) (S : ℕ → ℕ → Type 0) (start o : Object) : Type 0 where
    pub since : Since c c.shards base start o
    pub section : IsStill c base o → (t : ℕ) → T t → (o.reader t).section ≢ loaded
    pub slot : IsStill c base o → (t s : ℕ) → S t s → (o.reader t).slot s ≢ borrowed

  -- Stillness after an action means stillness before it.
  IsStill-back :
      (start : Object) (a : Action) (o : Object)
      → Plain a
      → Since c c.shards base start o
      → IsStill c base (apply c a o)
      → IsStill c base o
  IsStill-back start a o p v still = (
    λ i lt.
        (apply-Since c c.shards base o a o p (record {
          balanced = v.balanced;
          above = v.above;
          back = λ i l x. x;
          not_live = λ x. x;
        })).back
          i lt (still.0 i lt),
    apply-live c a o still.1,
  )

  pub apply-Settled :
      (T : ℕ → Type 0) (S : ℕ → ℕ → Type 0) (start : Object) (a : Action) (o : Object)
      → Plain a
      → Settled T S start o
      → Settled T S start (apply c a o)
  apply-Settled T S start a o p v = record {
    since = apply-Since c c.shards base start a o p v.since;
    section = λ still t seen e.
        let was = IsStill-back start a o p v.since still in
        v.section was t seen ((none_gained was).section t e);
    slot = λ still t s seen e.
        let was = IsStill-back start a o p v.since still in
        v.slot was t s seen ((none_gained was).slot t s e);
  }
    where
      none_gained : IsStill c base o → NoGain o (apply c a o)
      none_gained was = apply-NoGain c a o (IsStill-HasNoSource o v.since.balanced was)

  -- One slot more, which does not hold the object
  pub Settled-slot :
      (T : ℕ → Type 0) (t k : ℕ) (start o : Object)
      → hazards ((o.reader t).slot k) ≡ false
      → Settled T (Seen t k) start o
      → Settled T (Seen t (suc k)) start o
  Settled-slot T t k start o h v = record {
    since = v.since;
    section = v.section;
    slot = λ still u s seen e. more still u s seen.0 seen.1 e;
  }
    where
      here : (u s : ℕ) → u ≡ t → s ≡ k → (o.reader u).slot s ≢ borrowed
      here u s eu es = rw (eu, es) (not_borrowed _ h)

      more :
          IsStill c base o
          → (u s : ℕ) → s < hz_ptr_slot_count
          → (u < t) ⊎ ((u ≡ t) × (s < suc k))
          → (o.reader u).slot s ≢ borrowed
      more still u s small (inl before) = v.slot still u s (small, inl before)
      more still u s small (inr (same, lt)) = elim (dec_lt s k) [
        | yes below ↦ v.slot still u s (small, inr (same, below))
        | no last ↦ here u s same (omega arith)
      ]

  pub Settled-thread :
      (t : ℕ) (start o : Object)
      → section_is (o.reader t).section outside ≡ true
      → Settled (λ u. u < t) (Seen t hz_ptr_slot_count) start o
      → Settled (λ u. u < suc t) (Seen (suc t) 0) start o
  Settled-thread t start o h v = record {
    since = v.since;
    section = λ still u lt. elim (dec_lt u t) [
      | yes below ↦ v.section still u below
      | no last ↦ let same : u ≡ t = omega arith in rw same (not_loaded _ h)
    ];
    slot = λ still u s seen. v.slot still u s (seen.0, wider u s seen.0 seen.1);
  }
    where
      wider :
          (u s : ℕ)
          → s < hz_ptr_slot_count
          → (u < suc t) ⊎ ((u ≡ suc t) × (s < 0))
          → (u < t) ⊎ ((u ≡ t) × (s < hz_ptr_slot_count))
      wider u s small h = omega arith

  -- Where the signals do not show the object and all stands still, no reader has it.
  pub Settled-IsDead :
      (start o : Object)
      → Settled (λ u. u < c.readers) (Seen c.readers 0) start o
      → IsStill c base o
      → IsDead c o
  Settled-IsDead start o v still = record {
    no_source = IsStill-HasNoSource o v.since.balanced still;
    none_pinned = v.since.balanced.none_pinned.none_pinned;
    section = λ t lt. v.section still t lt;
    slot = λ t s lt small. v.slot still t s (small, inl lt);
  }
