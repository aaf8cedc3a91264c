-- ===== src/ShardedAlloc/Concurrent/Scans.antt =====
-- What a scan of one unit of src/sharded_alloc.rs finds, while the other threads release slots of it.
use sdarc.Prelude.{
  ℕ, zero, suc, ◌+◌, ◌<◌, ◌≤◌, ◌≡◌, refl, inl, inr, Bool, true, false, arith, dec_lt,
}
use sdarc.Outcome.{Gives, >>=-Gives, Gives-map}
use sdarc.ShardedAlloc.{slot_count_per_unit}
use sdarc.ShardedAlloc.Concurrent.{FlagAccess, Flags, Run, tick, any_flag_at}
use sdarc.ShardedAlloc.Concurrent.Agreed.{
  IsGoing, Stays, tick-IsGoing, flag_valid, Apart, access_stays_free,
}

-- The first `k` slots of the unit at `d` are free; a vacant unit has only free slots.
abbrev pub FreeBelow : ℕ → ℕ → Flags → Type 0
FreeBelow d k s = (j : ℕ) → j < k → s.value (d + j) ≡ 0

abbrev pub Vacant : ℕ → Flags → Type 0
Vacant d s = FreeBelow d slot_count_per_unit s

-- The unit's flags are among `mine`.
abbrev pub Covers : (ℕ → Bool) → ℕ → Type 0
Covers mine d = (j : ℕ) → j < slot_count_per_unit → mine (d + j) ≡ true

-- The slots of the unit that were free at the start still are.
abbrev pub FreeSince : Flags → ℕ → Flags → Type 0
FreeSince start d s =
    (j : ℕ) → j < slot_count_per_unit → start.value (d + j) ≡ 0 → s.value (d + j) ≡ 0

module _ (mine ours : ℕ → Bool) (K : FlagAccess → Type 0) where
  -- Two facts that stay true, together
  pub Stays-and :
      (P Q : Flags → Type 0)
      → Stays mine ours K P
      → Stays mine ours K Q
      → Stays mine ours K (λ s. P s × Q s)
  Stays-and P Q stays stays' x s s' k v p e = (stays x s s' k v p.0 e, stays' x s s' k v p.1 e)

  pub weaken :
      {P Q : Flags → Type 0} {r : Run}
      → ((s : Flags) → P s → Q s)
      → IsGoing mine ours K P r
      → IsGoing mine ours K Q r
  weaken {r} imply g = record {
    agreed = g.agreed;
    allowed = g.allowed;
    also = imply r.flags g.also;
  }

  module _ (d : ℕ) (apart : (x : FlagAccess) → K x → Apart d x) where
    pub FreeBelow-Stays : (k : ℕ) → k ≤ slot_count_per_unit → Stays mine ours K (FreeBelow d k)
    FreeBelow-Stays k le x s s' allowed v p e j lt =
        access_stays_free d x s s' j (omega arith) (apart x allowed) (p j lt) e

    module _ (whole : Covers mine d) (P : Flags → Type 0) (stays : Stays mine ours K P) where
      -- A scan for a set flag that finds none: the unit is vacant, and stays so.
      pub scan_used :
          (rest i : ℕ) (r : Run)
          → i + rest ≡ slot_count_per_unit
          → IsGoing mine ours K (λ s. P s × FreeBelow d i s) r
          → Gives
              (λ u. IsGoing mine ours K P u.1 × (u.0 ≡ false → Vacant d u.1.flags))
              (any_flag_at 1 rest i d r)
      unfolding any_flag_at
      scan_used zero i r e g = (weaken (λ s p. p.0) g, λ _ j lt. g.also.1 j (omega arith))
      scan_used (suc rest) i r e g =
          >>=-Gives (IsGoing mine ours K (λ s. P s × FreeBelow d i s)) _ (tick r) _
            (tick-IsGoing mine ours K _
              (Stays-and P (FreeBelow d i) stays (FreeBelow-Stays i (omega arith))) r g)
            λ r' g'.
              elim (flag_valid mine ours r'.flags (d + i) g'.agreed (whole i (omega arith))) [
                | inl free ↦ rw free (
                    scan_used rest (suc i) r' (omega arith) (record {
                      agreed = g'.agreed;
                      allowed = g'.allowed;
                      also = (
                        g'.also.0,
                        λ j lt. elim (dec_lt j i) [
                          | yes below ↦ g'.also.1 j below
                          | no last ↦ let same : j ≡ i = omega arith in rw same free
                        ],
                      );
                    }))
                | inr set ↦ rw set (weaken (λ s p. p.0) g', λ h. cc)
              ]

      -- A scan of a vacant unit for a set flag finds none.
      pub scan-Vacant :
          ((s : Flags) → P s → Vacant d s)
          → (rest i : ℕ) (r : Run) → i + rest ≡ slot_count_per_unit
          → IsGoing mine ours K P r
          → Gives (λ u. IsGoing mine ours K P u.1 × (u.0 ≡ false)) (any_flag_at 1 rest i d r)
      unfolding any_flag_at
      scan-Vacant vacant zero i r e g = (g, refl)
      scan-Vacant vacant (suc rest) i r e g =
          >>=-Gives (IsGoing mine ours K P) _ (tick r) _ (tick-IsGoing mine ours K P stays r g)
            λ r' g'.
              rw (vacant r'.flags g'.also i (omega arith))
                (scan-Vacant vacant rest (suc i) r' (omega arith) g')

      -- A scan for a clear flag finds one, if a slot from `i` on is free all the time.
      pub scan_free :
          (start : Flags)
          → ((s : Flags) → P s → FreeSince start d s)
          → (rest i : ℕ) (r : Run) → i + rest ≡ slot_count_per_unit
          → IsGoing mine ours K P r
          → Gives
              (λ u.
                IsGoing mine ours K P u.1
                × ((j : ℕ)
                    → i ≤ j
                    → j < slot_count_per_unit
                    → start.value (d + j) ≡ 0
                    → u.0 ≡ true))
              (any_flag_at 0 rest i d r)
      unfolding any_flag_at
      scan_free start frees zero i r e g = (g, λ j le lt free. absurd (omega arith))
      scan_free start frees (suc rest) i r e g =
          >>=-Gives (IsGoing mine ours K P) _ (tick r) _ (tick-IsGoing mine ours K P stays r g)
            λ r' g'.
              elim (flag_valid mine ours r'.flags (d + i) g'.agreed (whole i (omega arith))) [
                | inl free ↦ rw free (g', λ j le lt free. refl)
                | inr set ↦ rw set (
                    Gives-map _ _ (any_flag_at 0 rest (suc i) d r')
                      (scan_free start frees rest (suc i) r' (omega arith) g')
                      λ u w. (
                        w.0,
                        λ j le lt free. elim (dec_lt i j) [
                          | yes later ↦ w.1 j (omega arith) lt free
                          | no here ↦
                              let same : j ≡ i = omega arith in
                              let was : start.value (d + i) ≡ 0 = rw (← same) free in
                              absurd (omega (arith, frees r'.flags g'.also i (omega arith) was))
                        ],
                      ))
              ]
