-- ===== src/ShardedAlloc/Concurrent/Taken.antt =====
-- What the steps of a thread that allocates in src/sharded_alloc.rs do to who has which slot.
use sdarc.Prelude.{
  ℕ, zero, suc, ◌+◌, ◌<◌, ◌≤◌, ◌≡◌, refl, inl, inr, Bool, true, false, ◌==◌, ==_iff, Bool-cases,
  Option, none, some, arith, if◌then◌else◌, dec_lt,
}
use sdarc.Outcome.{done, Gives, >>=-Gives}
use sdarc.ShardedAlloc.{slot_count_per_unit}
use sdarc.ShardedAlloc.Concurrent.{FlagAccess, Flags, Run, with_value, release, tick, take_free_at}
use sdarc.ShardedAlloc.Concurrent.Agreed.{Agreed, IsGoing, Stays, tick-IsGoing, flag_valid, Apart}
use sdarc.ShardedAlloc.Concurrent.Scans.{Covers, FreeBelow, FreeBelow-Stays}
use sdarc.ShardedAlloc.Concurrent.Allocation.{clear_flags}

-- One more address
abbrev pub plus : ℕ → (ℕ → Bool) → ℕ → Bool
plus a f b = if a == b then true else f b

module _ (mine ours : ℕ → Bool) where
  -- A swap that finds the flag clear gets the slot, which nobody had.
  swap-clear :
      (a : ℕ) (s : Flags)
      → Agreed mine ours s
      → s.value a ≡ 0
      → (ours a ≡ false) × Agreed mine (plus a ours) (with_value a 1 s)
  swap-clear a s v clear = (
    not_ours,
    record {
      single = λ b. ground (arith, v.single b, ==_iff a b);
      held = λ b h. ground (arith, v.held b, ==_iff a b);
      free = λ b m o z. ground (arith, v.free b m, ==_iff a b);
    },
  )
    where
      not_ours : ours a ≡ false
      not_ours = elim (Bool-cases (ours a)) [
        | inl held ↦ absurd (omega (arith, v.held a held))
        | inr other ↦ other
      ]

  swap-set :
      (a : ℕ) (s : Flags) → Agreed mine ours s → s.value a ≡ 1 → Agreed mine ours (with_value a 1 s)
  swap-set a s v set = record {
    single = λ b. ground (arith, v.single b, ==_iff a b);
    held = λ b h. ground (arith, v.held b h, ==_iff a b);
    free = λ b m o z. ground (arith, v.free b m o z, ==_iff a b);
  }

  -- The thread releases a slot that it has.
  pub release-Agreed :
      (a : ℕ) (s : Flags)
      → ours a ≡ false
      → Agreed mine (plus a ours) s
      → (release a s ≡ done (with_value a 0 s)) × Agreed mine ours (with_value a 0 s)
  unfolding release
  release-Agreed a s not_ours v =
      let set : s.value a ≡ 1 = ground (arith, v.held a, ==_iff a a) in
      (
        rw set refl,
        record {
          single = λ b. ground (arith, v.single b, ==_iff a b);
          held = λ b h. ground (arith, v.held b, ==_iff a b);
          free = λ b m o z. ground (arith, v.free b m, ==_iff a b);
        },
      )

  -- A slot that the thread has is nobody else's.
  pub held_alone :
      (a : ℕ) (s : Flags) → ours a ≡ true → Agreed mine ours s → (s.others a ≡ 0) × (s.value a ≡ 1)
  held_alone a s h v = (ground (arith, v.single a), v.held a h)

  -- The flag of a slot that nobody has is cleared, and counts from now on.
  clear-Agreed :
      (a : ℕ) (s : Flags)
      → s.others a ≡ 0
      → ours a ≡ false
      → Agreed mine ours s
      → Agreed (plus a mine) ours (with_value a 0 s)
  clear-Agreed a s unheld not_ours v = record {
    single = λ b. ground (arith, v.single b, ==_iff a b);
    held = λ b h. ground (arith, v.held b h, ==_iff a b);
    free = λ b m o z. ground (arith, v.free b, ==_iff a b);
  }

  module _ (K : FlagAccess → Type 0) (P : Flags → Type 0) (stays : Stays mine ours K P) where
    -- A scan that takes a slot: the thread had not had it before, and nobody else has it.
    abbrev pub Took : ℕ → Option ℕ × Run → Type 0
    Took d (none, r) = IsGoing mine ours K P r
    Took d (some a, r) =
        (ours a ≡ false)
        × IsGoing mine (plus a ours) K P r
        × ((j : ℕ) × (j < slot_count_per_unit) × (a ≡ d + j))

    pub take_free_at-Took :
        (d : ℕ)
        → Covers mine d
        → ((a n : ℕ) (s : Flags) → P s → P (with_value a n s))
        → (rest i : ℕ) (r : Run) → i + rest ≡ slot_count_per_unit
        → IsGoing mine ours K P r
        → Gives (Took d) (take_free_at rest i d r)
    unfolding take_free_at
    take_free_at-Took d whole blind zero i r e g = g
    take_free_at-Took d whole blind (suc rest) i r e g =
        >>=-Gives (IsGoing mine ours K P) (Took d) (tick r) _ (tick-IsGoing mine ours K P stays r g)
          λ r' g'. elim (flag_valid mine ours r'.flags (d + i) g'.agreed (whole i (omega arith))) [
            | inl clear ↦
                let w = swap-clear (d + i) r'.flags g'.agreed clear in
                rw clear (
                  w.0,
                  record {
                    agreed = w.1;
                    allowed = g'.allowed;
                    also = blind (d + i) 1 r'.flags g'.also;
                  },
                  (i, omega arith, refl),
                )
            | inr set ↦ rw set (
                take_free_at-Took d whole blind rest (suc i) _ (omega arith) (record {
                  agreed = swap-set (d + i) r'.flags g'.agreed set;
                  allowed = g'.allowed;
                  also = blind (d + i) 1 r'.flags g'.also;
                }))
          ]

  -- A unit whose first slot is free has one to take.
  pub take_free_at-first :
      (K : FlagAccess → Type 0) (d : ℕ) (r : Run)
      → ((x : FlagAccess) → K x → Apart d x)
      → IsGoing mine ours K (FreeBelow d 1) r
      → Gives (λ u. (a : ℕ) × (u.0 ≡ some a)) (take_free_at slot_count_per_unit 0 d r)
  unfolding take_free_at
  take_free_at-first K d r apart g =
      >>=-Gives (IsGoing mine ours K (FreeBelow d 1)) (λ u. (a : ℕ) × (u.0 ≡ some a)) (tick r) _
        (tick-IsGoing mine ours K (FreeBelow d 1)
          (FreeBelow-Stays mine ours K d apart 1 (omega arith)) r g)
        λ r' g'. rw (g'.also 0 (omega arith)) (d + 0, refl)

-- The addresses of a unit's flags from slot `i` on, with others
abbrev pub plus_all : ℕ → ℕ → ℕ → (ℕ → Bool) → ℕ → Bool
plus_all zero i d f = f
plus_all (suc rest) i d f = plus_all rest (suc i) d (plus (d + i) f)

pub plus_all_mono :
    (rest i d : ℕ) (f : ℕ → Bool) (a : ℕ) → f a ≡ true → plus_all rest i d f a ≡ true
plus_all_mono zero i d f a h = h
plus_all_mono (suc rest) i d f a h =
    plus_all_mono rest (suc i) d (plus (d + i) f) a (ground (arith, h))

pub plus_all-Covers :
    (rest i d : ℕ) (f : ℕ → Bool) (j : ℕ)
    → i ≤ j
    → j < i + rest
    → plus_all rest i d f (d + j) ≡ true
plus_all-Covers zero i d f j le lt = absurd (omega arith)
plus_all-Covers (suc rest) i d f j le lt = elim (dec_lt i j) [
  | yes later ↦ plus_all-Covers rest (suc i) d (plus (d + i) f) j (omega arith) (omega arith)
  | no here ↦
      let same : j ≡ i = omega arith in
      rw same (
        plus_all_mono rest (suc i) d (plus (d + i) f) (d + i)
          (ground (arith, ==_iff (d + i) (d + i))))
]

pub clear_flags-others : (rest i d : ℕ) (s : Flags) → (clear_flags rest i d s).others ≡ s.others
unfolding clear_flags
clear_flags-others zero i d s = refl
clear_flags-others (suc rest) i d s = clear_flags-others rest (suc i) d (with_value (d + i) 0 s)

pub clear_flags-Agreed :
    (ours : ℕ → Bool) (rest i d : ℕ) (mine : ℕ → Bool) (s : Flags)
    → ((j : ℕ) → i ≤ j → j < i + rest → (s.others (d + j) ≡ 0) × (ours (d + j) ≡ false))
    → Agreed mine ours s
    → Agreed (plus_all rest i d mine) ours (clear_flags rest i d s)
unfolding clear_flags
clear_flags-Agreed ours zero i d mine s unheld v = v
clear_flags-Agreed ours (suc rest) i d mine s unheld v =
    let w = unheld i (omega arith) (omega arith) in
    clear_flags-Agreed ours rest (suc i) d (plus (d + i) mine) (with_value (d + i) 0 s)
      (λ j le lt. unheld j (omega arith) (omega arith)) (clear-Agreed mine ours (d + i) s w.0 w.1 v)
