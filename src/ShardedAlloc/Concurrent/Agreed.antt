-- ===== src/ShardedAlloc/Concurrent/Agreed.antt =====
-- What the accesses of src/sharded_alloc.rs to the usage flags keep, whoever makes them and whenever.
use sdarc.Prelude.{
  ℕ, ◌+◌, ◌-◌, ◌<◌, ◌≡◌, ◌≢◌, refl, ◌⊎◌, inl, inr, Bool, true, false, Bool-cases, List, [], ◌∷◌,
  ◌==◌, ==_iff, arith,
}
use sdarc.Outcome.{done, Gives, >>=-Gives}
use sdarc.Object.{update}
use sdarc.ShardedAlloc.{slot_count_per_unit}
use sdarc.ShardedAlloc.Concurrent.{
  FlagAccess, takes, gives_back, Flags, Run, other_takes, release, other_gives_back, flag_access,
  accesses, tick_by, tick,
}

-- `mine a`: the word at `a` is the flag of a slot. `ours a`: the thread that steps has a pointer to
-- that slot. No slot has two pointers, and a flag is set exactly when its slot has one.
pub record Agreed (mine ours : ℕ → Bool) (s : Flags) : Type 0 where
  pub single : (a : ℕ) → (s.others a ≡ 0) ⊎ ((s.others a ≡ 1) × (s.value a ≡ 1) × (ours a ≡ false))
  pub held : (a : ℕ) → ours a ≡ true → s.value a ≡ 1
  pub free : (a : ℕ) → mine a ≡ true → ours a ≡ false → s.others a ≡ 0 → s.value a ≡ 0

abbrev pub given_back : ℕ → Flags → Flags
given_back a s = record { value = update s.value a 0; others = update s.others a (s.others a - 1) }

-- Every access that is to come is one of those that `K` allows.
abbrev pub Only : (FlagAccess → Type 0) → List FlagAccess → Type 0
Only K [] = Unit
Only K (x ∷ xs) = K x × Only K xs

abbrev pub Allows : (FlagAccess → Type 0) → List (List FlagAccess) → Type 0
Allows K [] = Unit
Allows K (xs ∷ later) = Only K xs × Allows K later

module _ (mine ours : ℕ → Bool) where
  other_takes-Agreed : (a : ℕ) (s : Flags) → Agreed mine ours s → Agreed mine ours (other_takes a s)
  unfolding other_takes
  other_takes-Agreed a s v = record {
    single = λ b. ground (arith, v.single b, v.held b, ==_iff a b);
    held = λ b h. ground (arith, v.held b h);
    free = λ b m o z. ground (arith, v.free b m o);
  }

  -- A pointer's release does not panic.
  other_gives_back-Agreed :
      (a : ℕ) (s : Flags)
      → Agreed mine ours s
      → (s' : Flags) × (other_gives_back a s ≡ done s') × Agreed mine ours s'
  unfolding other_gives_back release
  other_gives_back-Agreed a s v = elim (v.single a) [
    | inl none_held ↦ (s, rw none_held refl, v)
    | inr (one, set, not_ours) ↦
        let busy : (s.others a == 0) ≡ false = rw one refl in
        let taken : (s.value a == 1) ≡ true = rw set refl in
        (
          given_back a s,
          rw (busy, taken) refl,
          record {
            single = λ b. ground (arith, v.single b, ==_iff a b);
            held = λ b h. ground (arith, v.held b h, ==_iff a b);
            free = λ b m o z. ground (arith, v.free b m o, ==_iff a b);
          },
        )
  ]

  pub flag_access-Agreed :
      (x : FlagAccess) (s : Flags)
      → Agreed mine ours s
      → (s' : Flags) × (flag_access x s ≡ done s') × Agreed mine ours s'
  unfolding flag_access
  flag_access-Agreed (takes a) s v = (other_takes a s, refl, other_takes-Agreed a s v)
  flag_access-Agreed (gives_back a) s v = other_gives_back-Agreed a s v

  -- What is true at a moment: the flags agree with the pointers, `P`, and the others keep to `K`.
  pub record IsGoing (K : FlagAccess → Type 0) (P : Flags → Type 0) (r : Run) : Type 0 where
    pub agreed : Agreed mine ours r.flags
    pub allowed : Allows K r.future
    pub also : P r.flags

  module _ (K : FlagAccess → Type 0) where
    -- `P` stays true under every access that `K` allows.
    abbrev pub Stays : (Flags → Type 0) → Type 0
    Stays P =
        (x : FlagAccess) (s s' : Flags)
        → K x
        → Agreed mine ours s
        → P s
        → flag_access x s ≡ done s'
        → P s'

    module _ (P : Flags → Type 0) (stays : Stays P) where
      pub accesses-keep :
          (xs : List FlagAccess) (s : Flags)
          → Only K xs
          → Agreed mine ours s
          → P s
          → Gives (λ s'. Agreed mine ours s' × P s') (accesses xs s)
      unfolding accesses
      accesses-keep [] s only v p = (v, p)
      accesses-keep (x ∷ xs) s only v p =
          let (s', e, v') = flag_access-Agreed x s v in
          rw e (accesses-keep xs s' only.1 v' (stays x s s' only.0 v p e))

      tick_by-keeps :
          (future : List (List FlagAccess)) (s : Flags)
          → Allows K future
          → Agreed mine ours s
          → P s
          → Gives (IsGoing K P) (tick_by future s)
      unfolding tick_by
      tick_by-keeps [] s allowed v p = record { agreed = v; allowed = tt; also = p }
      tick_by-keeps (now ∷ later) s allowed v p =
          >>=-Gives _ (IsGoing K P) (accesses now s) _ (accesses-keep now s allowed.0 v p)
            λ s' w. record { agreed = w.0; allowed = allowed.1; also = w.1 }

      pub tick-IsGoing : (r : Run) → IsGoing K P r → Gives (IsGoing K P) (tick r)
      tick-IsGoing r g = tick_by-keeps r.future r.flags g.allowed g.agreed g.also

  pub flag_valid :
      (s : Flags) (a : ℕ) → Agreed mine ours s → mine a ≡ true → (s.value a ≡ 0) ⊎ (s.value a ≡ 1)
  flag_valid s a v m = elim (Bool-cases (ours a)) [
    | inl held ↦ inr (v.held a held)
    | inr not_ours ↦ elim (v.single a) [
      | inl none_held ↦ inl (v.free a m not_ours none_held)
      | inr (one, set, _) ↦ inr set
    ]
  ]

-- The others take no slot of the unit at `d`.
abbrev pub Apart : ℕ → FlagAccess → Type 0
Apart d (takes a) = (j : ℕ) → j < slot_count_per_unit → a ≢ d + j
Apart d (gives_back a) = Unit

-- Then a slot of the unit that is free stays so.
pub access_stays_free :
    (d : ℕ) (x : FlagAccess) (s s' : Flags) (j : ℕ)
    → j < slot_count_per_unit
    → Apart d x
    → s.value (d + j) ≡ 0
    → flag_access x s ≡ done s'
    → s'.value (d + j) ≡ 0
unfolding flag_access other_takes other_gives_back release
access_stays_free d (takes a) s s' j lt apart zero_flag e =
    ground (arith, apart j lt, ==_iff a (d + j))
access_stays_free d (gives_back a) s s' j lt apart zero_flag e = ground (arith, ==_iff a (d + j))
