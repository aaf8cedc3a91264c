-- ===== src/ShardedAlloc/Concurrent/Attempts.antt =====
-- How an attempt on one unit of src/sharded_alloc.rs ends, whatever the other threads do to the usage
-- flags, but that they take no slot of the unit at `p`, which only the allocating thread knows.
use sdarc.Prelude.{ℕ, ◌+◌, ◌<◌, ◌≡◌, refl, Bool, true, false, ==_iff, Option, none, some, arith}
use sdarc.Outcome.{Gives, >>=-Gives, Gives-and}
use sdarc.ShardedAlloc.{slot_count_per_unit}
use sdarc.ShardedAlloc.Concurrent.{
  takes, gives_back, Flags, Run, flag_access, other_takes, other_gives_back, release, tick,
  take_free_at,
}
use sdarc.ShardedAlloc.Concurrent.Agreed.{Agreed, IsGoing, Stays, tick-IsGoing, Apart}
use sdarc.ShardedAlloc.Concurrent.Scans.{Covers, Vacant}
use sdarc.ShardedAlloc.Concurrent.Allocation.{
  Tried, full, allocated, unwound, initialize_at, allocate_and_initialize_at,
}
use sdarc.ShardedAlloc.Concurrent.Taken.{
  plus, release-Agreed, Took, take_free_at-Took, take_free_at-first,
}

-- The other threads have no pointer into the unit at `p`.
abbrev pub Unheld : ℕ → Flags → Type 0
Unheld p s = (j : ℕ) → j < slot_count_per_unit → s.others (p + j) ≡ 0

module _ (mine ours : ℕ → Bool) (p : ℕ) where
  pub Unheld-Stays : Stays mine ours (Apart p) (Unheld p)
  unfolding flag_access other_takes other_gives_back release
  Unheld-Stays (takes a) s s' k v u e j lt = ground (arith, u j lt, k j lt, ==_iff a (p + j))
  Unheld-Stays (gives_back a) s s' k v u e j lt = ground (arith, u j lt, ==_iff a (p + j))

module _ (mine ours : ℕ → Bool) (p : ℕ) where
  abbrev pub Now : Run → Type 0
  Now r = IsGoing mine ours (Apart p) (Unheld p) r

module _ (mine ours : ℕ → Bool) (b : Bool) (p : ℕ) where
  -- How an attempt on the unit at `d` ends; only if `F` are all its slots in use.
  abbrev pub TriedWell : Type 0 → ℕ → Tried × Run → Type 0
  TriedWell F d (full, r) = F × Now mine ours p r
  TriedWell F d (allocated a, r) =
      (b ≡ false)
      × (ours a ≡ false)
      × Now mine (plus a ours) p r
      × ((j : ℕ) × (j < slot_count_per_unit) × (a ≡ d + j))
  TriedWell F d (unwound, r) = (b ≡ true) × Now mine ours p r

module _ (mine ours : ℕ → Bool) (p : ℕ) where
  initialize_at-TriedWell :
      (F : Type 0) (b : Bool) (d : ℕ) (u : Option ℕ × Run)
      → (u.0 ≡ none → F)
      → Took mine ours (Apart p) (Unheld p) (Unheld-Stays mine ours p) d u
      → Gives (TriedWell mine ours b p F d) (initialize_at b u)
  unfolding initialize_at
  initialize_at-TriedWell F b d (none, r) miss v = (miss refl, v)
  initialize_at-TriedWell F false d (some a, r) miss v = (refl, v.0, v.1, v.2)
  initialize_at-TriedWell F true d (some a, r) miss v =
      >>=-Gives (IsGoing mine (plus a ours) (Apart p) (Unheld p)) (TriedWell mine ours true p F d)
        (tick r) _
        (tick-IsGoing mine (plus a ours) (Apart p) (Unheld p) (Unheld-Stays mine (plus a ours) p) r
          v.1)
        λ r' g.
          let w = release-Agreed mine ours a r'.flags v.0 g.agreed in
          rw w.0 (refl, record { agreed = w.1; allowed = g.allowed; also = g.also })

  pub attempt-TriedWell :
      (b : Bool) (d : ℕ) (r : Run)
      → Covers mine d
      → Now mine ours p r
      → Gives (TriedWell mine ours b p Unit d) (allocate_and_initialize_at b d r)
  attempt-TriedWell b d r whole g =
      >>=-Gives (Took mine ours (Apart p) (Unheld p) (Unheld-Stays mine ours p) d)
        (TriedWell mine ours b p Unit d) (take_free_at slot_count_per_unit 0 d r) (initialize_at b)
        (take_free_at-Took mine ours (Apart p) (Unheld p) (Unheld-Stays mine ours p) d whole
          (λ a n s u. u) slot_count_per_unit 0 r refl g)
        λ u v. initialize_at-TriedWell Unit b d u (λ e. tt) v

  -- Nobody has a slot of the unit at `p`, so its flags are clear.
  pub unheld-Vacant :
      (s : Flags)
      → Covers mine p
      → ((j : ℕ) → j < slot_count_per_unit → ours (p + j) ≡ false)
      → Agreed mine ours s
      → Unheld p s
      → Vacant p s
  unheld-Vacant s whole not_ours v unheld j lt =
      v.free (p + j) (whole j lt) (not_ours j lt) (unheld j lt)

  -- The first attempt on the new unit finds a slot.
  pub first_attempt-TriedWell :
      (b : Bool) (r : Run)
      → Covers mine p
      → ((j : ℕ) → j < slot_count_per_unit → ours (p + j) ≡ false)
      → Now mine ours p r
      → Gives (TriedWell mine ours b p ⊥ p) (allocate_and_initialize_at b p r)
  first_attempt-TriedWell b r whole not_ours g =
      >>=-Gives
        (λ u.
          Took mine ours (Apart p) (Unheld p) (Unheld-Stays mine ours p) p u
          × ((a : ℕ) × (u.0 ≡ some a)))
        (TriedWell mine ours b p ⊥ p) (take_free_at slot_count_per_unit 0 p r) (initialize_at b)
        (Gives-and _ _ (take_free_at slot_count_per_unit 0 p r)
          (take_free_at-Took mine ours (Apart p) (Unheld p) (Unheld-Stays mine ours p) p whole
            (λ a n s u. u) slot_count_per_unit 0 r refl g)
          (take_free_at-first mine ours (Apart p) p r (λ x k. k)
            (record {
              agreed = g.agreed;
              allowed = g.allowed;
              also = λ j lt. unheld-Vacant r.flags whole not_ours g.agreed g.also j (omega arith);
            })))
        λ u v. initialize_at-TriedWell ⊥ b p u (λ e. let (a, found) = v.1 in cc) v.0
