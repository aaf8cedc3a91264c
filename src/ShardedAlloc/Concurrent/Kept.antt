-- ===== src/ShardedAlloc/Concurrent/Kept.antt =====
-- The maintenance of a group of src/sharded_alloc.rs while other threads release slots of its units:
-- the group is swapped out, so nobody allocates in it.
use sdarc.Prelude.{
  ℕ, zero, suc, ◌+◌, ◌<◌, ◌≡◌, refl, ◌⊎◌, inl, inr, Bool, true, false, List, [], ◌∷◌, Bool-cases,
  some, get_elem?, length, if◌then◌else◌, arith,
}
use mathlib.Core.Option.{some-injective}
use sdarc.Outcome.{Gives, >>=-Gives}
use sdarc.ShardedAlloc.{slot_count_per_unit}
use sdarc.ShardedAlloc.Groups.{AllBelow, AllBelow-weaken}
use sdarc.ShardedAlloc.Concurrent.{
  FlagAccess, Flags, Run, is_any_slot_used_at, has_any_free_slot_at, drop_unit_at, retain_used_at,
  indexes_at,
}
use sdarc.ShardedAlloc.Concurrent.Agreed.{IsGoing, Stays, Apart, access_stays_free}
use sdarc.ShardedAlloc.Concurrent.Scans.{
  Vacant, Covers, FreeSince, Stays-and, weaken, FreeBelow-Stays, scan_used, scan-Vacant, scan_free,
}

abbrev pub In : ℕ → List ℕ → Type 0
In a [] = ⊥
In a (x ∷ xs) = (a ≡ x) ⊎ In a xs

In-either : (b : Bool) (a i : ℕ) (xs : List ℕ) → In a xs → In a (if b then i ∷ xs else xs)
In-either true a i xs m = inr m
In-either false a i xs m = m

listed_below :
    (b : Bool) (i n : ℕ) (xs : List ℕ)
    → AllBelow (suc i + n) xs
    → AllBelow (i + suc n) (if b then i ∷ xs else xs)
listed_below true i n xs v = (omega arith, AllBelow-weaken _ _ xs (omega arith) v)
listed_below false i n xs v = AllBelow-weaken _ _ xs (omega arith) v

-- The index of every unit that has a slot which was free at the start is among `indexes`.
abbrev pub Among : Flags → ℕ → List ℕ → List ℕ → Type 0
Among start i units indexes =
    (n d j : ℕ)
    → get_elem? units n ≡ some d
    → j < slot_count_per_unit
    → start.value (d + j) ≡ 0
    → In (i + n) indexes

listed-Among :
    (start : Flags) (b : Bool) (unit : ℕ) (units : List ℕ) (i : ℕ) (xs : List ℕ)
    → ((j : ℕ) → j < slot_count_per_unit → start.value (unit + j) ≡ 0 → b ≡ true)
    → Among start (suc i) units xs
    → Among start i (unit ∷ units) (if b then i ∷ xs else xs)
listed-Among start b unit units i xs found among zero d j e lt free =
    let same : unit ≡ d = some-injective _ _ e in rw (found j lt (rw same free)) (inl (omega arith))
listed-Among start b unit units i xs found among (suc n) d j e lt free =
    let shift : i + suc n ≡ suc i + n = omega arith in
    rw shift (In-either b (suc i + n) i xs (among n d j e lt free))

module _ (mine ours : ℕ → Bool) (all : List ℕ) (whole : (d : ℕ) → In d all → Covers mine d) where
  -- The others take no slot of these units.
  abbrev pub Elsewhere : FlagAccess → Type 0
  Elsewhere x = (d : ℕ) → In d all → Apart d x

  abbrev pub Going : (Flags → Type 0) → Run → Type 0
  Going P r = IsGoing mine ours Elsewhere P r

  abbrev With : (Flags → Type 0) → ℕ → Flags → Type 0
  With P d s = P s × Vacant d s

  With-Stays :
      (P : Flags → Type 0) (d : ℕ)
      → In d all
      → Stays mine ours Elsewhere P
      → Stays mine ours Elsewhere (With P d)
  With-Stays P d member stays =
      Stays-and mine ours Elsewhere P (Vacant d) stays (
        FreeBelow-Stays mine ours Elsewhere d (λ x k. k d member) slot_count_per_unit (omega arith))

  -- A unit that a scan has found vacant is dropped, and the drop's assertion holds.
  dropped :
      (d : ℕ) (P : Flags → Type 0)
      → In d all
      → Stays mine ours Elsewhere P
      → (r : Run) → Going P r
      → Vacant d r.flags
      → Gives (Going (With P d)) (drop_unit_at d r)
  dropped d P member stays r g vacant =
      >>=-Gives _ (Going (With P d)) (is_any_slot_used_at d r) _
        (scan-Vacant mine ours Elsewhere d (λ x k. k d member) (whole d member) (With P d)
          (With-Stays P d member stays) (λ s p. p.1) slot_count_per_unit 0 r refl
          (record { agreed = g.agreed; allowed = g.allowed; also = (g.also, vacant) }))
        λ u w. rw w.1 w.0

  -- What `retain_mut` comes to: a unit that it drops has no slot in use, and gets none.
  abbrev pub Kept : (Flags → Type 0) → List ℕ → List ℕ × Run → Type 0
  Kept P units k =
      Going P k.1
      × ((d : ℕ) → In d units → In d k.0 ⊎ Vacant d k.1.flags)
      × ((d : ℕ) → In d k.0 → In d units)

  pub retain_used_at-Kept :
      (units : List ℕ) (P : Flags → Type 0)
      → ((d : ℕ) → In d units → In d all)
      → Stays mine ours Elsewhere P
      → (r : Run) → Going P r
      → Gives (Kept P units) (retain_used_at units r)
  unfolding retain_used_at
  retain_used_at-Kept [] P sub stays r g = (g, λ d m. absurd m, λ d m. m)
  retain_used_at-Kept (unit ∷ units) P sub stays r g =
      >>=-Gives _ _ (is_any_slot_used_at unit r) _
        (scan_used mine ours Elsewhere unit (λ x k. k unit member) (whole unit member) P stays
          slot_count_per_unit 0 r refl
          (weaken mine ours Elsewhere (λ s p. (p, λ j lt. absurd (omega arith))) g))
        λ u w. elim (Bool-cases u.0) [
          | inl used ↦ rw used (
              >>=-Gives (Kept P units) (Kept P (unit ∷ units)) (retain_used_at units u.1) _
                (retain_used_at-Kept units P (λ d m. sub d (inr m)) stays u.1 w.0)
                λ k v. (
                  v.0,
                  λ d m. elim m [
                    | inl here ↦ inl (inl here)
                    | inr there ↦ elim (v.1 d there) [
                      | inl kept ↦ inl (inr kept)
                      | inr free ↦ inr free
                    ]
                  ],
                  λ d m. elim m [ inl here ↦ inl here | inr there ↦ inr (v.2 d there) ],
                ))
          | inr unused ↦ rw unused (
              >>=-Gives (Going (With P unit)) (Kept P (unit ∷ units)) (drop_unit_at unit u.1) _
                (dropped unit P member stays u.1 w.0 (w.1 unused))
                λ r' g'.
                  >>=-Gives (Kept (With P unit) units) (Kept P (unit ∷ units))
                    (retain_used_at units r') _
                    (retain_used_at-Kept units (With P unit) (λ d m. sub d (inr m))
                      (With-Stays P unit member stays) r' g')
                    λ k v. (
                      weaken mine ours Elsewhere (λ s p. p.0) v.0,
                      λ d m. elim m [
                        | inl here ↦ inr (rw here v.0.also.1)
                        | inr there ↦ v.1 d there
                      ],
                      λ d m. inr (v.2 d m),
                    ))
        ]
    where
      member : In unit all
      member = sub unit (inl refl)

  module _ (start : Flags) where
    -- The slots that were free at the start still are.
    abbrev pub AllFreeSince : Flags → Type 0
    AllFreeSince s = (d : ℕ) → In d all → FreeSince start d s

    pub AllFreeSince-Stays : Stays mine ours Elsewhere AllFreeSince
    AllFreeSince-Stays x s s' k v p e d m j lt free =
        access_stays_free d x s s' j lt (k d m) (p d m j lt free) e

    module _ (P : Flags → Type 0) (stays : Stays mine ours Elsewhere P)
        (frees : (s : Flags) → P s → AllFreeSince s) where
      -- The indexes that are listed: each is that of a unit, and a unit that had a free slot at the
      -- start is among them.
      abbrev pub Listed : ℕ → List ℕ → List ℕ × Run → Type 0
      Listed i units x = Going P x.1 × AllBelow (i + length units) x.0 × Among start i units x.0

      pub indexes_at-Listed :
          (units : List ℕ) (i : ℕ)
          → ((d : ℕ) → In d units → In d all)
          → (r : Run) → Going P r
          → Gives (Listed i units) (indexes_at i units r)
      unfolding indexes_at
      indexes_at-Listed [] i sub r g = (g, tt, λ n d j e lt free. cc)
      indexes_at-Listed (unit ∷ units) i sub r g =
          >>=-Gives _ (Listed i (unit ∷ units)) (has_any_free_slot_at unit r) _
            (scan_free mine ours Elsewhere unit (λ x k. k unit member) (whole unit member) P stays
              start (λ s p. frees s p unit member) slot_count_per_unit 0 r refl g)
            λ f w.
              >>=-Gives (Listed (suc i) units) (Listed i (unit ∷ units))
                (indexes_at (suc i) units f.1) _
                (indexes_at-Listed units (suc i) (λ d m. sub d (inr m)) f.1 w.0)
                λ k v. (
                  v.0,
                  listed_below f.0 i _ k.0 v.1,
                  listed-Among start f.0 unit units i k.0 (λ j. w.1 j (omega arith)) v.2,
                )
        where
          member : In unit all
          member = sub unit (inl refl)
