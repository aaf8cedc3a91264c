-- ===== src/ShardedAlloc/Concurrent/Maintained.antt =====
-- The whole maintenance of a group of src/sharded_alloc.rs, with releases at any moment.
use sdarc.Prelude.{ℕ, ◌+◌, ◌<◌, ◌≡◌, ◌⊎◌, inl, inr, Bool, false, Bool-cases, List, length, arith}
use sdarc.Outcome.{Gives, >>=-Gives}
use sdarc.ShardedAlloc.{slot_count_per_unit}
use sdarc.ShardedAlloc.Groups.{AllBelow, AllBelow-weaken}
use sdarc.ShardedAlloc.Concurrent.{Flags, Run, Group, retain_used_at, indexes_at, do_maintenance_at}
use sdarc.ShardedAlloc.Concurrent.Agreed.{Agreed, Stays, Allows, Apart, access_stays_free}
use sdarc.ShardedAlloc.Concurrent.Scans.{Vacant, Covers, Stays-and}
use sdarc.ShardedAlloc.Concurrent.Kept.{
  In, Elsewhere, Kept, retain_used_at-Kept, AllFreeSince, AllFreeSince-Stays, Listed,
  indexes_at-Listed, Among,
}

-- What maintenance comes to, from the flags at its start: no unit is made up, and one that is
-- dropped has no slot that anybody has; each index is that of a unit, and a unit with a slot that
-- was free at the start is listed.
pub record IsMaintained (mine ours : ℕ → Bool) (group : Group) (start : Flags) (x : Group × Run)
    : Type 0 where
  pub agreed : Agreed mine ours x.1.flags
  pub kept_or_vacant :
      (d : ℕ)
      → In d group.all_units
      → In d x.0.all_units
        ⊎ ((j : ℕ)
            → j < slot_count_per_unit
            → (x.1.flags.others (d + j) ≡ 0) × (ours (d + j) ≡ false))
  pub known : (d : ℕ) → In d x.0.all_units → In d group.all_units
  pub indexes_valid : AllBelow (length x.0.all_units) x.0.indexes
  pub free_listed : Among start 0 x.0.all_units x.0.indexes

module _ (mine ours : ℕ → Bool) where
  -- Nobody has a slot whose flag is clear.
  vacant_unheld :
      (s : Flags) (a : ℕ) → Agreed mine ours s → s.value a ≡ 0 → (s.others a ≡ 0) × (ours a ≡ false)
  vacant_unheld s a v clear = (
    elim (v.single a) [ inl none_held ↦ none_held | inr (one, set, _) ↦ absurd (omega arith) ],
    elim (Bool-cases (ours a)) [
      | inl held ↦ absurd (omega (arith, v.held a held))
      | inr not_ours ↦ not_ours
    ],
  )

  -- Maintenance of a group while other threads release slots at any moment, but take none of its
  -- units: it does not panic, and no unit that it drops has a slot that any thread has. Each index
  -- that it lists is that of a unit, and each unit that it keeps with a slot that was free at the
  -- start is listed. No slot gets two pointers.
  pub do_maintenance_at-IsMaintained :
      (group : Group) (r : Run)
      → ((d : ℕ) → In d group.all_units → Covers mine d)
      → Agreed mine ours r.flags
      → Allows (λ x. (d : ℕ) → In d group.all_units → Apart d x) r.future
      → Gives (IsMaintained mine ours group r.flags) (do_maintenance_at group r)
  unfolding do_maintenance_at
  do_maintenance_at-IsMaintained group r whole v allowed =
      >>=-Gives (Kept mine ours all whole Since all) (IsMaintained mine ours group r.flags)
        (retain_used_at all r) _
        (retain_used_at-Kept mine ours all whole all Since (λ d m. m)
          (AllFreeSince-Stays mine ours all whole r.flags) r
          (record { agreed = v; allowed = allowed; also = λ d m j lt free. free }))
        λ k kept.
          >>=-Gives
            (Listed mine ours all whole r.flags (Both k.0) (Both-Stays k.0) (λ s p. p.0) 0 k.0)
            (IsMaintained mine ours group r.flags) (indexes_at 0 k.0 k.1) _
            (indexes_at-Listed mine ours all whole r.flags (Both k.0) (Both-Stays k.0) (λ s p. p.0)
              k.0 0 kept.2 k.1
              (record {
                agreed = kept.0.agreed;
                allowed = kept.0.allowed;
                also = (kept.0.also, kept.1);
              }))
            λ x listed. record {
              agreed = listed.0.agreed;
              kept_or_vacant = λ d m. elim (listed.0.also.1 d m) [
                | inl still ↦ inl still
                | inr vacant ↦
                    inr (λ j lt. vacant_unheld x.1.flags (d + j) listed.0.agreed (vacant j lt))
              ];
              known = kept.2;
              indexes_valid =
                  AllBelow-weaken (0 + length k.0) (length k.0) x.0 (omega arith) listed.1;
              free_listed = listed.2;
            }
    where
      all : List ℕ
      all = group.all_units

      Since : Flags → Type 0
      Since = AllFreeSince mine ours all whole r.flags

      Split : List ℕ → Flags → Type 0
      Split kept s = (d : ℕ) → In d all → In d kept ⊎ Vacant d s

      Both : List ℕ → Flags → Type 0
      Both kept s = Since s × Split kept s

      Both-Stays : (kept : List ℕ) → Stays mine ours (Elsewhere mine ours all whole) (Both kept)
      Both-Stays kept =
          Stays-and mine ours (Elsewhere mine ours all whole) Since (Split kept)
            (AllFreeSince-Stays mine ours all whole r.flags)
            λ x s s' allowed' v' p e d m. elim (p d m) [
              | inl still ↦ inl still
              | inr vacant ↦
                  inr (λ j lt. access_stays_free d x s s' j lt (allowed' d m) (vacant j lt) e)
            ]
