-- ===== src/ShardedAlloc/Concurrent/NewUnit.antt =====
-- How src/sharded_alloc.rs allocates from a new unit of a group, and what `allocate` promises.
use sdarc.Prelude.{
  ℕ, ◌+◌, ◌-◌, ◌<◌, ◌≡◌, refl, ◌⊎◌, inl, inr, Bool, true, false, ==_iff, List, [], ◌∷◌, ◌++◌,
  Option, none, some, arith, length, length-append,
}
use sdarc.Outcome.{Gives, >>=-Gives, Gives-map}
use sdarc.ShardedAlloc.{slot_count_per_unit}
use sdarc.ShardedAlloc.Groups.{AllBelow, AllBelow-weaken, AllBelow-append}
use sdarc.ShardedAlloc.Concurrent.{
  FlagAccess, Flags, Run, Group, accesses, drop_unit_at, is_any_slot_used_at,
}
use sdarc.ShardedAlloc.Concurrent.Agreed.{Agreed, Stays, Only, accesses-keep, Apart}
use sdarc.ShardedAlloc.Concurrent.Scans.{
  Covers, Vacant, Stays-and, FreeBelow-Stays, weaken, scan-Vacant,
}
use sdarc.ShardedAlloc.Concurrent.Kept.{In}
use sdarc.ShardedAlloc.Concurrent.Allocation.{
  new_unit_at, Tried, full, allocated, unwound, allocate_and_initialize_at, push_new_unit_at,
  allocate_in_new_unit_at,
}
use sdarc.ShardedAlloc.Concurrent.Taken.{
  plus, plus_all, plus_all_mono, plus_all-Covers, held_alone, clear_flags-others,
  clear_flags-Agreed,
}
use sdarc.ShardedAlloc.Concurrent.Attempts.{
  Unheld, Unheld-Stays, Now, TriedWell, unheld-Vacant, first_attempt-TriedWell,
}

-- The group's units have flags among `mine`, and its indexes are those of units.
pub record IsUsable (mine : ℕ → Bool) (group : Group) : Type 0 where
  pub covered : (d : ℕ) → In d group.all_units → Covers mine d
  pub indexes_valid : AllBelow (length group.all_units) group.indexes

pub In-append : (d : ℕ) (xs ys : List ℕ) → In d (xs ++ ys) → In d xs ⊎ In d ys
In-append d [] ys m = inr m
In-append d (x ∷ xs) ys (inl e) = inl (inl e)
In-append d (x ∷ xs) ys (inr m) = elim (In-append d xs ys m) [
  | inl left ↦ inl (inr left)
  | inr right ↦ inr right
]

In-last : (d : ℕ) (xs : List ℕ) → In d (xs ++ d ∷ [])
In-last d [] = inl refl
In-last d (x ∷ xs) = inr (In-last d xs)

-- A slot that the thread has stays its own, whatever the others do next.
abbrev pub IsOwnAt : ℕ → Flags → Type 0
IsOwnAt a s =
    (xs : List FlagAccess) → Gives (λ s'. (s'.others a ≡ 0) × (s'.value a ≡ 1)) (accesses xs s)

-- What `allocate` comes to. It gives a pointer exactly when `init_func` does not panic: to a slot of
-- a unit of the group, which neither this thread had before nor any other has from then on. The
-- flags agree with the pointers, those of a new unit included, and the group can be used again.
abbrev pub Served : (mine ours : ℕ → Bool) → Bool → Option ℕ × Group × Run → Type 0
Served mine ours b (none, group, r) =
    (b ≡ true)
    × (mine' : ℕ → Bool) × ((a : ℕ) → mine a ≡ true → mine' a ≡ true)
    × Agreed mine' ours r.flags
    × IsUsable mine' group
Served mine ours b (some a, group, r) =
    (b ≡ false)
    × (mine' : ℕ → Bool) × ((a : ℕ) → mine a ≡ true → mine' a ≡ true)
    × Agreed mine' (plus a ours) r.flags
    × IsUsable mine' group
    × (ours a ≡ false)
    × IsOwnAt a r.flags
    × ((d j : ℕ) × In d group.all_units × (j < slot_count_per_unit) × (a ≡ d + j))

Only-any : (xs : List FlagAccess) → Only (λ x. Unit {0}) xs
Only-any [] = tt
Only-any (x ∷ xs) = (tt, Only-any xs)

module _ (mine ours : ℕ → Bool) where
  pub own : (a : ℕ) (s : Flags) → ours a ≡ true → Agreed mine ours s → IsOwnAt a s
  own a s h v xs =
      Gives-map (λ s'. Agreed mine ours s' × Unit {0}) _ (accesses xs s)
        (accesses-keep mine ours (λ x. Unit) (λ s. Unit) (λ x s s' k v p e. tt) xs s (Only-any xs) v
          tt)
        λ s' w. held_alone mine ours a s' h w.0

module _ (mine ours : ℕ → Bool) (b : Bool) (p : ℕ) where
  abbrev mine' : ℕ → Bool
  mine' = plus_all slot_count_per_unit 0 p mine

  mine'-Covers : Covers mine' p
  mine'-Covers j lt = plus_all-Covers slot_count_per_unit 0 p mine j (omega arith) (omega arith)

  mine'-mono : (a : ℕ) → mine a ≡ true → mine' a ≡ true
  mine'-mono a h = plus_all_mono slot_count_per_unit 0 p mine a h

  IsUsable-weaken : (group : Group) → IsUsable mine group → IsUsable mine' group
  IsUsable-weaken group v = record {
    covered = λ d m j lt. mine'-mono (d + j) (v.covered d m j lt);
    indexes_valid = v.indexes_valid;
  }

  IsUsable-push :
      (group : Group)
      → IsUsable mine group
      → IsUsable mine' (record {
        all_units = group.all_units ++ p ∷ [];
        indexes = group.indexes ++ (length (group.all_units ++ p ∷ []) - 1) ∷ [];
      })
  IsUsable-push group v =
      let longer : length (group.all_units ++ p ∷ []) ≡ length group.all_units + 1 =
        length-append group.all_units (p ∷ []) in
      record {
        covered = λ d m. elim (In-append d group.all_units (p ∷ []) m) [
          | inl old ↦ (IsUsable-weaken group v).covered d old
          | inr (inl new) ↦ rw new mine'-Covers
          | inr (inr nowhere) ↦ absurd nowhere
        ];
        indexes_valid =
            AllBelow-append _ group.indexes _ (omega arith)
              (AllBelow-weaken _ _ group.indexes (omega arith) v.indexes_valid);
      }

  module _ (not_ours : (j : ℕ) → j < slot_count_per_unit → ours (p + j) ≡ false) where
    -- The slot is released again, so the new unit is dropped with no slot in use.
    drop_new : (r : Run) → Now mine' ours p r → Gives (Now mine' ours p) (drop_unit_at p r)
    drop_new r g =
        >>=-Gives _ (Now mine' ours p) (is_any_slot_used_at p r) _
          (scan-Vacant mine' ours (Apart p) p (λ x k. k) mine'-Covers Q Q-Stays (λ s q. q.1)
            slot_count_per_unit 0 r refl
            (record {
              agreed = g.agreed;
              allowed = g.allowed;
              also = (
                g.also,
                unheld-Vacant mine' ours p r.flags mine'-Covers not_ours g.agreed g.also,
              );
            }))
          λ u w. rw w.1 (weaken mine' ours (Apart p) (λ s q. q.0) w.0)
      where
        Q : Flags → Type 0
        Q s = Unheld p s × Vacant p s

        Q-Stays : Stays mine' ours (Apart p) Q
        Q-Stays =
            Stays-and mine' ours (Apart p) (Unheld p) (Vacant p) (Unheld-Stays mine' ours p)
              (FreeBelow-Stays mine' ours (Apart p) p (λ x k. k) slot_count_per_unit (omega arith))

    push_new_unit_at-Served :
        (group : Group) (t : Tried × Run)
        → IsUsable mine group
        → TriedWell mine' ours b p ⊥ p t
        → Gives (Served mine ours b) (push_new_unit_at b group p t)
    unfolding push_new_unit_at
    push_new_unit_at-Served group (full, r) v w = absurd w.0
    push_new_unit_at-Served group (allocated a, r) v w = (
      w.0,
      mine',
      mine'-mono,
      w.2.agreed,
      IsUsable-push group v,
      w.1,
      own mine' (plus a ours) a r.flags (ground (arith, ==_iff a a)) w.2.agreed,
      let (j, lt, e) = w.3 in (p, j, In-last p group.all_units, lt, e),
    )
    push_new_unit_at-Served group (unwound, r) v w =
        >>=-Gives (Now mine' ours p) (Served mine ours b) (drop_unit_at p r) _ (drop_new r w.1)
          λ r' g. (w.0, mine', mine'-mono, g.agreed, IsUsable-weaken group v)

    pub allocate_in_new_unit_at-Served :
        (group : Group) (r : Run)
        → IsUsable mine group
        → Now mine ours p r
        → Gives (Served mine ours b) (allocate_in_new_unit_at b (some p) group r)
    unfolding allocate_in_new_unit_at new_unit_at
    allocate_in_new_unit_at-Served group r v g =
        >>=-Gives (TriedWell mine' ours b p ⊥ p) (Served mine ours b)
          (allocate_and_initialize_at b p _) (push_new_unit_at b group p)
          (first_attempt-TriedWell mine' ours p b _ mine'-Covers not_ours (record {
            agreed =
                clear_flags-Agreed ours slot_count_per_unit 0 p mine r.flags
                  (λ j le lt. (g.also j (omega arith), not_ours j (omega arith))) g.agreed;
            allowed = g.allowed;
            also = rw (clear_flags-others slot_count_per_unit 0 p r.flags) g.also;
          }))
          λ t w. push_new_unit_at-Served group t v w
