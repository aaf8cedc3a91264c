-- ===== src/ShardedAlloc/Concurrent/Exclusive.antt =====
-- A pointer that `AllocUnitGroup::allocate` of src/sharded_alloc.rs gives is nobody else's, whatever
-- the other threads do to the usage flags.
use sdarc.Prelude.{
  ℕ, zero, suc, ◌+◌, ◌<◌, ◌≡◌, refl, ap, inl, inr, Bool, false, ==_iff, List, [], ◌∷◌, Option, none,
  some, arith, length, get_elem?,
}
use mathlib.Core.Path.{subst}
use sdarc.Outcome.{Outcome, done, Gives-done}
use sdarc.ShardedAlloc.{slot_count_per_unit, swap_remove_first}
use sdarc.ShardedAlloc.Groups.{AllBelow, swap_remove_first_below, length-swap_remove_first}
use sdarc.ShardedAlloc.Concurrent.{Run, Group}
use sdarc.ShardedAlloc.Concurrent.Agreed.{Agreed, Allows, Apart}
use sdarc.ShardedAlloc.Concurrent.Kept.{In}
use sdarc.ShardedAlloc.Concurrent.Allocation.{
  Tried, full, allocated, unwound, allocate_and_initialize_at, allocate_in_new_unit_at,
  turn_ends_at, turn_at, allocate_at,
}
use sdarc.ShardedAlloc.Concurrent.Taken.{plus}
use sdarc.ShardedAlloc.Concurrent.Attempts.{Now, TriedWell, attempt-TriedWell}
use sdarc.ShardedAlloc.Concurrent.NewUnit.{IsUsable, Served, own, allocate_in_new_unit_at-Served}

unit_at :
    (units : List ℕ) (i : ℕ)
    → i < length units
    → (d : ℕ) × (get_elem? units i ≡ some d) × In d units
unit_at [] i lt = absurd (omega arith)
unit_at (d ∷ units) zero lt = (d, refl, inl refl)
unit_at (d ∷ units) (suc i) lt =
    let (e, found, m) = unit_at units i (omega arith) in (e, found, inr m)

module _ (mine ours : ℕ → Bool) (b : Bool) (p : ℕ)
    (not_ours : (j : ℕ) → j < slot_count_per_unit → ours (p + j) ≡ false) where
  abbrev Good : Option (Outcome (Option ℕ × Group × Run)) → Type 0
  Good m = (x : Option ℕ × Group × Run) × (m ≡ some (done x)) × Served mine ours b x

  turn_ends_at-Good :
      (loop : Group → Run → Option (Outcome (Option ℕ × Group × Run))) (group : Group) (i : ℕ)
      (rest : List ℕ) (d : ℕ) (t : Tried × Run)
      → IsUsable mine group
      → In d group.all_units
      → ((r : Run)
          → Now mine ours p r
          → Good (loop (record group { indexes = swap_remove_first i rest }) r))
      → TriedWell mine ours b p Unit d t
      → Good (turn_ends_at b loop group i rest t)
  unfolding turn_ends_at
  turn_ends_at-Good loop group i rest d (full, r) v m later w = later r w.1
  turn_ends_at-Good loop group i rest d (allocated a, r) v m later w = (
    (some a, group, r),
    refl,
    (
      w.0,
      mine,
      λ c h. h,
      w.2.agreed,
      v,
      w.1,
      own mine (plus a ours) a r.flags (ground (arith, ==_iff a a)) w.2.agreed,
      let (j, lt, e) = w.3 in (d, j, m, lt, e),
    ),
  )
  turn_ends_at-Good loop group i rest d (unwound, r) v m later w =
      ((none, group, r), refl, (w.0, mine, λ c h. h, w.1.agreed, v))

  turn_at-ends :
      (loop : Group → Run → Option (Outcome (Option ℕ × Group × Run))) (group : Group) (i : ℕ)
      (rest : List ℕ) (d : ℕ) (r : Run) (t : Tried × Run) {x : Option ℕ × Group × Run}
      → get_elem? group.all_units i ≡ some d
      → allocate_and_initialize_at b d r ≡ done t
      → turn_ends_at b loop group i rest t ≡ some (done x)
      → turn_at b loop (some p) group (i ∷ rest) r ≡ some (done x)
  unfolding turn_at
  turn_at-ends loop group i rest d r t found ends out = rw (found, turn_at, ends) out

  turn_at-Good :
      (loop : Group → Run → Option (Outcome (Option ℕ × Group × Run))) (group : Group)
      (indexes : List ℕ) (r : Run)
      → group.indexes ≡ indexes
      → IsUsable mine group
      → Now mine ours p r
      → ((group' : Group) (r' : Run)
          → IsUsable mine group'
          → Now mine ours p r'
          → suc (length group'.indexes) ≡ length indexes
          → Good (loop group' r'))
      → Good (turn_at b loop (some p) group indexes r)
  unfolding turn_at
  turn_at-Good loop group [] r e v g later =
      let (x, ends, w) =
        Gives-done (Served mine ours b) (allocate_in_new_unit_at b (some p) group r)
          (allocate_in_new_unit_at-Served mine ours b p not_ours group r v g) in
      (x, ap some ends, w)
  turn_at-Good loop group (i ∷ rest) r e v g later =
      let valid : AllBelow (length group.all_units) (i ∷ rest) =
        subst (AllBelow (length group.all_units)) e v.indexes_valid in
      let (d, found, m) = unit_at group.all_units i valid.0 in
      let (t, ends, w) =
        Gives-done (TriedWell mine ours b p Unit d) (allocate_and_initialize_at b d r)
          (attempt-TriedWell mine ours p b d r (v.covered d m) g) in
      let (x, out, served) =
        turn_ends_at-Good loop group i rest d t v m
          (λ r' g'.
            later _ r'
              (record {
                covered = v.covered;
                indexes_valid = swap_remove_first_below _ i rest valid.1;
              })
              g' (ap suc (length-swap_remove_first i rest)))
          w in
      (x, turn_at-ends loop group i rest d r t found ends out, served)

  allocate_at-Good :
      (fuel : ℕ) (group : Group) (r : Run)
      → length group.indexes < fuel
      → IsUsable mine group
      → Now mine ours p r
      → Good (allocate_at b fuel (some p) group r)
  unfolding allocate_at
  allocate_at-Good zero group r lt v g = absurd (omega arith)
  allocate_at-Good (suc fuel) group r lt v g =
      turn_at-Good (allocate_at b fuel (some p)) group group.indexes r refl v g
        λ group' r' v' g' shorter. allocate_at-Good fuel group' r' (omega arith) v' g'

-- `allocate` of a group that can be used, with more fuel than indexes to check, whatever slots the
-- other threads take and release at any moment, but for those of the new unit: it ends and does not
-- panic by itself. It gives a pointer exactly when `init_func` does not panic: to a slot of a unit
-- of the group, which this thread did not have before and no other thread has from then on. The
-- group can be used again, and no slot has two pointers.
pub allocate_at-Served :
    (mine ours : ℕ → Bool) (init_panics : Bool) (new_ptr fuel : ℕ) (group : Group) (r : Run)
    → length group.indexes < fuel
    → IsUsable mine group
    → Agreed mine ours r.flags
    → Allows (Apart new_ptr) r.future
    → ((j : ℕ)
        → j < slot_count_per_unit
        → (r.flags.others (new_ptr + j) ≡ 0) × (ours (new_ptr + j) ≡ false))
    → (x : Option ℕ × Group × Run) × (allocate_at init_panics fuel (some new_ptr) group r
        ≡ some (done x))
      × Served mine ours init_panics x
allocate_at-Served mine ours init_panics new_ptr fuel group r lt v agreed allowed unheld =
    allocate_at-Good mine ours init_panics new_ptr (λ j below. (unheld j below).1) fuel group r lt v
      (record { agreed = agreed; allowed = allowed; also = λ j below. (unheld j below).0 })
