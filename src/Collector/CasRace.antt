-- ===== src/Collector/CasRace.antt =====
-- `raw_compare_and_set` of src/atomic_sdarc.rs against the collector: between its exchange and its
-- increment, the pointer that it has set is not paid for.
use sdarc.Prelude.{ℕ, ◌+◌, ◌<◌, ◌≡◌, ap, ◌∙◌, arith, false, [], ◌∷◌, some}
use mathlib.Core.Path.{ap₂}
use sdarc.Prelude.Int.{pos}
use sdarc.Outcome.{done}
use sdarc.Object.{
  Object, Config, cas_set, swap_out, drop, outside, hz_ptr_slot_count, is_live, apply, apply_all,
}
use sdarc.Object.Accounts.{Accounted, apply-Accounted}
use sdarc.Collector.{default_state, ready_to_free, hazards, inspect_times}
use sdarc.Collector.Schedule.{IsBalanced}
use sdarc.Collector.Quiet.{quiet, IsUnused}
use sdarc.Collector.Progress.{unused_is_freed}

-- One thread owns the object and nobody else refers to it.
pub record IsSoleOwned (c : Config) (o : Object) : Type 0 where
  pub balanced : IsBalanced c o
  pub owned : o.owners ≡ 1
  pub not_stored : o.stored ≡ 0
  pub no_upgrade : is_live o.weak ≡ false
  pub section : (t : ℕ) → t < c.readers → (o.reader t).section ≡ outside
  pub slot :
      (t s : ℕ) → t < c.readers → s < hz_ptr_slot_count → hazards ((o.reader t).slot s) ≡ false

-- What the exchange of one thread, and the swap and the drop of another, come to.
abbrev pub raced : Config → ℕ → Object → Object
raced c j o = apply_all c (cas_set ∷ swap_out ∷ drop j ∷ []) o

module _ (c : Config) where
  raced-Accounted : (j : ℕ) (o : Object) → Accounted c.shards o → Accounted c.shards (raced c j o)
  unfolding apply_all
  raced-Accounted j o a =
      apply-Accounted c (drop j) _ (apply-Accounted c swap_out _ (apply-Accounted c cas_set o a))

  raced_references :
      (j : ℕ) (o : Object)
      → j < c.shards
      → IsSoleOwned c o
      → ((raced c j o).owners ≡ 0)
        × ((raced c j o).stored ≡ 0)
        × ((raced c j o).pinned ≡ 1)
        × ((raced c j o).weak ≡ o.weak)
        × ((raced c j o).reader ≡ o.reader)
  unfolding apply_all apply
  raced_references j o lt v =
      let pinned : o.pinned ≡ 0 = v.balanced.none_pinned.none_pinned in
      let owned = v.owned in
      let not_stored = v.not_stored in
      (ground arith, ground arith, ground arith, ground arith, ground arith)

  raced-IsUnused : (j : ℕ) (o : Object) → j < c.shards → IsSoleOwned c o → IsUnused c (raced c j o)
  raced-IsUnused j o lt v =
      let (no_owner, no_stored, _, _, reader) = raced_references j o lt v in
      record {
        zero_sum = raced-Accounted j o v.balanced.accounted ∙ ap pos (ap₂ ◌+◌ no_owner no_stored);
        section = rw reader v.section;
        slot = rw reader v.slot;
      }

  -- Take an object that one thread owns alone. If that thread sets an atomic pointer to it by a
  -- `raw_compare_and_set`, and before its increment another thread swaps the pointer out and drops
  -- it at some shard, and then nobody acts for two inner iterations, the object is ready to free,
  -- although the first thread still has the `Sdarc` that it set.
  pub cas_set_race :
      (j : ℕ) (o : Object)
      → j < c.shards
      → IsSoleOwned c o
      → (o' : Object) × (inspect_times c 2 default_state (quiet (raced c j o))
          ≡ some (done (ready_to_free, quiet o')))
        × (o'.pinned ≡ 1)
  cas_set_race j o lt v =
      let (_, _, pinned, weak, _) = raced_references j o lt v in
      let (o', same, _, gone, _) = unused_is_freed c (raced c j o) (raced-IsUnused j o lt v) in
      (o', gone (ap is_live weak ∙ v.no_upgrade), same ∙ pinned)
