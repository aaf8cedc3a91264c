-- ===== src/ShardedAlloc/Maintenance.antt =====
-- src/sharded_alloc.rs: the collector's maintenance of the groups, and the report of their slots.
use sdarc.Prelude.{
  ℕ, suc, ◌+◌, ◌-◌, ◌*◌, Bool, true, false, List, [], ◌∷◌, if◌then◌else◌, length, map,
}
use sdarc.Outcome.{Outcome, done, ◌>>=◌}
use sdarc.ShardedAlloc.{
  AllocUnit, AllocUnitGroup, is_any_slot_used, has_any_free_slot, get_unused_slot_count,
  slot_count_per_unit, drop_unit,
}

-- `retain_mut(|unit| unit.is_any_slot_used())`, which drops the others
unfoldable pub retain_used : List AllocUnit → Outcome (List AllocUnit)
retain_used [] = done []
retain_used (unit ∷ units) = is_any_slot_used unit >>= λ used.
    (if used then done tt else drop_unit unit) >>= λ _.
    retain_used units >>= λ kept. done (if used then unit ∷ kept else kept)

-- The loop that lists the units with a free slot, from index `i` on
unfoldable pub indexes_from : ℕ → List AllocUnit → Outcome (List ℕ)
indexes_from i [] = done []
indexes_from i (unit ∷ units) = has_any_free_slot unit >>= λ free.
    indexes_from (suc i) units >>= λ indexes. done (if free then i ∷ indexes else indexes)

unfoldable pub do_maintenance : AllocUnitGroup → Outcome AllocUnitGroup
do_maintenance group = retain_used group.all_units >>= λ units. indexes_from 0 units >>= λ indexes.
    done (record { all_units = units; indexes_of_units_to_check_for_allocation = indexes })

unfoldable pub sum_of_unused : List AllocUnit → ℕ
sum_of_unused [] = 0
sum_of_unused (unit ∷ units) = get_unused_slot_count unit + sum_of_unused units

unfoldable pub count_unused_slot_count_and_all_slot_count : AllocUnitGroup → ℕ × ℕ
count_unused_slot_count_and_all_slot_count group =
    (sum_of_unused group.all_units, length group.all_units * slot_count_per_unit)

pub record FullShardAlloc : Type 0 where
  pub groups : List AllocUnitGroup
  pub temp_filling_group : AllocUnitGroup

-- `FullShardAlloc::initialize`
abbrev pub empty_group : AllocUnitGroup
empty_group = record { all_units = []; indexes_of_units_to_check_for_allocation = [] }

-- The loop of `do_maintenance_by_collector` over the shards. Shard `k` has the filling group while
-- its own group is maintained, and `meanwhile k` is what allocating threads do to it then.
module _ (meanwhile : ℕ → AllocUnitGroup → AllocUnitGroup) where
  unfoldable pub maintain_shards :
      ℕ → List AllocUnitGroup → AllocUnitGroup → Outcome (List AllocUnitGroup × AllocUnitGroup)
  maintain_shards k [] filling = done ([], filling)
  maintain_shards k (group ∷ groups) filling = do_maintenance group >>= λ maintained.
      maintain_shards (suc k) groups (meanwhile k filling) >>= λ r. done (maintained ∷ r.0, r.1)

  unfoldable pub do_maintenance_by_collector : Bool → FullShardAlloc → Outcome FullShardAlloc
  do_maintenance_by_collector true full = done full
  do_maintenance_by_collector false full =
      maintain_shards 0 full.groups full.temp_filling_group >>= λ r.
      do_maintenance r.1 >>= λ filling. done (record { groups = r.0; temp_filling_group = filling })

pub record PerGroupStatusReport : Type 0 where
  pub unused_slot_count : ℕ
  pub all_slot_count : ℕ

-- `fragment_rate`, a float, is left out.
pub record ShardedAllocStatusReport : Type 0 where
  pub per_shard : List PerGroupStatusReport
  pub filling_group : PerGroupStatusReport
  pub total_used_slot_count : ℕ

abbrev pub group_report : AllocUnitGroup → PerGroupStatusReport
group_report group =
    let (unused, all) = count_unused_slot_count_and_all_slot_count group in
    record { unused_slot_count = unused; all_slot_count = all }

-- `+=` over the guards
unfoldable pub totals : List AllocUnitGroup → ℕ × ℕ
totals [] = (0, 0)
totals (group ∷ groups) =
    let (unused, all) = count_unused_slot_count_and_all_slot_count group in
    let (total_unused, total_slots) = totals groups in (unused + total_unused, all + total_slots)

unfoldable pub get_status_report : FullShardAlloc → ShardedAllocStatusReport
get_status_report full =
    let (total_unused, total_slots) = totals full.groups in
    let (filling_unused, filling_all) =
      count_unused_slot_count_and_all_slot_count full.temp_filling_group in
    record {
      per_shard = map group_report full.groups;
      filling_group = group_report full.temp_filling_group;
      total_used_slot_count = (total_slots + filling_all) - (total_unused + filling_unused);
    }
