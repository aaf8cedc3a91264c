-- ===== src/ShardedAlloc/Report.antt =====
-- The collector's maintenance of all groups of src/sharded_alloc.rs, and the report of their slots,
-- against the number of slots that are used.
use sdarc.Prelude.{ℕ, zero, suc, ◌+◌, ◌*◌, ◌≡◌, refl, false, List, [], ◌∷◌, arith, length}
use sdarc.Outcome.{done}
use sdarc.ShardedAlloc.{AllocUnit, AllocUnitGroup, slot_count_per_unit}
use sdarc.ShardedAlloc.Usage.{count_flags-both}
use sdarc.ShardedAlloc.Groups.{AllUnits, used_slots, group_of}
use sdarc.ShardedAlloc.Maintenance.{
  sum_of_unused, maintain_shards, do_maintenance_by_collector, FullShardAlloc, totals,
  get_status_report, count_unused_slot_count_and_all_slot_count,
}
use sdarc.ShardedAlloc.Maintained.{
  used_units, free_indexes, used_units-used_slots, do_maintenance-eq,
}

abbrev pub AllGroups : List AllocUnitGroup → Type 0
AllGroups [] = Unit
AllGroups (group ∷ groups) = AllUnits group.all_units × AllGroups groups

unfoldable pub total_used : List AllocUnitGroup → ℕ
total_used [] = 0
total_used (group ∷ groups) = used_slots group.all_units + total_used groups

-- A group after its maintenance
abbrev pub maintained : AllocUnitGroup → AllocUnitGroup
maintained group =
    group_of (used_units group.all_units) (free_indexes 0 (used_units group.all_units))

abbrev pub all_maintained : List AllocUnitGroup → List AllocUnitGroup
all_maintained [] = []
all_maintained (group ∷ groups) = maintained group ∷ all_maintained groups

total_used-maintained :
    (groups : List AllocUnitGroup) → total_used (all_maintained groups) ≡ total_used groups
unfolding total_used
total_used-maintained [] = refl
total_used-maintained (group ∷ groups) =
    omega (arith, used_units-used_slots group.all_units, total_used-maintained groups)

-- `meanwhile` and how many more slots it uses
module _ (meanwhile : ℕ → AllocUnitGroup → AllocUnitGroup) (taken : ℕ → ℕ) where
  -- What allocating threads do to the group that a shard lends them.
  pub record Lends : Type 0 where
    pub keeps_valid :
        (k : ℕ) (group : AllocUnitGroup)
        → AllUnits group.all_units
        → AllUnits (meanwhile k group).all_units
    pub takes :
        (k : ℕ) (group : AllocUnitGroup)
        → AllUnits group.all_units
        → used_slots (meanwhile k group).all_units ≡ used_slots group.all_units + taken k

  unfoldable pub all_taken : ℕ → ℕ → ℕ
  all_taken zero k = 0
  all_taken (suc rest) k = taken k + all_taken rest (suc k)

  maintain_shards-eq :
      (k : ℕ) (groups : List AllocUnitGroup) (filling : AllocUnitGroup)
      → Lends
      → AllGroups groups
      → AllUnits filling.all_units
      → (filling' : AllocUnitGroup) × (maintain_shards meanwhile k groups filling
          ≡ done (all_maintained groups, filling'))
        × AllUnits filling'.all_units
        × (used_slots filling'.all_units
            ≡ used_slots filling.all_units + all_taken (length groups) k)
  unfolding maintain_shards all_taken
  maintain_shards-eq k [] filling lends v w = (filling, refl, w, omega arith)
  maintain_shards-eq k (group ∷ groups) filling lends v w =
      let (filling', e, w', used) =
        maintain_shards-eq (suc k) groups (meanwhile k filling) lends v.1
          (lends.keeps_valid k filling w) in
      (
        filling',
        rw ((do_maintenance-eq group v.0).0, e) refl,
        w',
        omega (arith, used, lends.takes k filling w),
      )

  -- When all units are valid and the threads that allocate meanwhile keep them so, the maintenance
  -- by the collector does not panic, each shard gets its own group back, maintained, and the used
  -- slots of all groups and the spare one are those from before and those taken meanwhile.
  pub do_maintenance_by_collector-used :
      (full : FullShardAlloc)
      → Lends
      → AllGroups full.groups
      → AllUnits full.temp_filling_group.all_units
      → (full' : FullShardAlloc) × (do_maintenance_by_collector meanwhile false full ≡ done full')
        × (full'.groups ≡ all_maintained full.groups)
        × (total_used full'.groups + used_slots full'.temp_filling_group.all_units
            ≡ total_used full.groups
              + used_slots full.temp_filling_group.all_units
              + all_taken (length full.groups) 0)
  unfolding do_maintenance_by_collector
  do_maintenance_by_collector-used full lends v w =
      let (filling, e, w', used) =
        maintain_shards-eq 0 full.groups full.temp_filling_group lends v w in
      (
        record { groups = all_maintained full.groups; temp_filling_group = maintained filling },
        rw (e, (do_maintenance-eq filling w').0) refl,
        refl,
        omega (
          arith,
          used,
          total_used-maintained full.groups,
          used_units-used_slots filling.all_units,
        ),
      )

sum_of_unused-used :
    (units : List AllocUnit)
    → AllUnits units
    → sum_of_unused units + used_slots units ≡ length units * slot_count_per_unit
unfolding sum_of_unused used_slots
sum_of_unused-used [] v = refl
sum_of_unused-used (unit ∷ units) v = omega (
  arith,
  count_flags-both unit.usage_flags v.0.flags_valid,
  v.0.flag_count,
  sum_of_unused-used units v.1,
)

totals-used :
    (groups : List AllocUnitGroup)
    → AllGroups groups
    → let (unused, all) = totals groups in unused + total_used groups ≡ all
unfolding totals total_used count_unused_slot_count_and_all_slot_count
totals-used [] v = refl
totals-used (group ∷ groups) v =
    omega (arith, sum_of_unused-used group.all_units v.0, totals-used groups v.1)

-- When all units are valid, the report's number of used slots, a difference that does not go below
-- zero, is the number of set flags in all groups and the spare one.
pub get_status_report-used :
    (full : FullShardAlloc)
    → AllGroups full.groups
    → AllUnits full.temp_filling_group.all_units
    → (get_status_report full).total_used_slot_count
      ≡ total_used full.groups + used_slots full.temp_filling_group.all_units
unfolding get_status_report count_unused_slot_count_and_all_slot_count
get_status_report-used full v w =
    let groups = totals-used full.groups v in
    let filling = sum_of_unused-used full.temp_filling_group.all_units w in omega arith
