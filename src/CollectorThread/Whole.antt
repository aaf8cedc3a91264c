-- ===== src/CollectorThread/Whole.antt =====
-- What is true between the parts of an outer iteration of src/collector.rs, and that the maintenance
-- of the allocator keeps it.
use sdarc.Prelude.{ℕ, suc, ◌≡◌, refl, Bool, true, false, List, [], ◌∷◌}
use sdarc.Outcome.{done}
use sdarc.BTree.Laws.{Ascending}
use sdarc.ShardedAlloc.{AllocUnitGroup}
use sdarc.ShardedAlloc.Groups.{IsValidGroup}
use sdarc.ShardedAlloc.Maintenance.{
  FullShardAlloc, do_maintenance, maintain_shards, do_maintenance_by_collector,
}
use sdarc.ShardedAlloc.Maintained.{do_maintenance-eq}
use sdarc.Tracker.Heap.{Heap, Layout}
use sdarc.Tracker.Whole.Frees.{IsSound}
use sdarc.Tracker.Whole.New.{IsNew, all_pending}
use sdarc.CollectorThread.{Collected, Stage, re_checking}

abbrev pub AllGroups : List AllocUnitGroup → Type 0
AllGroups [] = Unit
AllGroups (group ∷ groups) = IsValidGroup group × AllGroups groups

pub record IsValidAlloc (full : FullShardAlloc) : Type 0 where
  pub groups_valid : AllGroups full.groups
  pub filling_valid : IsValidGroup full.temp_filling_group

module _ (meanwhile : ℕ → AllocUnitGroup → AllocUnitGroup)
    (allocates : (k : ℕ) (group : AllocUnitGroup)
      → IsValidGroup group
      → IsValidGroup (meanwhile k group)) where
  maintained :
      (group : AllocUnitGroup)
      → IsValidGroup group
      → (group' : AllocUnitGroup) × (do_maintenance group ≡ done group') × IsValidGroup group'
  maintained group v = let (e, valid, _) = do_maintenance-eq group v.units_valid in (_, e, valid)

  maintain_shards-valid :
      (k : ℕ) (groups : List AllocUnitGroup) (filling : AllocUnitGroup)
      → AllGroups groups
      → IsValidGroup filling
      → (groups' : List AllocUnitGroup) × (filling' : AllocUnitGroup) × (maintain_shards meanwhile k
            groups filling
          ≡ done (groups', filling'))
        × AllGroups groups'
        × IsValidGroup filling'
  unfolding maintain_shards
  maintain_shards-valid k [] filling v f = ([], filling, refl, tt, f)
  maintain_shards-valid k (group ∷ groups) filling v f =
      let (group', first, valid) = maintained group v.0 in
      let (groups', filling', rest, valids, f') =
        maintain_shards-valid (suc k) groups (meanwhile k filling) v.1 (allocates k filling f) in
      (group' ∷ groups', filling', rw (first, rest) refl, (valid, valids), f')

  pub do_maintenance_by_collector-IsValidAlloc :
      (disabled : Bool) (full : FullShardAlloc)
      → IsValidAlloc full
      → (full' : FullShardAlloc) × (do_maintenance_by_collector meanwhile disabled full
          ≡ done full')
        × IsValidAlloc full'
  unfolding do_maintenance_by_collector
  do_maintenance_by_collector-IsValidAlloc true full v = (full, refl, v)
  do_maintenance_by_collector-IsValidAlloc false full v =
      let (groups', filling', e, valids, f) =
        maintain_shards-valid 0 full.groups full.temp_filling_group v.groups_valid
          v.filling_valid in
      let (filling'', last, f') = maintained filling' f in
      (_, rw (e, last) refl, record { groups_valid = valids; filling_valid = f' })

-- What is to be re-checked is a set.
abbrev pub IsStaged : Stage → Type 0
IsStaged (re_checking turns to_re_check) = Ascending 0 to_re_check
IsStaged _ = Unit

-- The tracked counters' states are true, what was freed was out of everybody's reach, the pending
-- counters are new, and the allocator's groups are well formed.
pub record IsWhole (layout : Layout) (s : Collected Heap) : Type 0 where
  pub sound : IsSound layout s.thread_state
  pub new :
      IsNew layout
        (s.thread_state).world
        (s.thread_state).tracked_counters
        (all_pending s.pending_to_track)
  pub alloc : IsValidAlloc s.full_shard_alloc
  pub staged : IsStaged s.stage
