-- ===== src/CollectorThread/Sound.antt =====
-- The collector's thread of src/collector.rs together with the tracked objects and the sharded
-- allocator: what holds at every moment, whatever the other threads do.
use sdarc.Prelude.{
  ℕ, zero, suc, ◌<◌, ◌≡◌, ◌≢◌, refl, sym, ◌∙◌, ◌⊎◌, inl, inr, Bool, true, false, ◌||◌, not, List,
  [], ◌∷◌, Option, none, some, Bool-cases, ltb, length,
}
use mathlib.Core.Path.{subst}
use sdarc.Outcome.{Outcome, done, panic, Keeps, Gives, and_then-Keeps}
use sdarc.BTree.{get}
use sdarc.Object.{Action, Reader}
use sdarc.Collector.Schedule.{PlainFuture}
use sdarc.ShardedAlloc.{AllocUnitGroup}
use sdarc.ShardedAlloc.Groups.{IsValidGroup}
use sdarc.ShardedAlloc.Maintenance.{FullShardAlloc}
use sdarc.Tracker.{CollectorThreadState, update_all_tracked_counters, update_specific_counters}
use sdarc.Tracker.Heap.{Heap, Layout, heap_objects}
use sdarc.Tracker.Pending.{listed_in}
use sdarc.Tracker.Whole.New.{all_pending}
use sdarc.Tracker.Whole.Pending.{
  IsIterated, update_all_tracked_counters-IsIterated, update_specific_counters-IsIterated,
}
use sdarc.Tracker.Whole.Taken.{take_pending-IsNew}
use sdarc.CollectorThread.{
  Collected, Stage, taking, scanning, re_checking, maintaining, update_at, update_collected,
  after_scan_all, Phase, starting, updating, notifying, parked, stopped, CollectorThread, is_empty,
  after_update, collector_step, collector_step_in, Step, calls, changes, collects, step, steps,
  new_thread,
}
use sdarc.CollectorThread.Whole.{
  IsValidAlloc, IsWhole, IsStaged, do_maintenance_by_collector-IsValidAlloc,
}
use sdarc.CollectorThread.Allocated.{new_tracked_sdarc, new_tracked_sdarc-IsWhole}

-- `f` is a `Sdarc::new` in the state `s`, at a place that is neither tracked nor pending then, and
-- the others do to the object anything but the exchange of a `raw_compare_and_set`.
pub record IsNewSdarc (layout : Layout) (f : Collected Heap → Collected Heap) (s : Collected Heap)
    : Type 0 where
  pub i : ℕ
  pub j : ℕ
  pub fat_ptr : ℕ
  pub k : ℕ
  pub reader : ℕ → Reader
  pub future : List (List Action)
  pub shard : i < (layout.config).shards
  pub pending_shard : j < length s.pending_to_track
  pub inside : k < layout.limit
  pub own : layout.get_counters_ptr fat_ptr ≡ k
  pub untracked : get k (s.thread_state).tracked_counters ≡ none
  pub not_pending : listed_in k (all_pending s.pending_to_track) ≡ false
  pub plain : PlainFuture future
  pub result : new_tracked_sdarc i j fat_ptr k reader future s ≡ done (f s)

-- `f` changes the allocator alone, and leaves it well formed.
pub record IsAllocation (f : Collected Heap → Collected Heap) (s : Collected Heap) : Type 0 where
  pub full : FullShardAlloc
  pub valid : IsValidAlloc full
  pub result : f s ≡ record s { full_shard_alloc = full }

module _ (meanwhile : ℕ → AllocUnitGroup → AllocUnitGroup)
    (allocates : (k : ℕ) (group : AllocUnitGroup)
      → IsValidGroup group
      → IsValidGroup (meanwhile k group)) where
  module _ (layout : Layout) (disabled : Bool) where
    abbrev pub updates : Bool → Collected Heap → Option (Outcome (Bool × Collected Heap))
    updates = update_collected (heap_objects layout) meanwhile disabled

    abbrev IsUpdated : Bool × Collected Heap → Type 0
    IsUpdated r = IsWhole layout r.1

    after_scan_all-IsWhole :
        (deep : Bool) (s : Collected Heap) (r : List ℕ × CollectorThreadState Heap)
        → IsWhole layout s
        → IsIterated layout (all_pending s.pending_to_track) r
        → IsWhole layout (after_scan_all (heap_objects layout) meanwhile disabled deep s r)
    after_scan_all-IsWhole true s r v w = record {
      sound = w.1;
      new = w.2;
      alloc = v.alloc;
      staged = w.0;
    }
    after_scan_all-IsWhole false s r v w = record {
      sound = w.1;
      new = w.2;
      alloc = v.alloc;
      staged = tt;
    }

    at_stage-IsWhole :
        (stage : Stage) (s : Collected Heap)
        → IsStaged stage
        → IsWhole layout s
        → IsWhole layout (record s { stage = stage })
    at_stage-IsWhole stage s staged v = record {
      sound = v.sound;
      new = v.new;
      alloc = v.alloc;
      staged = staged;
    }

    -- Each part of an outer iteration
    update_at-IsWhole :
        (stage : Stage) (deep : Bool) (s : Collected Heap)
        → IsStaged stage
        → IsWhole layout s
        → Keeps IsUpdated (update_at (heap_objects layout) meanwhile disabled stage deep s)
    unfolding update_at
    update_at-IsWhole (taking k) deep s staged v =
        elim (Bool-cases (ltb k (length s.pending_to_track))) [
          | inr over ↦ rw over (at_stage-IsWhole scanning s tt v)
          | inl within ↦
              let (tracked, e, _, sound, new) =
                take_pending-IsNew layout k s.pending_to_track s.thread_state v.new v.sound in
              rw (within, e) (record { sound = sound; new = new; alloc = v.alloc; staged = tt })
        ]
    update_at-IsWhole scanning deep s staged v =
        and_then-Keeps (IsIterated layout (all_pending s.pending_to_track)) IsUpdated
          (update_all_tracked_counters (heap_objects layout) s.thread_state) _
          (update_all_tracked_counters-IsIterated layout _ s.thread_state v.new v.sound)
          (λ r w. after_scan_all-IsWhole deep s r v w)
    update_at-IsWhole (re_checking zero l) deep s staged v = at_stage-IsWhole maintaining s tt v
    update_at-IsWhole (re_checking (suc turns) []) deep s staged v =
        at_stage-IsWhole maintaining s tt v
    update_at-IsWhole (re_checking (suc turns) (p ∷ rest)) deep s staged v =
        and_then-Keeps (IsIterated layout (all_pending s.pending_to_track)) IsUpdated
          (update_specific_counters (heap_objects layout) (p ∷ rest) s.thread_state) _
          (update_specific_counters-IsIterated layout _ (p ∷ rest) s.thread_state staged v.new
            v.sound)
          (λ r w. record { sound = w.1; new = w.2; alloc = v.alloc; staged = w.0 })
    update_at-IsWhole maintaining deep s staged v =
        let (full, maintains, valid) =
          do_maintenance_by_collector-IsValidAlloc meanwhile allocates disabled s.full_shard_alloc
            v.alloc in
        rw maintains (record { sound = v.sound; new = v.new; alloc = valid; staged = tt })

    -- Each change is a `Sdarc::new` or a change of the allocator, in the state that there is then.
    abbrev pub Allowed : List (Step updates) → CollectorThread (Collected Heap) → Type 0
    Allowed [] t = Unit
    Allowed (changes f ∷ rest) t =
        (IsNewSdarc layout f t.state ⊎ IsAllocation f t.state)
        × Allowed rest (step updates (changes f) t)
    Allowed (calls n ∷ rest) t = Allowed rest (step updates (calls n) t)
    Allowed (collects timeout ∷ rest) t = Allowed rest (step updates (collects timeout) t)

    change-IsWhole :
        (f : Collected Heap → Collected Heap) (s : Collected Heap)
        → IsNewSdarc layout f s ⊎ IsAllocation f s
        → IsWhole layout s
        → IsWhole layout (f s)
    change-IsWhole f s (inl c) v =
        let (s', e, whole, _, _, _) =
          new_tracked_sdarc-IsWhole layout c.i c.j c.fat_ptr c.k c.reader c.future s c.shard
            c.pending_shard c.inside c.own c.untracked c.not_pending c.plain v in
        subst (Gives (IsWhole layout)) (sym e ∙ c.result) whole
    change-IsWhole f s (inr c) v =
        subst (IsWhole layout) (sym c.result)
          (record { sound = v.sound; new = v.new; alloc = c.valid; staged = v.staged })

    abbrev pub IsRunning : CollectorThread (Collected Heap) → Type 0
    IsRunning t = IsWhole layout t.state × (t.phase ≢ stopped)

    after_update-IsRunning :
        (l : List ℕ) (result : Option (Outcome (Bool × Collected Heap)))
        (t : CollectorThread (Collected Heap))
        → IsRunning t
        → Keeps IsUpdated result
        → IsRunning (after_update l result t)
    after_update-IsRunning l none t v keeps = v
    after_update-IsRunning l (some panic) t v keeps = absurd keeps
    after_update-IsRunning l (some (done (false, s))) t v keeps = (keeps, v.1)
    after_update-IsRunning l (some (done (true, s))) t v keeps = (keeps, λ e. cc)

    collector_step_in-IsRunning :
        (phase : Phase) (timeout : Bool) (t : CollectorThread (Collected Heap))
        → t.phase ≡ phase
        → IsRunning t
        → IsRunning (collector_step_in updates phase timeout t)
    unfolding collector_step_in update_collected
    collector_step_in-IsRunning starting timeout t e v = (v.0, λ h. cc)
    collector_step_in-IsRunning (updating l) timeout t e v =
        after_update-IsRunning l (updates (not (is_empty l)) t.state) t v
          (update_at-IsWhole (t.state).stage (not (is_empty l)) t.state (v.0).staged v.0)
    collector_step_in-IsRunning (notifying (n ∷ l)) timeout t e v = (v.0, λ h. cc)
    collector_step_in-IsRunning (notifying []) timeout t e v = (v.0, λ h. cc)
    collector_step_in-IsRunning parked timeout t e v = elim (Bool-cases (t.token || timeout)) [
      | inl wakes ↦ rw wakes (v.0, λ h. cc)
      | inr stays ↦ rw stays v
    ]
    collector_step_in-IsRunning stopped timeout t e v = v

    steps_keep :
        (acts : List (Step updates)) (t : CollectorThread (Collected Heap))
        → Allowed acts t
        → IsRunning t
        → IsRunning (steps updates acts t)
    unfolding steps step collector_step
    steps_keep [] t a v = v
    steps_keep (calls n ∷ rest) t a v = steps_keep rest _ a v
    steps_keep (changes f ∷ rest) t a v =
        steps_keep rest _ a.1 (change-IsWhole f t.state a.0 v.0, v.1)
    steps_keep (collects timeout ∷ rest) t a v =
        steps_keep rest _ a (collector_step_in-IsRunning t.phase timeout t refl v)

    -- Take a collector thread that starts on sound tracked counters, new pending counters and well
    -- formed allocator groups. In any order, also between the parts of an update, the thread takes
    -- its steps, other threads call for deep collections, create `Sdarc`s at places that are then
    -- neither tracked nor pending, and change the allocator to another well formed one; in `Heap`
    -- they do anything to the objects but the exchange of a `raw_compare_and_set`. At every moment
    -- the collector has not panicked, and each object that it has freed was one that nobody owned or
    -- could get any more.
    pub steps-IsRunning :
        (acts : List (Step updates)) (s : Collected Heap)
        → Allowed acts (new_thread s)
        → IsWhole layout s
        → IsRunning (steps updates acts (new_thread s))
    steps-IsRunning acts s a v = steps_keep acts (new_thread s) a (v, λ e. cc)
