-- ===== src/Object.antt =====
-- src/sdarc.rs, src/weak_sdarc.rs, src/atomic_sdarc.rs: one `SdarcInner`, seen by everybody that
-- can touch it. Each atomic access is one `Action`; the threads' actions interleave in any order.
-- "The object" below is that `SdarcInner`.
pub mod Totals
pub mod Accounts
pub mod Quiet
use sdarc.Prelude.{
  ℕ, suc, ◌+◌, ◌-◌, Bool, true, false, ◌&&◌, ◌||◌, not, List, [], ◌∷◌, ltb, ◌==◌, if◌then◌else◌,
}
use sdarc.Cell
use sdarc.Cell.{Cell}

-- `weak_inner_ref` with the `back_ref` behind it: not initialised, not null, null.
pub data Weak : Type 0 where
  absent live cleared : Weak

-- Where a thread stands in `load_atomic_ptr_owned`: outside its critical section, in it before
-- the load, after a load of the object that is not counted yet, or about to leave.
pub data Section : Type 0 where
  outside entered loaded passed : Section

-- A hazard pointer slot: null, another pointer, the object before the re-load, the object borrowed.
pub data Slot : Type 0 where
  empty foreign published borrowed : Slot

-- `PerThreadSharedHazardData` of one thread
pub record Reader : Type 0 where
  pub section : Section
  pub slot : ℕ → Slot

pub record Object : Type 0 where
  pub cell : ℕ → Cell  -- `SdarcInner::counters`
  pub owners : ℕ  -- `Sdarc`s of the object outside atomic pointers
  pub stored : ℕ  -- `AtomicNullableSdarc`s that point to the object
  pub pinned : ℕ  -- `Sdarc`s that a `raw_compare_and_set` has set and not yet counted
  pub weak : Weak
  pub reader : ℕ → Reader

-- How many counter shards there are, and how many entries `SHARED_HAZARD_DATA` has.
pub record Config : Type 0 where
  pub shards : ℕ
  pub readers : ℕ

abbrev pub hz_ptr_slot_count : ℕ
hz_ptr_slot_count = 15

-- A shard index is the shard current at that access; `t` is a thread, `s` one of its slots.
pub data Action : Type 0 where
  clone drop : (i : ℕ) → Action
  swap_in swap_out : Action
  cas_set : Action
  cas_count : (i : ℕ) → Action
  downgrade : Action
  enter load load_other leave : (t : ℕ) → Action
  count : (t i : ℕ) → Action
  publish publish_other confirm abandon unpublish : (t s : ℕ) → Action
  clone_borrowed : (t s i : ℕ) → Action

abbrev pub update {ℓ} : {A : Type ℓ} → (ℕ → A) → ℕ → A → ℕ → A
update f i a j = if i == j then a else f j

abbrev pub is_live : Weak → Bool
is_live live = true
is_live _ = false

abbrev pub section_is : Section → Section → Bool
section_is outside outside = true
section_is entered entered = true
section_is loaded loaded = true
section_is passed passed = true
section_is _ _ = false

abbrev pub slot_is : Slot → Slot → Bool
slot_is empty empty = true
slot_is foreign foreign = true
slot_is published published = true
slot_is borrowed borrowed = true
slot_is _ _ = false

-- An atomic pointer or a weak back reference has the object to load.
abbrev pub reachable : Object → Bool
reachable o = ltb 0 o.stored || is_live o.weak

-- `at_curr_shard().increment_ref_count_relaxed()`, and the decrement that sets the tag
abbrev pub incremented_at : ℕ → Object → ℕ → Cell
incremented_at i o = update o.cell i (Cell.increment (o.cell i))

abbrev pub decremented_at : ℕ → Object → ℕ → Cell
decremented_at i o = update o.cell i (Cell.decrement (o.cell i))

abbrev pub with_section : ℕ → Section → Object → ℕ → Reader
with_section t x o = update o.reader t (record { section = x; slot = (o.reader t).slot })

abbrev pub with_slot : ℕ → ℕ → Slot → Object → ℕ → Reader
with_slot t s x o =
    update o.reader t
      (record { section = (o.reader t).section; slot = update (o.reader t).slot s x })

module _ (c : Config) where
  -- A thread has a place in its slots.
  abbrev pub in_slot : ℕ → ℕ → Slot → Object → Bool
  in_slot t s x o = ltb t c.readers && ltb s hz_ptr_slot_count && slot_is ((o.reader t).slot s) x

  abbrev pub in_section : ℕ → Section → Object → Bool
  in_section t x o = ltb t c.readers && section_is (o.reader t).section x

  -- `Sdarc::clone`, from a live `Sdarc`
  unfoldable pub do_clone : ℕ → Object → Object
  do_clone i o =
      if ltb i c.shards && ltb 0 o.owners
      then record o { cell = incremented_at i o; owners = o.owners + 1 }
      else o

  -- `Drop for Sdarc`
  unfoldable pub do_drop : ℕ → Object → Object
  do_drop i o =
      if ltb i c.shards && ltb 0 o.owners
      then record o { cell = decremented_at i o; owners = o.owners - 1 }
      else o

  -- `AtomicNullableSdarc::swap` that puts the object in, by `into_raw_ptr`, or takes it out, by
  -- `from_raw_ptr`: the count moves with the pointer.
  unfoldable pub do_swap_in : Object → Object
  do_swap_in o =
      if ltb 0 o.owners then record o { owners = o.owners - 1; stored = o.stored + 1 } else o

  unfoldable pub do_swap_out : Object → Object
  do_swap_out o =
      if ltb 0 o.stored then record o { owners = o.owners + 1; stored = o.stored - 1 } else o

  -- `raw_compare_and_set`: the exchange succeeds while the caller still holds the `Sdarc` that it
  -- sets; the increment that pays for the pointer comes after it.
  unfoldable pub do_cas_set : Object → Object
  do_cas_set o =
      if ltb 0 o.owners
      then record o { owners = o.owners - 1; stored = o.stored + 1; pinned = o.pinned + 1 }
      else o

  unfoldable pub do_cas_count : ℕ → Object → Object
  do_cas_count i o =
      if ltb i c.shards && ltb 0 o.pinned
      then record o { cell = incremented_at i o; owners = o.owners + 1; pinned = o.pinned - 1 }
      else o

  -- `Sdarc::downgrade`: the first call initialises `weak_inner_ref`.
  unfoldable pub do_downgrade : Object → Object
  do_downgrade o =
      if ltb 0 o.owners
      then record o {
        weak = elim o.weak [ Weak.absent ↦ live | Weak.live ↦ live | Weak.cleared ↦ cleared ];
      }
      else o

  -- `reader_critical_section` and the body that `load_atomic_ptr_owned` runs in it
  unfoldable pub do_enter : ℕ → Object → Object
  do_enter t o =
      if in_section t outside o then record o { reader = with_section t entered o } else o

  unfoldable pub do_load : ℕ → Object → Object
  do_load t o =
      if in_section t entered o && reachable o
      then record o { reader = with_section t loaded o }
      else o

  unfoldable pub do_load_other : ℕ → Object → Object
  do_load_other t o =
      if in_section t entered o then record o { reader = with_section t passed o } else o

  unfoldable pub do_count : ℕ → ℕ → Object → Object
  do_count t i o =
      if ltb i c.shards && in_section t loaded o
      then record o {
        cell = incremented_at i o;
        owners = o.owners + 1;
        reader = with_section t passed o;
      }
      else o

  unfoldable pub do_leave : ℕ → Object → Object
  do_leave t o = if in_section t passed o then record o { reader = with_section t outside o } else o

  -- `try_publish_maybe_dangling_hazard_pointer`, of the object or of another pointer
  unfoldable pub do_publish : ℕ → ℕ → Slot → Object → Object
  do_publish t s x o = if in_slot t s empty o then record o { reader = with_slot t s x o } else o

  -- the re-load of `try_borrow_from_atomic_ptr_using_hazard_pointer`, when the pointers are equal
  unfoldable pub do_confirm : ℕ → ℕ → Object → Object
  do_confirm t s o =
      if in_slot t s published o && reachable o
      then record o { reader = with_slot t s borrowed o }
      else o

  -- the null that `PointerChanged` stores; another pointer's slot is cleared by it too
  unfoldable pub do_abandon : ℕ → ℕ → Object → Object
  do_abandon t s o =
      if in_slot t s published o || in_slot t s foreign o
      then record o { reader = with_slot t s empty o }
      else o

  -- `unpublish_hazard_pointer_on_borrow_finish`
  unfoldable pub do_unpublish : ℕ → ℕ → Object → Object
  do_unpublish t s o =
      if in_slot t s borrowed o then record o { reader = with_slot t s empty o } else o

  -- `Sdarc::clone` through an `AtomicSdarcBorrowGuard`, with no count behind it
  unfoldable pub do_clone_borrowed : ℕ → ℕ → ℕ → Object → Object
  do_clone_borrowed t s i o =
      if ltb i c.shards && in_slot t s borrowed o
      then record o { cell = incremented_at i o; owners = o.owners + 1 }
      else o

  -- One atomic access of one thread. Where it cannot happen it changes nothing.
  unfoldable pub apply : Action → Object → Object
  unfolding do_clone do_drop do_swap_in do_swap_out do_cas_set do_cas_count do_downgrade do_enter
      do_load do_load_other do_leave do_count do_publish do_confirm do_abandon do_unpublish
      do_clone_borrowed
  apply (clone i) o = do_clone i o
  apply (drop i) o = do_drop i o
  apply swap_in o = do_swap_in o
  apply swap_out o = do_swap_out o
  apply cas_set o = do_cas_set o
  apply (cas_count i) o = do_cas_count i o
  apply downgrade o = do_downgrade o
  apply (enter t) o = do_enter t o
  apply (load t) o = do_load t o
  apply (load_other t) o = do_load_other t o
  apply (leave t) o = do_leave t o
  apply (count t i) o = do_count t i o
  apply (publish t s) o = do_publish t s published o
  apply (publish_other t s) o = do_publish t s foreign o
  apply (confirm t s) o = do_confirm t s o
  apply (abandon t s) o = do_abandon t s o
  apply (unpublish t s) o = do_unpublish t s o
  apply (clone_borrowed t s i) o = do_clone_borrowed t s i o

  unfoldable pub apply_all : List Action → Object → Object
  unfolding apply
  apply_all [] o = o
  apply_all (a ∷ rest) o = apply_all rest (apply a o)
