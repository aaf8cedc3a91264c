-- ===== src/VTable.antt =====
-- src/sdarc.rs, the part that erases the type of a `SdarcInner`: the collector has its address and a
-- table of functions that were made for its type. Every cast back to a type is checked here: where
-- the memory has no `SdarcInner` of that type, the code panics, which stands for undefined behaviour.
pub mod Typed
pub mod Freed
pub mod Created
pub mod Sound
mod Tests
use sdarc.Prelude.{ℕ, ◌+◌, Bool, false, not, List, [], ◌∷◌, Option, none, some, ◌==◌, if◌then◌else◌}
use sdarc.Outcome.{Outcome, done, panic, ◌>>=◌}
use sdarc.Object.{update}
use sdarc.Collector.{
  ClearWeakBackRefResult, weak_ref_not_involved, weak_back_ref_cleared,
  weak_back_ref_was_already_null,
}
use sdarc.ShardedAlloc.{ShardedDataPtr}

-- What `T` may be in `Sdarc<T>`: one of the users' types, or `WeakSdarcInner<T>` of another.
pub data TypeName : Type 0 where
  content : ℕ → TypeName
  weak_sdarc_inner : TypeName → TypeName

abbrev pub same_type : TypeName → TypeName → Bool
same_type (content m) (content n) = m == n
same_type (content m) (weak_sdarc_inner u) = false
same_type (weak_sdarc_inner t) (content n) = false
same_type (weak_sdarc_inner t) (weak_sdarc_inner u) = same_type t u

-- The field `data`: of a user's type, or the `back_ref` of a `WeakSdarcInner`
pub data Value : Type 0 where
  opaque : ℕ → Value
  back_ref : ℕ → Value

-- A `SdarcInner<T>` in memory, with the `T` that it was written as
pub record TypedInner : Type 0 where
  pub type : TypeName
  pub counters : ShardedDataPtr
  pub weak_inner_ref : Option ℕ
  pub value : Value

-- The memory: the objects by address, and the words where their `counters` stand, each with the
-- address of its object. What is done to counters elsewhere is only listed.
pub record Boxes : Type 0 where
  pub place : ℕ → Option TypedInner
  pub field : ℕ → Option (ℕ × ShardedDataPtr)
  pub decrements : List ShardedDataPtr
  pub deallocated : List ShardedDataPtr

-- `SdarcInnerPtrErased::into_typed`, and the access through the pointer that it gives
unfoldable pub into_typed : TypeName → ℕ → Boxes → Outcome TypedInner
into_typed t ptr b = elim (b.place ptr) [
  | none ↦ panic
  | some inner ↦ if same_type inner.type t then done inner else panic
]

-- The field of a `WeakSdarcInner`
abbrev pub back_ref_of : Value → Outcome ℕ
back_ref_of (opaque n) = panic
back_ref_of (back_ref r) = done r

abbrev pub with_value : ℕ → TypedInner → Value → Boxes → Boxes
with_value ptr inner value b = record b {
  place = update b.place ptr (some (record inner { value = value }));
}

-- `clear_weak_backref_impl::<T>`
abbrev pub clear_through : TypeName → Option ℕ → Boxes → Outcome (ClearWeakBackRefResult × Boxes)
clear_through t none b = done (weak_ref_not_involved, b)
clear_through t (some w) b = into_typed (weak_sdarc_inner t) w b >>= λ weak.
    back_ref_of weak.value >>= λ old. done (
      if old == 0 then weak_back_ref_was_already_null else weak_back_ref_cleared,
      with_value w weak (back_ref 0) b,
    )

unfoldable pub clear_weak_backref_at :
    TypeName → ℕ → Boxes → Outcome (ClearWeakBackRefResult × Boxes)
clear_weak_backref_at t ptr b =
    into_typed t ptr b >>= λ inner. clear_through t inner.weak_inner_ref b

-- `offset_of!` is the compiler's. `user_drop_panics` says whether the users' `Drop` of a value of a
-- type panics; what it does before, as to create `Sdarc`s, is operations of its own, below.
module _ (offset_of : TypeName → ℕ) (user_drop_panics : ℕ → ℕ → Bool) where
  -- The drop of an `OnceLock<Sdarc<WeakSdarcInner<T>>>`
  unfoldable pub drop_weak_ref : TypeName → Option ℕ → Boxes → Outcome Boxes
  drop_weak_ref t none b = done b
  drop_weak_ref t (some w) b = into_typed (weak_sdarc_inner t) w b >>= λ weak.
      done (record b { decrements = weak.counters ∷ b.decrements })

  -- Does the drop of the field `data` unwind? It is the assertion in `Drop for WeakSdarcInner`, or the
  -- users' `Drop`.
  unfoldable pub drop_value : TypeName → Value → Outcome Bool
  drop_value (content n) (opaque m) = done (user_drop_panics n m)
  drop_value (content n) (back_ref r) = panic
  drop_value (weak_sdarc_inner t) value = back_ref_of value >>= λ r. done (not (r == 0))

  -- `drop_sdarc_inner_impl::<T>` up to the end of the drop of `data`, the last field: the fields are
  -- dropped in their order.
  unfoldable pub drop_fields_at : TypeName → ℕ → Boxes → Outcome (Bool × Boxes)
  drop_fields_at t ptr b = into_typed t ptr b >>= λ inner.
      drop_weak_ref t inner.weak_inner_ref
        (record b { deallocated = inner.counters ∷ b.deallocated })
      >>= λ b. drop_value t inner.value >>= λ unwinds. done (unwinds, b)

  -- The rest of it: the box is freed, also while a panic unwinds.
  abbrev pub deallocate_box : TypeName → ℕ → Boxes → Boxes
  deallocate_box t ptr b = record b {
    place = update b.place ptr none;
    field = update b.field (ptr + offset_of t) none;
  }

  -- `drop_sdarc_inner` is in two parts, since users' code runs in the first one.
  pub record SdarcVTable : Type 0 where
    pub offset_of_counter : ℕ
    pub clear_weak_backref : ℕ → Boxes → Outcome (ClearWeakBackRefResult × Boxes)
    pub drop_fields : ℕ → Boxes → Outcome (Bool × Boxes)
    pub deallocate : ℕ → Boxes → Boxes

  abbrev pub get_sdarc_vtable_ref : TypeName → SdarcVTable
  get_sdarc_vtable_ref t = record {
    offset_of_counter = offset_of t;
    clear_weak_backref = clear_weak_backref_at t;
    drop_fields = drop_fields_at t;
    deallocate = deallocate_box t;
  }

  pub record SdarcInnerFatPtr : Type 0 where
    pub ptr : ℕ
    pub vtable_ref : SdarcVTable

  -- `SdarcInnerFatPtr::new::<T>`
  abbrev pub new_fat_ptr : TypeName → ℕ → SdarcInnerFatPtr
  new_fat_ptr t ptr = record { ptr = ptr; vtable_ref = get_sdarc_vtable_ref t }

  unfoldable pub get_counters_ptr : SdarcInnerFatPtr → Boxes → Outcome ShardedDataPtr
  get_counters_ptr fat b = elim (b.field (fat.ptr + fat.vtable_ref.offset_of_counter)) [
    | none ↦ panic
    | some (owner, counters) ↦ done counters
  ]

  -- What the collector knows of each object, which has been made for its type once, and where its
  -- `free_pointers` stands
  pub record Erased : Type 0 where
    pub boxes : Boxes
    pub fats : ℕ → Option SdarcInnerFatPtr
    pub freeing : Option ℕ  -- the object that is in `free`
    pub errors : List ℕ  -- what `catch_unwind` has caught, by object

  -- `Sdarc::new` of a user's type and `Sdarc::downgrade`, which other threads and the users' `Drop`
  -- call, and the collector's calls through the table
  pub data Operation : Type 0 where
    creates : (name n ptr : ℕ) (counters : ShardedDataPtr) → Operation
    downgrades : (t : TypeName) (ptr w : ℕ) (counters : ShardedDataPtr) → Operation
    clears drops : (ptr : ℕ) → Operation
    deallocates : Operation

  -- `Box::leak(Box::new(...))` and `on_new_sdarc_allocated` of `Sdarc::new`
  abbrev pub put_inner : ℕ → TypedInner → Erased → Erased
  put_inner ptr inner s = record {
    boxes = record s.boxes {
      place = update s.boxes.place ptr (some inner);
      field = update s.boxes.field (ptr + offset_of inner.type) (some (ptr, inner.counters));
    };
    fats = update s.fats ptr (some (new_fat_ptr inner.type ptr));
    freeing = s.freeing;
    errors = s.errors;
  }

  abbrev pub link : ℕ → TypedInner → ℕ → Erased → Erased
  link ptr inner w s = record s {
    boxes = record s.boxes {
      place = update s.boxes.place ptr (some (record inner { weak_inner_ref = some w }));
    };
  }

  -- `get_or_init` of the `OnceLock`
  abbrev pub init_weak_ref : TypedInner → Option ℕ → ℕ → ℕ → ShardedDataPtr → Erased → Erased
  init_weak_ref inner (some old) ptr w counters s = s
  init_weak_ref inner none ptr w counters s = link ptr inner w (
      put_inner w
        (record {
          type = weak_sdarc_inner inner.type;
          counters = counters;
          weak_inner_ref = none;
          value = back_ref ptr;
        })
        s)

  unfoldable pub operate : Operation → Erased → Outcome Erased
  operate (creates name n ptr counters) s = done (
      put_inner ptr
        (record {
          type = content name;
          counters = counters;
          weak_inner_ref = none;
          value = opaque n;
        })
        s)
  operate (downgrades t ptr w counters) s = into_typed t ptr s.boxes >>= λ inner.
      done (init_weak_ref inner inner.weak_inner_ref ptr w counters s)
  operate (clears ptr) s = elim (s.fats ptr) [
    | none ↦ done s
    | some fat ↦
        fat.vtable_ref.clear_weak_backref fat.ptr s.boxes >>= λ r. done (record s { boxes = r.1 })
  ]
  operate (drops ptr) s = elim (s.fats ptr) [
    | none ↦ done s
    | some fat ↦ fat.vtable_ref.drop_fields fat.ptr s.boxes >>= λ r. done (record s {
      boxes = r.1;
      freeing = some ptr;
      errors = if r.0 then ptr ∷ s.errors else s.errors;
    })
  ]
  operate deallocates s = elim s.freeing [
    | none ↦ done s
    | some ptr ↦ elim (s.fats ptr) [
      | none ↦ done s
      | some fat ↦ done (record s {
        boxes = fat.vtable_ref.deallocate fat.ptr s.boxes;
        fats = update s.fats ptr none;
        freeing = none;
      })
    ]
  ]

  unfoldable pub operate_all : List Operation → Erased → Outcome Erased
  operate_all [] s = done s
  operate_all (x ∷ xs) s = operate x s >>= operate_all xs
