-- ===== src/VTable/Created.antt =====
-- What the collector knows of objects in src/sdarc.rs, and that it stays right while `Sdarc`s are
-- created and downgraded.
use sdarc.Prelude.{
  ℕ, Bool, ◌+◌, ◌≡◌, ◌≢◌, refl, sym, ap, ◌∙◌, inl, inr, Bool-cases, List, [], ◌∷◌, Option, none,
  some, ◌==◌, ==_iff, arith,
}
use mathlib.Core.Path.{subst, subst₂}
use mathlib.Core.Option.{some-injective}
use sdarc.Outcome.{Returns}
use sdarc.Object.Totals.{update_self, update_ne}
use sdarc.ShardedAlloc.{ShardedDataPtr}
use sdarc.VTable.{
  TypeName, content, weak_sdarc_inner, back_ref, TypedInner, SdarcInnerFatPtr, new_fat_ptr, Erased,
  Operation, creates, downgrades, clears, drops, deallocates, put_inner, link, init_weak_ref,
  operate,
}
use sdarc.VTable.Typed.{type_at, IsGood, IsTyped, IsGood-keep, type_at-update, replaced-IsTyped}
use sdarc.VTable.Freed.{Unreferenced}

module _ (offset_of : TypeName → ℕ) (user_drop_panics : ℕ → ℕ → Bool) where
  abbrev pub State : Type 0
  State = Erased offset_of user_drop_panics

  -- Each fat pointer was made for the type of the object that it points to.
  abbrev pub AreMade : State → Type 0
  AreMade s =
      (p : ℕ) (f : SdarcInnerFatPtr offset_of user_drop_panics)
      → s.fats p ≡ some f
      → (t : TypeName) × (type_at s.boxes p ≡ some t)
        × (f ≡ new_fat_ptr offset_of user_drop_panics t p)

  abbrev pub IsErased : State → Type 0
  IsErased s = IsTyped offset_of s.boxes × AreMade s

  -- The global allocator gives memory where no object is; a `Sdarc` that is downgraded has its type;
  -- when the box of an object is freed, nothing leads to it.
  abbrev pub Allowed : Operation offset_of user_drop_panics → State → Type 0
  Allowed (creates name n ptr counters) s =
      (s.boxes.place ptr ≡ none) × (s.boxes.field (ptr + offset_of (content name)) ≡ none)
  Allowed (downgrades t ptr w counters) s =
      (type_at s.boxes ptr ≡ some t)
      × (ptr ≢ 0)
      × (s.boxes.place w ≡ none)
      × (s.boxes.field (w + offset_of (weak_sdarc_inner t)) ≡ none)
  Allowed (clears ptr) s = Unit
  Allowed (drops ptr) s = Unit
  Allowed deallocates s = (ptr : ℕ) → s.freeing ≡ some ptr → Unreferenced ptr s.boxes

  abbrev pub AllAllowed : List (Operation offset_of user_drop_panics) → State → Type 0
  AllAllowed [] s = Unit
  AllAllowed (x ∷ xs) s =
      Allowed x s × Returns (AllAllowed xs) (operate offset_of user_drop_panics x s)

  abbrev Put : ℕ → TypedInner → State → State
  Put ptr inner s = put_inner offset_of user_drop_panics ptr inner s

  -- A type stays where it is while something is put where nothing is.
  put_inner-type_at :
      (ptr : ℕ) (inner : TypedInner) (s : State) (q : ℕ) (t : TypeName)
      → s.boxes.place ptr ≡ none
      → type_at s.boxes q ≡ some t
      → type_at (Put ptr inner s).boxes q ≡ some t
  put_inner-type_at ptr inner s q t free h = elim (Bool-cases (ptr == q)) [
    | inl here ↦
        let e : ptr ≡ q = (==_iff ptr q).0 here in
        let nothing : s.boxes.place q ≡ none = rw (← e) free in cc (rw nothing at h)
    | inr there ↦ rw there h
  ]

  pub put_inner-IsErased :
      (ptr : ℕ) (inner : TypedInner) (s : State)
      → s.boxes.place ptr ≡ none
      → s.boxes.field (ptr + offset_of inner.type) ≡ none
      → IsGood offset_of (Put ptr inner s).boxes ptr inner
      → IsErased s
      → IsErased (Put ptr inner s)
  put_inner-IsErased ptr inner s free unused good v = (
    λ p i e. elim (Bool-cases (ptr == p)) [
      | inl here ↦
          let there : ptr ≡ p = (==_iff ptr p).0 here in
          let it : inner ≡ i = some-injective _ _ (rw here at e) in
          subst₂ (IsGood offset_of (Put ptr inner s).boxes) there it good
      | inr there ↦
          IsGood-keep offset_of s.boxes _ p i
            (λ q t refers h. put_inner-type_at ptr inner s q t free h)
            (λ h. elim (Bool-cases (ptr + offset_of inner.type == p + offset_of i.type)) [
              | inl hit ↦
                  let one : ptr + offset_of inner.type ≡ p + offset_of i.type =
                    (==_iff _ _).0 hit in
                  let nothing : s.boxes.field (p + offset_of i.type) ≡ none = rw (← one) unused in
                  cc
              | inr miss ↦ rw miss h
            ])
            (v.0 p i (rw there at e))
    ],
    λ p f e. elim (Bool-cases (ptr == p)) [
      | inl here ↦
          let there : ptr ≡ p = (==_iff ptr p).0 here in
          let made : new_fat_ptr offset_of user_drop_panics inner.type ptr ≡ f =
            some-injective _ _ (rw here at e) in
          (
            inner.type,
            rw here refl,
            sym made ∙ ap (new_fat_ptr offset_of user_drop_panics inner.type) there,
          )
      | inr there ↦
          let (t, at, made) = v.1 p f (rw there at e) in
          (t, put_inner-type_at ptr inner s p t free at, made)
    ],
  )

  -- A new `WeakSdarcInner` and the object that leads to it
  pub init_weak_ref-IsErased :
      (ptr w : ℕ) (inner : TypedInner) (counters : ShardedDataPtr) (s : State) (ref : Option ℕ)
      → inner.weak_inner_ref ≡ ref
      → s.boxes.place ptr ≡ some inner
      → s.boxes.place w ≡ none
      → s.boxes.field (w + offset_of (weak_sdarc_inner inner.type)) ≡ none
      → IsErased s
      → IsErased (init_weak_ref offset_of user_drop_panics inner ref ptr w counters s)
  init_weak_ref-IsErased ptr w inner counters s (some old) ref at free unused v = v
  init_weak_ref-IsErased ptr w inner counters s none ref at free unused v = (
    replaced-IsTyped offset_of added.boxes ptr inner linked kept refl
        (record {
          fits = good.fits;
          weak = λ q e.
              let same : w ≡ q = some-injective _ _ e in
              types q ∙ rw (← same) (rw (update_self s.boxes.place w (some new)) refl);
          back = λ r e ne. let (t, led, is) = good.back r e ne in (t, types r ∙ led, is);
          counted = good.counted;
        })
        put_in.0,
    λ p f e. let (t, held, made) = put_in.1 p f e in (t, types p ∙ held, made),
  )
    where
      new : TypedInner
      new = record {
        type = weak_sdarc_inner inner.type;
        counters = counters;
        weak_inner_ref = none;
        value = back_ref ptr;
      }

      added : State
      added = put_inner offset_of user_drop_panics w new s

      linked : TypedInner
      linked = record inner { weak_inner_ref = some w }

      apart : w ≢ ptr
      apart = λ e. let nothing : s.boxes.place ptr ≡ none = rw (← e) free in cc

      kept : added.boxes.place ptr ≡ some inner
      kept = update_ne s.boxes.place w ptr (some new) apart ∙ at

      here : type_at added.boxes ptr ≡ some inner.type
      here = rw kept refl

      put_in : IsErased added
      put_in =
          put_inner-IsErased w new s free unused
            (record {
              fits = tt;
              weak = λ q e. cc;
              back = λ r e ne.
                  let same : ptr ≡ r = ground (arith, e) in
                  (
                    inner.type,
                    subst (λ q. type_at added.boxes q ≡ some inner.type) same here,
                    refl,
                  );
              counted = update_self s.boxes.field (w + offset_of (weak_sdarc_inner inner.type)) _;
            })
            v

      good : IsGood offset_of added.boxes ptr inner
      good = put_in.0 ptr inner kept

      types :
          (q : ℕ)
          → type_at (link offset_of user_drop_panics ptr inner w added).boxes q
            ≡ type_at added.boxes q
      types q = type_at-update offset_of added.boxes ptr inner linked q kept refl
