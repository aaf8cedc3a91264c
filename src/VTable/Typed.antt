-- ===== src/VTable/Typed.antt =====
-- The casts of src/sdarc.rs that go through the collector's tables of functions are always to the type
-- that the memory has.
use sdarc.Prelude.{
  ℕ, ◌+◌, ◌≡◌, ◌≢◌, refl, sym, ap, ◌∙◌, ◌⊎◌, inl, inr, true, Bool-cases, Option, none, some, ◌==◌,
  ==_iff, arith, Option-cases,
}
use mathlib.Core.Path.{subst, subst₂}
use mathlib.Core.Option.{some-injective}
use sdarc.Outcome.{done, Gives}
use sdarc.Object.{update}
use sdarc.VTable.{
  TypeName, content, weak_sdarc_inner, same_type, Value, opaque, back_ref, TypedInner, Boxes,
  into_typed, with_value, clear_weak_backref_at,
}

-- A value is one of its type.
abbrev pub Fits : TypeName → Value → Type 0
Fits (content n) (opaque m) = Unit
Fits (content n) (back_ref r) = ⊥
Fits (weak_sdarc_inner t) (opaque m) = ⊥
Fits (weak_sdarc_inner t) (back_ref r) = Unit

same_type_refl : (t : TypeName) → same_type t t ≡ true
same_type_refl (content n) = (==_iff n n).1 refl
same_type_refl (weak_sdarc_inner t) = same_type_refl t

pub into_typed-place :
    (ptr : ℕ) (b : Boxes) (inner : TypedInner)
    → b.place ptr ≡ some inner
    → into_typed inner.type ptr b ≡ done inner
unfolding into_typed
into_typed-place ptr b inner e = rw (e, into_typed, same_type_refl inner.type) refl

abbrev type_of : Option TypedInner → Option TypeName
type_of none = none
type_of (some i) = some i.type

abbrev pub type_at : Boxes → ℕ → Option TypeName
type_at b p = type_of (b.place p)

-- An object leads to another: by its weak reference, or back from that one.
abbrev pub Refers : TypedInner → ℕ → Type 0
Refers i q = (i.weak_inner_ref ≡ some q) ⊎ ((i.value ≡ back_ref q) × (q ≢ 0))

module _ (offset_of : TypeName → ℕ) where
  -- The object at `p` is what its type says: its value and what it leads to have the types that go
  -- with it, and its counters stand where its type has them.
  pub record IsGood (b : Boxes) (p : ℕ) (i : TypedInner) : Type 0 where
    pub fits : Fits i.type i.value
    pub weak : (w : ℕ) → i.weak_inner_ref ≡ some w → type_at b w ≡ some (weak_sdarc_inner i.type)
    pub back :
        (r : ℕ)
        → i.value ≡ back_ref r
        → r ≢ 0
        → (t : TypeName) × (type_at b r ≡ some t) × (weak_sdarc_inner t ≡ i.type)
    pub counted : b.field (p + offset_of i.type) ≡ some (p, i.counters)

  abbrev pub IsTyped : Boxes → Type 0
  IsTyped b = (p : ℕ) (i : TypedInner) → b.place p ≡ some i → IsGood b p i

  pub IsGood-keep :
      (b b' : Boxes) (p : ℕ) (i : TypedInner)
      → ((q : ℕ) (t : TypeName) → Refers i q → type_at b q ≡ some t → type_at b' q ≡ some t)
      → (b.field (p + offset_of i.type) ≡ some (p, i.counters)
          → b'.field (p + offset_of i.type) ≡ some (p, i.counters))
      → IsGood b p i
      → IsGood b' p i
  IsGood-keep b b' p i keep same v = record {
    fits = v.fits;
    weak = λ w e. keep w _ (inl e) (v.weak w e);
    back = λ r e ne. let (t, at, h) = v.back r e ne in (t, keep r t (inr (e, ne)) at, h);
    counted = same v.counted;
  }

  -- The type at an address stays when the object there gets another of the same type.
  pub type_at-update :
      (b : Boxes) (w : ℕ) (j k : TypedInner) (q : ℕ)
      → b.place w ≡ some j
      → k.type ≡ j.type
      → type_of (update b.place w (some k) q) ≡ type_at b q
  type_at-update b w j k q at same = elim (Bool-cases (w == q)) [
    | inl here ↦
        let e : w ≡ q = (==_iff w q).0 here in
        let new : type_of (b.place q) ≡ some j.type = rw (← e) (ap type_of at) in
        rw (here, same) (sym new)
    | inr there ↦ rw there refl
  ]

  -- An object is replaced by one of the same type.
  pub replaced-IsTyped :
      (b : Boxes) (w : ℕ) (j k : TypedInner)
      → b.place w ≡ some j
      → k.type ≡ j.type
      → IsGood (record b { place = update b.place w (some k) }) w k
      → IsTyped b
      → IsTyped (record b { place = update b.place w (some k) })
  replaced-IsTyped b w j k at same good t p i e = elim (Bool-cases (w == p)) [
    | inl here ↦
        let there : w ≡ p = (==_iff w p).0 here in
        let it : k ≡ i = some-injective _ _ (rw here at e) in
        subst₂ (IsGood (record b { place = update b.place w (some k) })) there it good
    | inr there ↦
        IsGood-keep b _ p i (λ q u refers h. type_at-update b w j k q at same ∙ h) (λ h. h)
          (t p i (rw there at e))
  ]

  pub type_at-place :
      (b : Boxes) (p : ℕ) (t : TypeName)
      → type_at b p ≡ some t
      → (i : TypedInner) × (b.place p ≡ some i) × (i.type ≡ t)
  type_at-place b p t h = elim (Option-cases (b.place p)) [
    | inl nothing ↦ cc (rw nothing at h)
    | inr (i, e) ↦ (i, e, some-injective _ _ (rw e at h))
  ]

  pub back_ref-Fits :
      (t : TypeName) (v : Value) → Fits (weak_sdarc_inner t) v → (r : ℕ) × (v ≡ back_ref r)
  back_ref-Fits t (opaque m) fit = absurd fit
  back_ref-Fits t (back_ref r) fit = (r, refl)

  -- Clearing a back reference, which is a cast to the type that the memory has
  cleared-IsTyped :
      (b : Boxes) (w : ℕ) (j : TypedInner) (t : TypeName)
      → b.place w ≡ some j
      → j.type ≡ weak_sdarc_inner t
      → IsTyped b
      → IsTyped (with_value w j (back_ref 0) b)
  cleared-IsTyped b w j t at is v =
      let g = v w j at in
      replaced-IsTyped b w j (record j { value = back_ref 0 }) at refl
        (record {
          fits = rw is tt;
          weak =
              λ q e. type_at-update b w j (record j { value = back_ref 0 }) q at refl ∙ g.weak q e;
          back = λ r e ne. absurd (ne (ground (arith, e)));
          counted = g.counted;
        })
        v

  pub clear_weak_backref_at-IsTyped :
      (b : Boxes) (ptr : ℕ) (i : TypedInner)
      → b.place ptr ≡ some i
      → IsTyped b
      → Gives
          (λ r. IsTyped r.1 × ((q : ℕ) → type_at r.1 q ≡ type_at b q))
          (clear_weak_backref_at i.type ptr b)
  unfolding clear_weak_backref_at
  clear_weak_backref_at-IsTyped b ptr i at v =
      rw (into_typed-place ptr b i at) (elim (Option-cases i.weak_inner_ref) [
        | inl nothing ↦ rw nothing (v, λ q. refl)
        | inr (w, leads) ↦
            let g = v ptr i at in
            let (j, there, is) = type_at-place b w _ (g.weak w leads) in
            let (r, value) =
              back_ref-Fits i.type j.value (subst (λ t. Fits t j.value) is (v w j there).fits) in
            let cast : into_typed (weak_sdarc_inner i.type) w b ≡ done j =
              rw (← is) (into_typed-place w b j there) in
            rw (leads, cast, value)
              (
                cleared-IsTyped b w j i.type there is v,
                λ q. type_at-update b w j (record j { value = back_ref 0 }) q there refl,
              )
      ])
