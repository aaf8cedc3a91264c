-- ===== src/VTable/Freed.antt =====
-- The free of a `SdarcInner` through its table in src/sdarc.rs: every cast is to the right type.
use sdarc.Prelude.{
  ℕ, ◌+◌, ◌≡◌, refl, sym, ap, ◌∙◌, inl, inr, Bool, true, Bool-cases, some, ◌==◌, ==_iff,
  Option-cases,
}
use mathlib.Core.Path.{subst}
use mathlib.Core.Option.{some-injective}
use sdarc.Outcome.{done, Gives, >>=-Gives}
use sdarc.VTable.{
  TypeName, content, weak_sdarc_inner, Value, opaque, back_ref, TypedInner, Boxes, into_typed,
  drop_weak_ref, drop_value, deallocate_box, drop_fields_at,
}
use sdarc.VTable.Typed.{Fits, Refers, IsGood, IsTyped, IsGood-keep, type_at-place, into_typed-place}

-- The memory of the objects is the same.
abbrev pub SameObjects : Boxes → Boxes → Type 0
SameObjects b b' = (b'.place ≡ b.place) × (b'.field ≡ b.field)

-- No object leads to the one at `ptr`.
abbrev pub Unreferenced : ℕ → Boxes → Type 0
Unreferenced ptr b = (q : ℕ) (i : TypedInner) → b.place q ≡ some i → ¬ (Refers i ptr)

module _ (offset_of : TypeName → ℕ) (user_drop_panics : ℕ → ℕ → Bool) where
  drop_weak_ref-SameObjects :
      (b : Boxes) (ptr : ℕ) (i : TypedInner) (b' : Boxes)
      → IsGood offset_of b ptr i
      → SameObjects b b'
      → Gives (SameObjects b) (drop_weak_ref offset_of user_drop_panics i.type i.weak_inner_ref b')
  unfolding drop_weak_ref
  drop_weak_ref-SameObjects b ptr i b' g same = elim (Option-cases i.weak_inner_ref) [
    | inl nothing ↦ rw (nothing, drop_weak_ref) same
    | inr (w, leads) ↦
        let (j, there, is) = type_at-place offset_of b w _ (g.weak w leads) in
        let here : b'.place w ≡ some j = rw same.0 there in
        let cast : into_typed (weak_sdarc_inner i.type) w b' ≡ done j =
          rw (← is) (into_typed-place w b' j here) in
        rw (leads, drop_weak_ref, cast) same
  ]

  drop_value-Returns :
      (t : TypeName) (v : Value)
      → Fits t v
      → (unwinds : Bool) × (drop_value offset_of user_drop_panics t v ≡ done unwinds)
  unfolding drop_value
  drop_value-Returns (content n) (opaque m) fit = (_, refl)
  drop_value-Returns (content n) (back_ref r) fit = absurd fit
  drop_value-Returns (weak_sdarc_inner t) (opaque m) fit = absurd fit
  drop_value-Returns (weak_sdarc_inner t) (back_ref r) fit = (_, refl)

  pub deallocate_box-IsTyped :
      (b : Boxes) (ptr : ℕ) (i : TypedInner)
      → b.place ptr ≡ some i
      → IsTyped offset_of b
      → Unreferenced ptr b
      → IsTyped offset_of (deallocate_box offset_of user_drop_panics i.type ptr b)
  deallocate_box-IsTyped b ptr i at v unreferenced p k e = elim (Bool-cases (ptr == p)) [
    | inl here ↦ cc (rw here at e)
    | inr there ↦
        let old : b.place p ≡ some k = rw there at e in
        IsGood-keep offset_of b _ p k
          (λ q t refers h. elim (Bool-cases (ptr == q)) [
            | inl hit ↦
                let led : ptr ≡ q = (==_iff ptr q).0 hit in
                absurd (unreferenced p k old (subst (Refers k) (sym led) refers))
            | inr miss ↦ rw miss h
          ])
          (λ h. elim (Bool-cases (ptr + offset_of i.type == p + offset_of k.type)) [
            | inl hit ↦
                let one : ptr + offset_of i.type ≡ p + offset_of k.type = (==_iff _ _).0 hit in
                let both : some (ptr, i.counters) ≡ some (p, k.counters) =
                  sym (v ptr i at).counted ∙ ap b.field one ∙ h in
                let owner : ptr ≡ p = ap (λ x. x.0) (some-injective _ _ both) in
                let equal : (ptr == p) ≡ true = (==_iff ptr p).1 owner in cc
            | inr miss ↦ rw miss h
          ])
          (v p k old)
  ]

  pub drop_fields_at-SameObjects :
      (b : Boxes) (ptr : ℕ) (i : TypedInner)
      → b.place ptr ≡ some i
      → IsTyped offset_of b
      → Gives (λ r. SameObjects b r.1) (drop_fields_at offset_of user_drop_panics i.type ptr b)
  unfolding drop_fields_at
  drop_fields_at-SameObjects b ptr i at v =
      let (unwinds, returns) = drop_value-Returns i.type i.value (v ptr i at).fits in
      rw (into_typed-place ptr b i at) (
        >>=-Gives (SameObjects b) _
          (drop_weak_ref offset_of user_drop_panics i.type i.weak_inner_ref _) _
          (drop_weak_ref-SameObjects b ptr i _ (v ptr i at) (refl, refl))
          λ b1 same. rw returns same)

  pub SameObjects-IsTyped :
      (b b' : Boxes) → SameObjects b b' → IsTyped offset_of b → IsTyped offset_of b'
  SameObjects-IsTyped b b' same v p i e =
      IsGood-keep offset_of b b' p i (λ q t refers h. rw same.0 h) (λ h. rw same.1 h)
        (v p i (rw same.0 at e))
