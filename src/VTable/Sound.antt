-- ===== src/VTable/Sound.antt =====
-- Whatever the users create and the collector does to it through the tables of src/sdarc.rs, no cast
-- is to a wrong type.
use sdarc.Prelude.{
  ℕ, Bool, ◌+◌, ◌≡◌, refl, ◌∙◌, inl, inr, Bool-cases, List, [], ◌∷◌, some, ◌==◌, Option-cases,
}
use sdarc.Outcome.{done, Gives, >>=-Gives, Gives-Returns}
use sdarc.Object.Totals.{update_self}
use sdarc.VTable.{
  TypeName, content, TypedInner, into_typed, clear_weak_backref_at, drop_fields_at,
  SdarcInnerFatPtr, get_counters_ptr, Operation, creates, downgrades, clears, drops, deallocates,
  operate, operate_all,
}
use sdarc.VTable.Typed.{type_at-place, clear_weak_backref_at-IsTyped, into_typed-place}
use sdarc.VTable.Freed.{SameObjects-IsTyped, drop_fields_at-SameObjects, deallocate_box-IsTyped}
use sdarc.VTable.Created.{
  State, IsErased, Allowed, AllAllowed, put_inner-IsErased, init_weak_ref-IsErased,
}

module _ (offset_of : TypeName → ℕ) (user_drop_panics : ℕ → ℕ → Bool) where
  operate-IsErased :
      (x : Operation offset_of user_drop_panics) (s : State offset_of user_drop_panics)
      → IsErased offset_of user_drop_panics s
      → Allowed offset_of user_drop_panics x s
      → Gives (IsErased offset_of user_drop_panics) (operate offset_of user_drop_panics x s)
  unfolding operate
  operate-IsErased (creates name n ptr counters) s v (free, unused) =
      put_inner-IsErased offset_of user_drop_panics ptr _ s free unused
        (record {
          fits = tt;
          weak = λ w e. cc;
          back = λ r e ne. cc;
          counted = update_self s.boxes.field (ptr + offset_of (content name)) _;
        })
        v
  operate-IsErased (downgrades t ptr w counters) s v (is, ne, free, unused) =
      let (i, at, same) = type_at-place offset_of s.boxes ptr t is in
      let cast : into_typed t ptr s.boxes ≡ done i =
        rw (← same) (into_typed-place ptr s.boxes i at) in
      rw cast (
        init_weak_ref-IsErased offset_of user_drop_panics ptr w i counters s i.weak_inner_ref refl
          at free (rw same unused) v)
  operate-IsErased (clears ptr) s v ok = elim (Option-cases (s.fats ptr)) [
    | inl nothing ↦ rw (nothing, operate) v
    | inr (f, known) ↦
        let (t, is, made) = v.1 ptr f known in
        let (i, at, same) = type_at-place offset_of s.boxes ptr t is in
        rw (known, operate, made, ← same)
          (>>=-Gives _ (IsErased offset_of user_drop_panics)
            (clear_weak_backref_at i.type ptr s.boxes) _
            (clear_weak_backref_at-IsTyped offset_of s.boxes ptr i at v.0)
            λ r w. (w.0, λ p g e. let (u, held, made') = v.1 p g e in (u, w.1 p ∙ held, made')))
  ]
  operate-IsErased (drops ptr) s v ok = elim (Option-cases (s.fats ptr)) [
    | inl nothing ↦ rw (nothing, operate) v
    | inr (f, known) ↦
        let (t, is, made) = v.1 ptr f known in
        let (i, at, same) = type_at-place offset_of s.boxes ptr t is in
        rw (known, operate, made, ← same)
          (>>=-Gives _ (IsErased offset_of user_drop_panics)
            (drop_fields_at offset_of user_drop_panics i.type ptr s.boxes) _
            (drop_fields_at-SameObjects offset_of user_drop_panics s.boxes ptr i at v.0)
            λ r w. (
              SameObjects-IsTyped offset_of user_drop_panics s.boxes r.1 w v.0,
              λ p g e. let (u, held, made') = v.1 p g e in (u, rw w.0 held, made'),
            ))
  ]
  operate-IsErased deallocates s v ok = elim (Option-cases s.freeing) [
    | inl nobody ↦ rw (nobody, operate) v
    | inr (ptr, freeing) ↦ elim (Option-cases (s.fats ptr)) [
      | inl nothing ↦ rw (freeing, operate, nothing) v
      | inr (f, known) ↦
          let (t, is, made) = v.1 ptr f known in
          let (i, at, same) = type_at-place offset_of s.boxes ptr t is in
          rw (freeing, operate, known, made, ← same)
            (
              deallocate_box-IsTyped offset_of user_drop_panics s.boxes ptr i at v.0
                  (ok ptr freeing),
              λ p g e. elim (Bool-cases (ptr == p)) [
                | inl here ↦ cc (rw here at e)
                | inr there ↦
                    let (u, held, made') = v.1 p g (rw there at e) in (u, rw there held, made')
              ],
            )
    ]
  ]

  -- The counters that a fat pointer gives are those of its object.
  abbrev pub GivesCounters : State offset_of user_drop_panics → Type 0
  GivesCounters s =
      (p : ℕ) (f : SdarcInnerFatPtr offset_of user_drop_panics)
      → s.fats p ≡ some f
      → (i : TypedInner) × (s.boxes.place p ≡ some i)
        × (get_counters_ptr offset_of user_drop_panics f s.boxes ≡ done i.counters)

  IsErased-GivesCounters :
      (s : State offset_of user_drop_panics)
      → IsErased offset_of user_drop_panics s
      → GivesCounters s
  unfolding get_counters_ptr
  IsErased-GivesCounters s v p f known =
      let (t, is, made) = v.1 p f known in
      let (i, at, same) = type_at-place offset_of s.boxes p t is in
      (i, at, rw (made, ← same) (rw ((v.0 p i at).counted, get_counters_ptr) refl))

  -- From a typed memory, whatever `Sdarc`s of whatever types other threads and the users' `Drop`
  -- create and downgrade, where the global allocator gives memory that is free, and whatever the
  -- collector clears and drops through the tables of functions, also when the users' `Drop` or the
  -- assertion of `WeakSdarcInner` panics and is caught, as long as a box is freed only when no weak
  -- reference and no back reference leads to it: no cast is to a type that the memory does not have
  -- there. The memory stays typed, each fat pointer is still the one that was made for its object's
  -- type, and the counters that it gives are that object's.
  pub operate_all-IsErased :
      (xs : List (Operation offset_of user_drop_panics)) (s : State offset_of user_drop_panics)
      → IsErased offset_of user_drop_panics s
      → AllAllowed offset_of user_drop_panics xs s
      → Gives
          (λ s'. IsErased offset_of user_drop_panics s' × GivesCounters s')
          (operate_all offset_of user_drop_panics xs s)
  unfolding operate_all
  operate_all-IsErased [] s v allowed = (v, IsErased-GivesCounters s v)
  operate_all-IsErased (x ∷ xs) s v allowed =
      >>=-Gives
        (λ s'. IsErased offset_of user_drop_panics s' × AllAllowed offset_of user_drop_panics xs s')
        (λ s'. IsErased offset_of user_drop_panics s' × GivesCounters s')
        (operate offset_of user_drop_panics x s) (operate_all offset_of user_drop_panics xs)
        (Gives-Returns (IsErased offset_of user_drop_panics)
          (AllAllowed offset_of user_drop_panics xs) (operate offset_of user_drop_panics x s)
          (operate-IsErased x s v allowed.0) allowed.1)
        λ s' w. operate_all-IsErased xs s' w.0 w.1
