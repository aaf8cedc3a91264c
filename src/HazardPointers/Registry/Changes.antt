-- ===== src/HazardPointers/Registry/Changes.antt =====
-- What is kept by each kind of change to `SHARED_HAZARD_DATA` of src/atomic_sdarc.rs.
use sdarc.Prelude.{
  ℕ, ◌≡◌, ◌≢◌, refl, sym, ap, ◌∙◌, inl, inr, Bool, true, false, Bool-cases, List, some, arith, ◌==◌,
  ==_iff, set, get_elem?, get_elem?-set_self, get_elem?-set_ne,
}
use mathlib.Core.Path.{subst}
use mathlib.Core.Option.{some-injective}
use sdarc.Object.{update}
use sdarc.HazardPointers.Registry.{HazardData, Claim, nothing, holding, Registry, all_null}
use sdarc.HazardPointers.Registry.Entries.{get_elem?-bound, set-lookup, update-lookup}

-- An unused entry is as a new one.
abbrev pub IsFresh : HazardData → Type 0
IsFresh e = (all_null e.hazard_ptr_slots ≡ true) × (e.reader_critical_section_flag ≡ false)

pub record IsRegistry (r : Registry) : Type 0 where
  pub held :
      (t k : ℕ)
      → r.thread t ≡ holding k
      → (e : HazardData) × (get_elem? r.entries k ≡ some e) × (e.is_used ≡ true)
  pub exclusive : (t u k : ℕ) → r.thread t ≡ holding k → r.thread u ≡ holding k → t ≡ u
  pub free_fresh :
      (k : ℕ) (e : HazardData) → get_elem? r.entries k ≡ some e → e.is_used ≡ false → IsFresh e

abbrev held_index : Claim → ℕ
held_index (holding k) = k
held_index _ = 0

abbrev pub is_holding : Claim → Bool
is_holding (holding k) = true
is_holding _ = false

-- A thread that holds nothing afterwards
pub stands_down :
    (t : ℕ) (c : Claim) (r : Registry)
    → is_holding c ≡ false
    → IsRegistry r
    → IsRegistry (record r { thread = update r.thread t c })
stands_down t c r ne v =
    let before : (u k : ℕ) → update r.thread t c u ≡ holding k → r.thread u ≡ holding k = λ u k h.
      elim (update-lookup r.thread t u c (holding k) h) [
        | inl (same, e) ↦ cc (rw e at ne)
        | inr (other, e) ↦ e
      ] in
    record {
      held = λ u k h. v.held u k (before u k h);
      exclusive = λ u w k h h'. v.exclusive u w k (before u k h) (before w k h');
      free_fresh = v.free_fresh;
    }

-- A held entry is written to.
pub writes :
    (t k : ℕ) (e e' : HazardData) (r : Registry)
    → get_elem? r.entries k ≡ some e
    → e'.is_used ≡ true
    → IsRegistry r
    → IsRegistry (record r { entries = set r.entries k e' })
writes t k e e' r was used v = record {
  held = λ u j h. elim (Bool-cases (j == k)) [
    | inl here ↦
        let same : j ≡ k = (==_iff j k).0 here in
        (e', rw same (get_elem?-set_self r.entries k e' (get_elem?-bound r.entries k was)), used)
    | inr there ↦
        let (x, found, is) = v.held u j h in
        (x, get_elem?-set_ne r.entries e' (λ same. ground arith) ∙ found, is)
  ];
  exclusive = v.exclusive;
  free_fresh = λ j x h free. elim (set-lookup r.entries k j e' was h) [
    | inl (same, is) ↦ cc (ap (λ y. y.is_used) is)
    | inr (other, before) ↦ v.free_fresh j x before free
  ];
}

-- A thread takes an entry that nobody holds.
pub obtains :
    (t k : ℕ) (e' : HazardData) (entries : List HazardData) (r : Registry)
    → ((u : ℕ) → r.thread u ≢ holding k)
    → get_elem? entries k ≡ some e'
    → e'.is_used ≡ true
    → ((j : ℕ) (x : HazardData)
        → j ≢ k
        → get_elem? r.entries j ≡ some x
        → get_elem? entries j ≡ some x)
    → ((j : ℕ) (x : HazardData)
        → j ≢ k
        → get_elem? entries j ≡ some x
        → get_elem? r.entries j ≡ some x)
    → IsRegistry r
    → IsRegistry (record { entries = entries; thread = update r.thread t (holding k) })
obtains t k e' entries r nobody now used kept back v = record {
  held = λ u j h. elim (update-lookup r.thread t u (holding k) (holding j) h) [
    | inl (same, e) ↦ (e', subst (λ i. get_elem? entries i ≡ some e') (ap held_index e) now, used)
    | inr (other, before) ↦
        let (x, found, is) = v.held u j before in
        (x, kept j x (λ same. nobody u (before ∙ ap holding same)) found, is)
  ];
  exclusive = λ u w j h h'. elim (update-lookup r.thread t u (holding k) (holding j) h) [
    | inl (same, e) ↦ elim (update-lookup r.thread t w (holding k) (holding j) h') [
      | inl (same', e') ↦ same ∙ sym same'
      | inr (other, before) ↦ absurd (nobody w (before ∙ sym e))
    ]
    | inr (other, before) ↦ elim (update-lookup r.thread t w (holding k) (holding j) h') [
      | inl (same', e') ↦ absurd (nobody u (before ∙ sym e'))
      | inr (other', before') ↦ v.exclusive u w j before before'
    ]
  ];
  free_fresh = λ j x h free. elim (Bool-cases (j == k)) [
    | inl here ↦
        let same : j ≡ k = (==_iff j k).0 here in
        let is : e' ≡ x = some-injective _ _ (sym now ∙ (rw same at h)) in
        cc (ap (λ y. y.is_used) is)
    | inr there ↦ v.free_fresh j x (back j x (λ same. ground arith) h) free
  ];
}

-- A release whose assertions hold
pub released :
    (t k : ℕ) (e : HazardData) (r : Registry)
    → r.thread t ≡ holding k
    → get_elem? r.entries k ≡ some e
    → IsFresh e
    → IsRegistry r
    → IsRegistry (record {
      entries = set r.entries k (record e { is_used = false });
      thread = update r.thread t nothing;
    })
released t k e r holds was fresh v =
    let r' : Registry = record r { thread = update r.thread t nothing } in
    let down = stands_down t nothing r refl v in
    record {
      held = λ u j h.
          let (x, found, is) = down.held u j h in
          let other : j ≢ k = λ same. elim (update-lookup r.thread t u nothing (holding j) h) [
            | inl (here, e) ↦ cc
            | inr (there, before) ↦ there (v.exclusive u t k (before ∙ ap holding same) holds)
          ] in
          (x, get_elem?-set_ne r.entries _ (λ same. other (sym same)) ∙ found, is);
      exclusive = down.exclusive;
      free_fresh = λ j x h free. elim (set-lookup r.entries k j _ was h) [
        | inl (here, same) ↦ subst IsFresh same fresh
        | inr (there, before) ↦ v.free_fresh j x before free
      ];
    }
