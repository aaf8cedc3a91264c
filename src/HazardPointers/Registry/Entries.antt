-- ===== src/HazardPointers/Registry/Entries.antt =====
-- Lookups in the entries of `SHARED_HAZARD_DATA` of src/atomic_sdarc.rs and in the threads' claims,
-- after a change.
use sdarc.Prelude.{
  ℕ, zero, suc, ◌<◌, ◌≡◌, ◌≢◌, refl, sym, ap, ◌∙◌, ◌⊎◌, inl, inr, Bool-cases, List, [], ◌∷◌, ◌++◌,
  some, arith, ◌==◌, ==_iff, length, set, get_elem?, get_elem?-set_self, get_elem?-set_ne,
}
use mathlib.Core.Option.{some-injective}
use sdarc.Object.{update}
use sdarc.HazardPointers.Registry.{HazardData, Claim}

pub get_elem?-bound :
    (xs : List HazardData) (k : ℕ) {e : HazardData} → get_elem? xs k ≡ some e → k < length xs
get_elem?-bound [] k h = cc
get_elem?-bound (x ∷ xs) zero h = omega arith
get_elem?-bound (x ∷ xs) (suc k) h = let later = get_elem?-bound xs k h in omega (arith, later)

pub set-lookup :
    (xs : List HazardData) (k j : ℕ) (x : HazardData) {old e : HazardData}
    → get_elem? xs k ≡ some old
    → get_elem? (set xs k x) j ≡ some e
    → ((j ≡ k) × (x ≡ e)) ⊎ ((j ≢ k) × (get_elem? xs j ≡ some e))
set-lookup xs k j x was h = elim (Bool-cases (j == k)) [
  | inl here ↦
      let same : j ≡ k = (==_iff j k).0 here in
      inl (
        same,
        some-injective _ _
            (sym (get_elem?-set_self xs k x (get_elem?-bound xs k was)) ∙ rw same at h),
      )
  | inr there ↦
      let ne : j ≢ k = λ e. ground arith in
      inr (ne, sym (get_elem?-set_ne xs x (λ e. ne (sym e))) ∙ h)
]

pub append-lookup :
    (xs : List HazardData) (x : HazardData) (k : ℕ) {e : HazardData}
    → get_elem? (xs ++ x ∷ []) k ≡ some e
    → ((k ≡ length xs) × (x ≡ e)) ⊎ (get_elem? xs k ≡ some e)
append-lookup [] x zero h = inl (refl, some-injective _ _ h)
append-lookup [] x (suc k) h = cc
append-lookup (y ∷ xs) x zero h = inr h
append-lookup (y ∷ xs) x (suc k) h = elim (append-lookup xs x k h) [
  | inl (e, same) ↦ inl (ap suc e, same)
  | inr before ↦ inr before
]

pub append-kept :
    (xs : List HazardData) (x : HazardData) (k : ℕ) {e : HazardData}
    → get_elem? xs k ≡ some e
    → get_elem? (xs ++ x ∷ []) k ≡ some e
append-kept [] x k h = cc
append-kept (y ∷ xs) x zero h = h
append-kept (y ∷ xs) x (suc k) h = append-kept xs x k h

pub append-last :
    (xs : List HazardData) (x : HazardData) → get_elem? (xs ++ x ∷ []) (length xs) ≡ some x
append-last [] x = refl
append-last (y ∷ xs) x = append-last xs x

pub update-lookup :
    (f : ℕ → Claim) (t u : ℕ) (c c' : Claim)
    → update f t c u ≡ c'
    → ((u ≡ t) × (c ≡ c')) ⊎ ((u ≢ t) × (f u ≡ c'))
update-lookup f t u c c' h = elim (Bool-cases (t == u)) [
  | inl here ↦ inl (sym ((==_iff t u).0 here), rw here at h)
  | inr there ↦ inr ((λ e. ground arith), rw there at h)
]
