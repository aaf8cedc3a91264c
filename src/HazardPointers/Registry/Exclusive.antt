-- ===== src/HazardPointers/Registry/Exclusive.antt =====
-- No two threads share hazard data, and whoever obtains an entry of `SHARED_HAZARD_DATA` in
-- src/atomic_sdarc.rs finds it as if it were new.
use sdarc.Prelude.{
  ℕ, suc, ◌≡◌, refl, sym, ap, ◌∙◌, inl, inr, Bool, true, false, not, Bool-cases, Option-cases, List,
  [], ◌∷◌, some, arith, ◌==◌, ==_iff, ltb, length, set, get_elem?, get_elem?-set_self,
  get_elem?-set_ne,
}
use mathlib.Core.Path.{subst}
use mathlib.Core.Option.{some-injective}
use sdarc.Outcome.{Outcome, done, panic, ◌>>=◌, ◌>>◌, assert, Gives, Returns}
use sdarc.Object.{update}
use sdarc.HazardPointers.Registry.{
  HazardData, Claim, nothing, looking, holding, Registry, Access, begin, look, release, write_slots,
  write_flag, all_null, new_hazard_data, with_pushed, pushed, swap_used, release_at, with_held,
  begins, looks, access, accesses, empty_registry,
}
use sdarc.HazardPointers.Registry.Entries.{get_elem?-bound, append-lookup, append-kept, append-last}
use sdarc.HazardPointers.Registry.Changes.{
  IsFresh, IsRegistry, stands_down, writes, obtains, released,
}

with_pushed-IsRegistry : (t : ℕ) (r : Registry) → IsRegistry r → IsRegistry (with_pushed t r)
with_pushed-IsRegistry t r v =
    obtains t (length r.entries) new_hazard_data _ r
      (λ u h.
        let (x, found, is) = v.held u (length r.entries) h in
        let bound = get_elem?-bound r.entries (length r.entries) found in absurd (omega arith))
      (append-last r.entries new_hazard_data) refl
      (λ j x ne h. append-kept r.entries new_hazard_data j h)
      (λ j x ne h. elim (append-lookup r.entries new_hazard_data j h) [
        | inl (last, same) ↦ absurd (ne last)
        | inr before ↦ before
      ])
      v

-- The assertion after the push does not fail.
pushed-IsRegistry : (t : ℕ) (r : Registry) → IsRegistry r → Gives IsRegistry (pushed t r)
pushed-IsRegistry t r v = rw (append-last r.entries new_hazard_data) (with_pushed-IsRegistry t r v)

swap_used-IsRegistry :
    (t k len : ℕ) (e : HazardData) (r : Registry)
    → get_elem? r.entries k ≡ some e
    → IsRegistry r
    → IsRegistry (swap_used t k len e r)
swap_used-IsRegistry t k len e r was v = elim (Bool-cases e.is_used) [
  | inl used ↦ rw used (stands_down t (looking (suc k) len) r refl v)
  | inr free ↦ rw free (
      obtains t k (record e { is_used = true }) _ r
        (λ u h.
          let (x, found, is) = v.held u k h in
          let same : x ≡ e = some-injective _ _ (sym found ∙ was) in cc (ap (λ y. y.is_used) same))
        (get_elem?-set_self r.entries k _ (get_elem?-bound r.entries k was)) refl
        (λ j x ne h. get_elem?-set_ne r.entries _ (λ same. ne (sym same)) ∙ h)
        (λ j x ne h. sym (get_elem?-set_ne r.entries _ (λ same. ne (sym same))) ∙ h) v)
]

looks-IsRegistry :
    (t : ℕ) (c : Claim) (r : Registry) → IsRegistry r → Gives IsRegistry (looks t c r)
looks-IsRegistry t nothing r v = v
looks-IsRegistry t (holding k) r v = v
looks-IsRegistry t (looking k len) r v = elim (Option-cases (get_elem? r.entries k)) [
  | inl missing ↦ rw missing (pushed-IsRegistry t r v)
  | inr (e, found) ↦ elim (Bool-cases (ltb k len)) [
    | inl before ↦ rw (found, before) (swap_used-IsRegistry t k len e r found v)
    | inr past ↦ rw (found, past) (pushed-IsRegistry t r v)
  ]
]

begins-IsRegistry : (t : ℕ) (c : Claim) (r : Registry) → IsRegistry r → IsRegistry (begins t c r)
begins-IsRegistry t nothing r v = stands_down t (looking 0 (length r.entries)) r refl v
begins-IsRegistry t (holding k) r v = v
begins-IsRegistry t (looking k len) r v = v

Returns-assert :
    {A : Type 0} (P : A → Type 0) (b : Bool) (m : Outcome A)
    → (b ≡ true → Returns P m)
    → Returns P (assert b >> m)
Returns-assert P true m holds = holds refl
Returns-assert P false m holds = tt

not-true : (b : Bool) → not b ≡ true → b ≡ false
not-true true h = sym h
not-true false h = refl

release_at-IsRegistry :
    (t k : ℕ) (e : HazardData) (r : Registry)
    → r.thread t ≡ holding k
    → get_elem? r.entries k ≡ some e
    → IsRegistry r
    → Returns IsRegistry (release_at t k e r)
release_at-IsRegistry t k e r holds was v =
    Returns-assert IsRegistry (all_null e.hazard_ptr_slots) _ (λ null.
      Returns-assert IsRegistry (not e.reader_critical_section_flag) _ (λ outside.
        Returns-assert IsRegistry e.is_used _ (λ used.
          released t k e r holds was (null, not-true e.reader_critical_section_flag outside) v)))

with_held-IsRegistry :
    (t : ℕ) (c : Claim) (r : Registry) (f : ℕ → HazardData → Outcome Registry)
    → r.thread t ≡ c
    → IsRegistry r
    → ((k : ℕ) (e : HazardData)
        → r.thread t ≡ holding k
        → get_elem? r.entries k ≡ some e
        → Returns IsRegistry (f k e))
    → Returns IsRegistry (with_held c r f)
with_held-IsRegistry t nothing r f h v keeps = v
with_held-IsRegistry t (looking k len) r f h v keeps = v
with_held-IsRegistry t (holding k) r f h v keeps = elim (Option-cases (get_elem? r.entries k)) [
  | inl missing ↦ rw missing v
  | inr (e, found) ↦ rw (with_held, found) (keeps k e h found)
]

used_still :
    (t k : ℕ) (e : HazardData) (r : Registry)
    → r.thread t ≡ holding k
    → get_elem? r.entries k ≡ some e
    → IsRegistry r
    → e.is_used ≡ true
used_still t k e r h found v =
    let (x, same, is) = v.held t k h in
    let eq : x ≡ e = some-injective _ _ (sym same ∙ found) in subst (λ y. y.is_used ≡ true) eq is

Gives-weaken : {A : Type 0} (P : A → Type 0) (m : Outcome A) → Gives P m → Returns P m
Gives-weaken P (done a) v = v
Gives-weaken P panic v = absurd v

access-IsRegistry : (a : Access) (r : Registry) → IsRegistry r → Returns IsRegistry (access a r)
unfolding access
access-IsRegistry (begin t) r v = begins-IsRegistry t (r.thread t) r v
access-IsRegistry (look t) r v =
    Gives-weaken IsRegistry (looks t (r.thread t) r) (looks-IsRegistry t (r.thread t) r v)
access-IsRegistry (release t) r v =
    with_held-IsRegistry t (r.thread t) r _ refl v
      (λ k e h found. release_at-IsRegistry t k e r h found v)
access-IsRegistry (write_slots t slots) r v =
    with_held-IsRegistry t (r.thread t) r _ refl v
      (λ k e h found. writes t k e _ r found (used_still t k e r h found v) v)
access-IsRegistry (write_flag t flag) r v =
    with_held-IsRegistry t (r.thread t) r _ refl v
      (λ k e h found. writes t k e _ r found (used_still t k e r h found v) v)

Returns-bind :
    {A B : Type 0} (P : A → Type 0) (Q : B → Type 0) (m : Outcome A) (f : A → Outcome B)
    → Returns P m
    → ((a : A) → P a → Returns Q (f a))
    → Returns Q (m >>= f)
Returns-bind P Q panic f v keeps = tt
Returns-bind P Q (done a) f v keeps = keeps a v

accesses_keep :
    (acts : List Access) (r : Registry) → IsRegistry r → Returns IsRegistry (accesses acts r)
unfolding accesses
accesses_keep [] r v = v
accesses_keep (a ∷ rest) r v =
    Returns-bind IsRegistry IsRegistry (access a r) (accesses rest) (access-IsRegistry a r v)
      (accesses_keep rest)

-- However the threads' accesses interleave while they obtain hazard data, use it and give it back:
-- unless an assertion of `release_hazard_data` has failed, no two threads have the same entry, the
-- entry of a thread stays marked as used, and every unused entry has only null slots and a clear
-- flag, so that the next thread finds it as if it were new.
pub accesses-IsRegistry : (acts : List Access) → Returns IsRegistry (accesses acts empty_registry)
accesses-IsRegistry acts =
    accesses_keep acts empty_registry
      (record { held = λ t k h. cc; exclusive = λ t u k h h'. cc; free_fresh = λ k e h free. cc })

-- A thread that has hazard data, with only null slots and a clear flag, gives it back without a
-- panic.
pub release-done :
    (t k : ℕ) (e : HazardData) (r : Registry)
    → IsRegistry r
    → r.thread t ≡ holding k
    → get_elem? r.entries k ≡ some e
    → IsFresh e
    → (r' : Registry) × (access (release t) r ≡ done r') × (r'.thread t ≡ nothing)
unfolding access
release-done t k e r v h found fresh =
    let used = used_still t k e r h found v in
    let here : (t == t) ≡ true = (==_iff t t).1 refl in
    (
      record {
        entries = set r.entries k (record e { is_used = false });
        thread = update r.thread t nothing;
      },
      rw (access, h, found, fresh.0, fresh.1, used) refl,
      rw here refl,
    )
