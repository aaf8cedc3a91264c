-- ===== src/Outcome.antt =====
-- The result of code that may panic: `assert!`, `unwrap`, `expect` and `panic!` of the source.
use mathlib.Core.Path.{subst}
use sdarc.Prelude.{Bool, true, false, ◌≡◌, refl, Option, none, some, ◌⊎◌, inl, inr}

pub data Outcome {ℓ} (A : Type ℓ) : Type ℓ where
  done : A → Outcome A
  panic : Outcome A

infixl 5 ◌>>=◌ ◌>>◌
abbrev pub ◌>>=◌ {ℓ κ} : {A : Type ℓ} {B : Type κ} → Outcome A → (A → Outcome B) → Outcome B
done a >>= f = f a
panic >>= f = panic

abbrev pub ◌>>◌ {ℓ} : {B : Type ℓ} → Outcome (Unit {0}) → Outcome B → Outcome B
m >> k = m >>= λ _. k

-- Go on with the result of code that may wait for ever, which is `none`.
abbrev pub and_then {ℓ κ} :
    {A : Type ℓ} {B : Type κ} → Option (Outcome A) → (A → Option (Outcome B)) → Option (Outcome B)
and_then none f = none
and_then (some panic) f = some panic
and_then (some (done a)) f = f a

-- `assert!(b)`
abbrev pub assert : Bool → Outcome (Unit {0})
assert true = done tt
assert false = panic

-- What holds of the value, if the code does not panic.
abbrev pub Returns {ℓ κ} : {A : Type ℓ} → (A → Type κ) → Outcome A → Type κ
Returns P (done a) = P a
Returns P panic = Unit

-- The code does not panic, and what holds of its value if it does not wait for ever.
abbrev pub Keeps {ℓ} : {A : Type ℓ} → (A → Type 0) → Option (Outcome A) → Type 0
Keeps P none = Unit
Keeps P (some panic) = ⊥
Keeps P (some (done a)) = P a

-- The code does not panic, and what holds of its value.
abbrev pub Gives {ℓ} : {A : Type ℓ} → (A → Type 0) → Outcome A → Type 0
Gives P (done a) = P a
Gives P panic = ⊥

pub >>=-Gives {ℓ κ} :
    {A : Type ℓ} {B : Type κ} (P : A → Type 0) (Q : B → Type 0) (m : Outcome A) (f : A → Outcome B)
    → Gives P m
    → ((a : A) → P a → Gives Q (f a))
    → Gives Q (m >>= f)
>>=-Gives P Q (done a) f v k = k a v
>>=-Gives P Q panic f v k = absurd v

pub Gives-map {ℓ} :
    {A : Type ℓ} (P Q : A → Type 0) (m : Outcome A) → Gives P m → ((a : A) → P a → Q a) → Gives Q m
Gives-map P Q (done a) v k = k a v
Gives-map P Q panic v k = v

pub Gives-and {ℓ} :
    {A : Type ℓ} (P Q : A → Type 0) (m : Outcome A)
    → Gives P m
    → Gives Q m
    → Gives (λ a. P a × Q a) m
Gives-and P Q (done a) v w = (v, w)
Gives-and P Q panic v w = v

pub Gives-Returns {ℓ} :
    {A : Type ℓ} (P Q : A → Type 0) (m : Outcome A)
    → Gives P m
    → Returns Q m
    → Gives (λ a. P a × Q a) m
Gives-Returns P Q (done a) v w = (v, w)
Gives-Returns P Q panic v w = absurd v

pub Gives-done {ℓ} :
    {A : Type ℓ} (P : A → Type 0) (m : Outcome A) → Gives P m → (a : A) × (m ≡ done a) × P a
Gives-done P (done a) v = (a, refl, v)
Gives-done P panic v = absurd v

pub >>=-eq-done {ℓ κ} :
    {A : Type ℓ} {B : Type κ} (m : Outcome A) (f : A → Outcome B) {b : B}
    → (m >>= f) ≡ done b
    → (a : A) × (m ≡ done a) × (f a ≡ done b)
>>=-eq-done (done a) f h = (a, refl, h)
>>=-eq-done panic f h = cc

pub Outcome-cases {ℓ} : {A : Type ℓ} (m : Outcome A) → (m ≡ panic) ⊎ ((a : A) × (m ≡ done a))
Outcome-cases (done a) = inr (a, refl)
Outcome-cases panic = inl refl

pub >>=-done {ℓ} : {A : Type ℓ} (m : Outcome A) → (m >>= λ a. done a) ≡ m
>>=-done (done a) = refl
>>=-done panic = refl

pub and_then-Keeps {ℓ κ} :
    {A : Type ℓ} {B : Type κ} (P : A → Type 0) (Q : B → Type 0) (m : Option (Outcome A))
    (f : A → Option (Outcome B))
    → Keeps P m
    → ((a : A) → P a → Keeps Q (f a))
    → Keeps Q (and_then m f)
and_then-Keeps P Q none f v keeps = tt
and_then-Keeps P Q (some panic) f v keeps = v
and_then-Keeps P Q (some (done a)) f v keeps = keeps a v

pub Keeps-done {ℓ} :
    {A : Type ℓ} (P : A → Type 0) (m : Option (Outcome A)) {a : A}
    → Keeps P m
    → m ≡ some (done a)
    → P a
Keeps-done P m v e = subst (Keeps P) e v

pub >>=-ext {ℓ κ} :
    {A : Type ℓ} {B : Type κ} (m : Outcome A) (f g : A → Outcome B)
    → ((a : A) → f a ≡ g a)
    → (m >>= f) ≡ (m >>= g)
>>=-ext (done a) f g same = same a
>>=-ext panic f g same = refl
