-- ===== src/Object/Totals.antt =====
-- Sums of integers over the shards.
use sdarc.Prelude.{
  ℕ, zero, suc, ◌<◌, ◌≡◌, ◌≢◌, refl, ap, arith, dec_lt, ◌==◌, ==_iff, Bool-cases, inl, inr,
}
use sdarc.Prelude.Int.{ℤ, pos, pos_part, neg_part, ◌+ℤ◌, ◌≤ℤ◌, int_laws}
use sdarc.Object.{update}

unfoldable pub total : ℕ → (ℕ → ℤ) → ℤ
total zero f = pos 0
total (suc n) f = total n f +ℤ f n

pub total-zero : (f : ℕ → ℤ) → total 0 f ≡ pos 0
unfolding total
total-zero f = refl

-- Sums over shards that agree are equal.
pub total_congr : (n : ℕ) (f g : ℕ → ℤ) → ((i : ℕ) → i < n → f i ≡ g i) → total n f ≡ total n g
unfolding total
total_congr zero f g h = refl
total_congr (suc n) f g h = rw (total_congr n f g (λ i lt. h i (omega arith)), h n (omega arith))

-- One shard counts one more, or one less.
pub total_step :
    (n i : ℕ) (f g : ℕ → ℤ) (d : ℤ)
    → i < n
    → g i ≡ f i +ℤ d
    → ((j : ℕ) → j ≢ i → g j ≡ f j)
    → total n g ≡ total n f +ℤ d
unfolding total
total_step zero i f g d lt here elsewhere = absurd (omega arith)
total_step (suc n) i f g d lt here elsewhere = elim (dec_lt i n) [
  | yes below ↦
      rw (elsewhere n (omega arith), total_step n i f g d below here elsewhere) (omega int_laws)
  | no last ↦
      let e : n ≡ i = omega arith in
      rw (total_congr n g f (λ j h. elsewhere j (omega arith)), e, here) (omega int_laws)
]

pub total_mono : (n : ℕ) (f g : ℕ → ℤ) → ((i : ℕ) → i < n → f i ≤ℤ g i) → total n f ≤ℤ total n g
unfolding total
total_mono zero f g h = omega arith
total_mono (suc n) f g h =
    omega (int_laws, h n (omega arith), total_mono n f g (λ i lt. h i (omega arith)))

-- Where every term is at least as large and the sums are equal, so are the terms.
pub total_squeeze :
    (n : ℕ) (f g : ℕ → ℤ)
    → ((i : ℕ) → i < n → f i ≤ℤ g i)
    → total n f ≡ total n g
    → (i : ℕ) → i < n
    → f i ≡ g i
unfolding total
total_squeeze zero f g h e i lt = absurd (omega arith)
total_squeeze (suc n) f g h e i lt = elim (dec_lt i n) [
  | yes below ↦ total_squeeze n f g (λ j l. h j (omega arith)) rest i below
  | no last ↦ let same : n ≡ i = omega arith in rw (← same) top
]
  where
    below_n : total n f ≤ℤ total n g
    below_n = total_mono n f g (λ j l. h j (omega arith))

    rest : total n f ≡ total n g
    rest = omega (int_laws, below_n, h n (omega arith), ap pos_part e, ap neg_part e)

    top : f n ≡ g n
    top = omega (int_laws, below_n, h n (omega arith), ap pos_part e, ap neg_part e)

pub update_self {ℓ} : {A : Type ℓ} (f : ℕ → A) (i : ℕ) (x : A) → update f i x i ≡ x
update_self f i x = rw ((==_iff i i).1 refl)

pub update_ne {ℓ} : {A : Type ℓ} (f : ℕ → A) (i j : ℕ) (x : A) → i ≢ j → update f i x j ≡ f j
update_ne f i j x ne = elim (Bool-cases (i == j)) [
  | inl e ↦ absurd (ne ((==_iff i j).0 e))
  | inr e ↦ rw e
]

-- A shard more in the sum
pub total_extend : (k : ℕ) (f : ℕ → ℤ) (x : ℤ) → total (suc k) (update f k x) ≡ total k f +ℤ x
unfolding total
total_extend k f x =
    rw (update_self f k x, total_congr k (update f k x) f (λ i lt. update_ne f k i x (omega arith)))

pub total_next : (k : ℕ) (f : ℕ → ℤ) → total (suc k) f ≡ total k f +ℤ f k
unfolding total
total_next k f = refl
