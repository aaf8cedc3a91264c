-- ===== src/Collector/Scan.antt =====
-- What a scan of the counters says from then on: a shard that it has read does not fall below what
-- was read with its tag clear.
use sdarc.Prelude.{
  ℕ, zero, suc, ◌+◌, ◌<◌, ◌≡◌, refl, ap, ◌∙◌, ◌⊎◌, inl, inr, true, false, arith, ◌==◌, ==_iff,
  Bool-cases,
}
use sdarc.Prelude.Int.{ℤ, pos_part, neg_part, ◌+ℤ◌, ◌≤ℤ◌, int_laws}
use sdarc.Cell
use sdarc.Cell.{Cell}
use sdarc.Object.{Object, Action, Config, apply, update, is_live}
use sdarc.Object.Totals.{total, total_extend, total_congr}
use sdarc.Object.Accounts.{CellStep, apply-Steps, Plain}
use sdarc.Object.Quiet.{apply-live}
use sdarc.Collector.{Run, tick, sum_from, clear_from, check_from, untagged_at}
use sdarc.Collector.Schedule.{PlainFuture, IsBalanced, apply-IsBalanced, tick_keeps}

-- The shard has its tag set or counts at least `a`.
abbrev pub AtLeast : ℤ → Cell → Type 0
AtLeast a x = (x.tag ≡ true) ⊎ (a ≤ℤ x.count)

-- The shard shows no tag and counts `a`.
abbrev pub IsClean : ℤ → Cell → Type 0
IsClean a x = (x.tag ≡ false) × (x.count ≡ a)

pub CellStep-AtLeast : (a : ℤ) {x y : Cell} → CellStep x y → AtLeast a x → AtLeast a y
CellStep-AtLeast a (inl e) h = rw e h
CellStep-AtLeast a (inr (inl e)) (inl h) = rw e (inl h)
CellStep-AtLeast a (inr (inl e)) (inr h) = rw e (inr (omega int_laws))
CellStep-AtLeast a (inr (inr e)) h = rw e (inl refl)

-- A shard that is clean now was clean before.
pub CellStep-IsClean : (a : ℤ) {x y : Cell} → CellStep x y → AtLeast a x → IsClean a y → IsClean a x
CellStep-IsClean a (inl e) h v = rw (← e) v
CellStep-IsClean a {x} {y} (inr (inl e)) h v = risen h (rw e at v)
  where
    risen : AtLeast a x → IsClean a (Cell.increment x) → IsClean a x
    risen (inl set) u = cc (set, u.0)
    risen (inr le) u = absurd (omega (int_laws, le, ap pos_part u.1, ap neg_part u.1))
CellStep-IsClean a {x} {y} (inr (inr e)) h v = fallen (rw e at v)
  where
    fallen : IsClean a (Cell.decrement x) → IsClean a x
    fallen u = cc (u.0)

-- Since a scan that found `a` in the first `k` shards, at `start`, up to now, at `o`.
pub record Since (c : Config) (k : ℕ) (a : ℕ → ℤ) (start o : Object) : Type 0 where
  pub balanced : IsBalanced c o
  pub above : (i : ℕ) → i < k → AtLeast (a i) (o.cell i)
  pub back : (i : ℕ) → i < k → IsClean (a i) (o.cell i) → IsClean (a i) (start.cell i)
  pub not_live : is_live o.weak ≡ false → is_live start.weak ≡ false

pub untagged_count : (k j : ℕ) (o : Object) → ((untagged_at k o).cell j).count ≡ (o.cell j).count
untagged_count k j o = elim (Bool-cases (k == j)) [
  | inl e ↦ rw (e, (==_iff k j).0 e)
  | inr e ↦ rw e
]

module _ (c : Config) where
  pub apply-Since :
      (k : ℕ) (a : ℕ → ℤ) (start : Object) (act : Action) (o : Object)
      → Plain act
      → Since c k a start o
      → Since c k a start (apply c act o)
  apply-Since k a start act o p v = record {
    balanced = apply-IsBalanced c act o p v.balanced;
    above = λ i lt. CellStep-AtLeast (a i) ((apply-Steps c act o).cell i) (v.above i lt);
    back = λ i lt clean.
        v.back i lt (CellStep-IsClean (a i) ((apply-Steps c act o).cell i) (v.above i lt) clean);
    not_live = λ e. v.not_live (apply-live c act o e);
  }

  pub tick-Since :
      (k : ℕ) (a : ℕ → ℤ) (start : Object) (r : Run)
      → PlainFuture r.future
      → Since c k a start r.object
      → Since c k a start (tick c r).object × PlainFuture (tick c r).future
  tick-Since k a start = tick_keeps c (Since c k a start) (apply-Since k a start)

  -- The sum of a scan that clears the tags is that of counts which no shard falls below with its
  -- tag clear.
  pub record Cleared (sum : ℤ) (r : Run) : Type 0 where
    pub base : ℕ → ℤ
    pub summed : total c.shards base ≡ sum
    pub balanced : IsBalanced c r.object
    pub above : (i : ℕ) → i < c.shards → AtLeast (base i) (r.object.cell i)
    pub plain : PlainFuture r.future

  -- The state of the scan before shard `k`
  pub record Clearing (k : ℕ) (base : ℕ → ℤ) (sum : ℤ) (r : Run) : Type 0 where
    pub summed : total k base ≡ sum
    pub balanced : IsBalanced c r.object
    pub above : (i : ℕ) → i < k → AtLeast (base i) (r.object.cell i)
    pub plain : PlainFuture r.future

  Clearing-tick :
      (k : ℕ) (base : ℕ → ℤ) (sum : ℤ) (r : Run)
      → Clearing k base sum r
      → Clearing k base sum (tick c r)
  Clearing-tick k base sum r v = record {
    summed = v.summed;
    balanced = w.0.balanced;
    above = w.0.above;
    plain = w.1;
  }
    where
      w : Since c k base r.object (tick c r).object × PlainFuture (tick c r).future
      w =
          tick-Since k base r.object r v.plain (record {
            balanced = v.balanced;
            above = v.above;
            back = λ i lt x. x;
            not_live = λ x. x;
          })

  untagged_AtLeast :
      (k i : ℕ) (base : ℕ → ℤ) (o : Object)
      → (i < k → AtLeast (base i) (o.cell i))
      → i < suc k
      → AtLeast (update base k (o.cell k).count i) ((untagged_at k o).cell i)
  untagged_AtLeast k i base o h lt = elim (Bool-cases (k == i)) [
    | inl e ↦ rw e (inr (omega arith))
    | inr e ↦ rw e (h (ground arith))
  ]

  Clearing-clear :
      (k : ℕ) (base : ℕ → ℤ) (sum : ℤ) (r : Run)
      → Clearing k base sum r
      → Clearing
          (suc k)
          (update base k (r.object.cell k).count)
          (sum +ℤ (r.object.cell k).count)
          (record r { object = untagged_at k r.object })
  Clearing-clear k base sum r v = record {
    summed = total_extend k base _ ∙ ap (λ x. x +ℤ (r.object.cell k).count) v.summed;
    balanced = record {
      accounted =
          total_congr c.shards _ _ (λ j _. untagged_count k j r.object) ∙ v.balanced.accounted;
      none_pinned = record { none_pinned = v.balanced.none_pinned.none_pinned };
    };
    above = λ i lt. untagged_AtLeast k i base r.object (λ l. v.above i l) lt;
    plain = v.plain;
  }

  pub clear_from-Cleared :
      (rest k : ℕ) (base : ℕ → ℤ) (sum : ℤ) (r : Run)
      → k + rest ≡ c.shards
      → Clearing k base sum r
      → let (s, r') = clear_from c rest k sum r in Cleared s r'
  unfolding clear_from
  clear_from-Cleared zero k base sum r e v =
      let whole : c.shards ≡ k = omega arith in
      record {
        base = base;
        summed = rw whole v.summed;
        balanced = v.balanced;
        above = λ i lt. v.above i (omega arith);
        plain = v.plain;
      }
  clear_from-Cleared (suc rest) k base sum r e v =
      clear_from-Cleared rest (suc k) _ _ _ (omega arith)
        (Clearing-clear k base sum _ (Clearing-tick k base sum r v))

  -- What the others keep true, a scan keeps true that only reads.
  module _ {ℓ} (P : Object → Type ℓ)
      (keeps : (a : Action) (o : Object) → Plain a → P o → P (apply c a o)) where
    pub check_from_keeps :
        (rest k : ℕ) (sum : ℤ) (r : Run)
        → PlainFuture r.future
        → P r.object
        → P (check_from c rest k sum r).1.object × PlainFuture (check_from c rest k sum r).1.future
    unfolding check_from
    check_from_keeps zero k sum r p v = (v, p)
    check_from_keeps (suc rest) k sum r p v =
        let w = tick_keeps c P keeps r p v in
        elim (Bool-cases ((tick c r).object.cell k).tag) [
          | inl tagged ↦ rw tagged w
          | inr untagged ↦ rw untagged (check_from_keeps rest (suc k) _ (tick c r) w.1 w.0)
        ]

    pub sum_from_keeps :
        (rest k : ℕ) (sum : ℤ) (r : Run)
        → PlainFuture r.future
        → P r.object
        → P (sum_from c rest k sum r).1.object × PlainFuture (sum_from c rest k sum r).1.future
    unfolding sum_from
    sum_from_keeps zero k sum r p v = (v, p)
    sum_from_keeps (suc rest) k sum r p v =
        let w = tick_keeps c P keeps r p v in sum_from_keeps rest (suc k) _ (tick c r) w.1 w.0
