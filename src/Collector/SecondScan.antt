-- ===== src/Collector/SecondScan.antt =====
-- What a scan that sees no tag says together with the scan before it: a counter that counts the same
-- in both has not gone down in between.
use sdarc.Prelude.{
  ℕ, zero, suc, ◌+◌, ◌≤◌, ◌<◌, ◌≡◌, refl, sym, ap, ◌∙◌, inl, inr, false, arith, ◌==◌, ==_iff,
  Bool-cases, some,
}
use sdarc.Prelude.Int.{ℤ, ◌+ℤ◌, ◌≤ℤ◌}
use mathlib.Core.Option.{some-injective}
use sdarc.Object.{Object, Config, update}
use sdarc.Object.Totals.{total, total_extend, update_self, update_ne}
use sdarc.Collector.{Run, tick, check_from}
use sdarc.Collector.Schedule.{PlainFuture, IsBalanced}
use sdarc.Collector.Scan.{AtLeast, IsClean, Since, tick-Since}

module _ (c : Config) where
  -- What a scan that saw no tag says, over the counts `base` of the scan before it: its own counts
  -- are at least those, and a shard that counts the same was clean when this scan began.
  pub record Checked (base prior : ℕ → ℤ) (k : ℕ) (start : Object) (sum : ℤ) (r : Run)
      : Type 0 where
    pub found : ℕ → ℤ
    pub summed : total c.shards found ≡ sum
    pub above : (i : ℕ) → i < c.shards → AtLeast (found i) (r.object.cell i)
    pub grown : (i : ℕ) → i < c.shards → base i ≤ℤ found i
    pub kept : (i : ℕ) → i < k → found i ≡ prior i
    pub clean : (i : ℕ) → k ≤ i → i < c.shards → found i ≡ base i → IsClean (base i) (start.cell i)

  -- The state of the scan before shard `k`
  pub record Checking (base found : ℕ → ℤ) (k : ℕ) (sum : ℤ) (r : Run) : Type 0 where
    pub summed : total k found ≡ sum
    pub balanced : IsBalanced c r.object
    pub before : (i : ℕ) → i < c.shards → AtLeast (base i) (r.object.cell i)
    pub above : (i : ℕ) → i < k → AtLeast (found i) (r.object.cell i)
    pub grown : (i : ℕ) → i < k → base i ≤ℤ found i
    pub plain : PlainFuture r.future

  Checking-tick :
      (base found : ℕ → ℤ) (k : ℕ) (sum : ℤ) (r : Run)
      → Checking base found k sum r
      → Checking base found k sum (tick c r) × Since c c.shards base r.object (tick c r).object
  Checking-tick base found k sum r v = (
    record {
      summed = v.summed;
      balanced = old.0.balanced;
      before = old.0.above;
      above = own.0.above;
      grown = v.grown;
      plain = old.1;
    },
    old.0,
  )
    where
      old : Since c c.shards base r.object (tick c r).object × PlainFuture (tick c r).future
      old = tick-Since c c.shards base r.object r v.plain (record {
        balanced = v.balanced;
        above = v.before;
        back = λ i lt x. x;
        not_live = λ x. x;
      })

      own : Since c k found r.object (tick c r).object × PlainFuture (tick c r).future
      own =
          tick-Since c k found r.object r v.plain (record {
            balanced = v.balanced;
            above = v.above;
            back = λ i lt x. x;
            not_live = λ x. x;
          })

  Checking-read :
      (base found : ℕ → ℤ) (k : ℕ) (sum : ℤ) (r : Run)
      → k < c.shards
      → (r.object.cell k).tag ≡ false
      → Checking base found k sum r
      → Checking base
          (update found k (r.object.cell k).count)
          (suc k)
          (sum +ℤ (r.object.cell k).count)
          r
  Checking-read base found k sum r lt untagged v = record {
    summed = total_extend k found _ ∙ ap (λ x. x +ℤ (r.object.cell k).count) v.summed;
    balanced = v.balanced;
    before = v.before;
    above = λ i l. read_AtLeast i l;
    grown = λ i l. read_grown i l;
    plain = v.plain;
  }
    where
      now : ℕ → ℤ
      now = update found k (r.object.cell k).count

      read_AtLeast : (i : ℕ) → i < suc k → AtLeast (now i) (r.object.cell i)
      read_AtLeast i l = elim (Bool-cases (k == i)) [
        | inl e ↦ rw (e, (==_iff k i).0 e) (inr (omega arith))
        | inr e ↦ rw e (v.above i (ground arith))
      ]

      at_k : base k ≤ℤ (r.object.cell k).count
      at_k = elim (v.before k lt) [ inl set ↦ cc | inr le ↦ le ]

      read_grown : (i : ℕ) → i < suc k → base i ≤ℤ now i
      read_grown i l = elim (Bool-cases (k == i)) [
        | inl e ↦ rw (e, ← (==_iff k i).0 e) at_k
        | inr e ↦ rw e (v.grown i (ground arith))
      ]

  -- One shard that shows no tag, and then the rest of the scan
  Checked-cons :
      (base found : ℕ → ℤ) (k : ℕ) (start : Object) (sum : ℤ) (r' end : Run)
      → Since c c.shards base start r'.object
      → k < c.shards
      → (r'.object.cell k).tag ≡ false
      → Checked base (update found k (r'.object.cell k).count) (suc k) r'.object sum end
      → Checked base found k start sum end
  Checked-cons base found k start sum r' end since lt untagged w = record {
    found = w.found;
    summed = w.summed;
    above = w.above;
    grown = w.grown;
    kept = λ i l. w.kept i (omega arith) ∙ update_ne found k i _ (omega arith);
    clean = λ i le l e. since.back i l (at_read i le l e);
  }
    where
      at_read :
          (i : ℕ) → k ≤ i → i < c.shards → w.found i ≡ base i → IsClean (base i) (r'.object.cell i)
      at_read i le l e = elim (Bool-cases (k == i)) [
        | inl here ↦
            let at : k ≡ i = (==_iff k i).0 here in
            rw (← at) (untagged, sym (w.kept k (omega arith) ∙ update_self found k _) ∙ rw at e)
        | inr there ↦ w.clean i (ground arith) l e
      ]

  pub check_from-Checked :
      (rest k : ℕ) (base found : ℕ → ℤ) (sum : ℤ) (r : Run) {s : ℤ}
      → k + rest ≡ c.shards
      → Checking base found k sum r
      → (check_from c rest k sum r).0 ≡ some s
      → Checked base found k r.object s (check_from c rest k sum r).1
  unfolding check_from
  check_from-Checked zero k base found sum r e v h =
      let whole : c.shards ≡ k = omega arith in
      record {
        found = found;
        summed = rw whole (v.summed ∙ some-injective _ _ h);
        above = λ i l. v.above i (omega arith);
        grown = λ i l. v.grown i (omega arith);
        kept = λ i l. refl;
        clean = λ i le l _. absurd (omega arith);
      }
  check_from-Checked (suc rest) k base found sum r {s} e v h =
      elim (Bool-cases ((tick c r).object.cell k).tag) [
        | inl tagged ↦ cc (rw tagged at h)
        | inr untagged ↦
            let w = Checking-tick base found k sum r v in
            rw untagged (
              Checked-cons base found k r.object s (tick c r) _ w.1 (omega arith) untagged (
                check_from-Checked rest (suc k) base _ _ (tick c r) (omega arith)
                  (Checking-read base found k sum (tick c r) (omega arith) untagged w.0)
                  (rw untagged at h)))
      ]
