-- ===== src/CollectorThread/Served.antt =====
-- The loop of `collector_thread_main` in src/collector.rs gets to everybody who waits for it.
use sdarc.Prelude.{
  ℕ, zero, suc, ◌+◌, ◌≡◌, refl, sym, ap, ◌∙◌, ◌⊎◌, inl, inr, Bool, true, false, not, List, [], ◌∷◌,
  Option, some, arith, length,
}
use mathlib.Core.Path.{subst}
use sdarc.Outcome.{Outcome, done}
use sdarc.CollectorThread.{
  starting, updating, notifying, after_update, Event, finished, notified, CollectorThread, is_empty,
  start_iteration, collector_step, collector_step_in,
}
use sdarc.CollectorThread.Waiters.{Each}

-- The caller `n` has its message.
abbrev pub Notified : ℕ → List Event → Type 0
Notified n [] = ⊥
Notified n (notified m ∷ log) = (n ≡ m) ⊎ Notified n log
Notified n (_ ∷ log) = Notified n log

module _ {S : Type 0} (update : Bool → S → Option (Outcome (Bool × S))) where
  -- `k` steps of the collector thread while nobody else acts and no time runs out
  unfoldable pub alone : ℕ → CollectorThread S → CollectorThread S
  alone zero t = t
  alone (suc k) t = alone k (collector_step update false t)

  Notified-alone :
      (n : ℕ) (l : List ℕ) (t : CollectorThread S)
      → t.phase ≡ notifying l
      → Notified n t.log
      → Notified n (alone (length l) t).log
  unfolding alone collector_step collector_step_in
  Notified-alone n [] t e v = v
  Notified-alone n (m ∷ l) t e v =
      let step : collector_step update false t
          ≡ record t { phase = notifying l; log = notified m ∷ t.log } =
        ap (λ p. collector_step_in update p false t) e in
      subst (λ x. Notified n (alone (length l) x).log) (sym step)
        (Notified-alone n l (record t { phase = notifying l; log = notified m ∷ t.log }) refl
          (inr v))

  notifies :
      (l : List ℕ) (t : CollectorThread S)
      → t.phase ≡ notifying l
      → Each (λ n. Notified n (alone (length l) t).log) l
  unfolding alone collector_step collector_step_in
  notifies [] t e = tt
  notifies (m ∷ l) t e =
      let t' : CollectorThread S = record t { phase = notifying l; log = notified m ∷ t.log } in
      let step : collector_step update false t ≡ t' =
        ap (λ p. collector_step_in update p false t) e in
      subst (λ x. Each (λ n. Notified n (alone (length l) x).log) (m ∷ l)) (sym step)
        (Notified-alone m l t' refl (inl refl), notifies l t' refl)

  -- Exactly `k` parts of an update lead from `s` to its end at `s'`.
  pub data Ends (deep : Bool) : ℕ → S → S → Type 0 where
    last : {s s' : S} → update deep s ≡ some (done (true, s')) → Ends deep (suc zero) s s'
    next :
        {k : ℕ} {s s1 s' : S}
        → update deep s ≡ some (done (false, s1))
        → Ends deep k s1 s'
        → Ends deep (suc k) s s'

  alone-+ : (k n : ℕ) (t : CollectorThread S) → alone (k + n) t ≡ alone n (alone k t)
  unfolding alone
  alone-+ zero n t = let same : zero + n ≡ n = omega arith in rw same refl
  alone-+ (suc k) n t =
      let same : suc k + n ≡ suc (k + n) = omega arith in
      rw (same, alone) (alone-+ k n (collector_step update false t))

  state-notifying :
      (l : List ℕ) (t : CollectorThread S)
      → t.phase ≡ notifying l
      → (alone (length l) t).state ≡ t.state
  unfolding alone collector_step collector_step_in
  state-notifying [] t e = refl
  state-notifying (m ∷ l) t e =
      let step : collector_step update false t
          ≡ record t { phase = notifying l; log = notified m ∷ t.log } =
        ap (λ p. collector_step_in update p false t) e in
      ap (λ x. (alone (length l) x).state) step
      ∙ state-notifying l (record t { phase = notifying l; log = notified m ∷ t.log }) refl

  updates_alone :
      (k : ℕ) (waiting : List ℕ) (s' : S) (t : CollectorThread S)
      → t.phase ≡ updating waiting
      → Ends (not (is_empty waiting)) k t.state s'
      → alone k t ≡ record t { phase = notifying waiting; state = s'; log = finished ∷ t.log }
  unfolding alone collector_step collector_step_in
  updates_alone zero waiting s' t e ends = elim ends [ ]
  updates_alone (suc zero) waiting s' t e (last ended) =
      ap (λ p. collector_step_in update p false t) e ∙ ap (λ r. after_update waiting r t) ended
  updates_alone (suc k) waiting s' t e (next {s1 = s1} goes ends) =
      let step : collector_step update false t ≡ record t { state = s1 } =
        ap (λ p. collector_step_in update p false t) e ∙ ap (λ r. after_update waiting r t) goes in
      ap (alone k) step ∙ updates_alone k waiting s' (record t { state = s1 }) e ends

  -- Take a collector thread that starts an iteration, and let nobody else act. If the update, deep
  -- exactly when somebody waits, comes to its end in `k` parts from the state that there is then,
  -- then after the start, these parts and one step for each of those who wait, they have all got
  -- the message, and the state is the one at the end of the update.
  pub starting_serves :
      (k : ℕ) (t : CollectorThread S) (s' : S)
      → t.phase ≡ starting
      → Ends (not (is_empty t.collection_waiting)) k t.state s'
      → let t' = alone (suc k + length t.collection_waiting) t in
        Each (λ n. Notified n t'.log) t.collection_waiting × (t'.state ≡ s')
  unfolding alone collector_step collector_step_in
  starting_serves k t s' e ends =
      let waiting = t.collection_waiting in
      let t1 : CollectorThread S = start_iteration t in
      let t2 : CollectorThread S = record t1 {
        phase = notifying waiting;
        state = s';
        log = finished ∷ t1.log;
      } in
      let first : collector_step update false t ≡ t1 =
        ap (λ p. collector_step_in update p false t) e in
      let there : alone (suc k + length waiting) t ≡ alone (length waiting) t2 =
        alone-+ (suc k) (length waiting) t
        ∙ ap (λ x. alone (length waiting) (alone k x)) first
        ∙ ap (alone (length waiting)) (updates_alone k waiting s' t1 refl ends) in
      rw there (notifies waiting t2 refl, state-notifying waiting t2 refl)
