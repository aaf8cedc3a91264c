-- ===== src/CollectorThread/Waiters.antt =====
-- What `collector_update_now_and_wait` of src/collector.rs promises to its caller: no wake-up is
-- lost, and the message comes after a deep collection that began after the call.
use sdarc.Prelude.{
  ℕ, ◌≡◌, ◌≢◌, refl, ◌⊎◌, inl, inr, Bool, true, false, ◌||◌, not, List, [], ◌∷◌, ◌++◌, Option, none,
  some, Bool-cases,
}
use mathlib.Core.Path.{subst}
use sdarc.Outcome.{Outcome, done, panic}
use sdarc.CollectorThread.{
  Phase, starting, updating, notifying, parked, stopped, Event, requested, started, finished,
  notified, CollectorThread, is_empty, after_update, collector_update_now, collector_step,
  collector_step_in, Step, calls, changes, collects, steps, new_thread,
}

-- `n` has called `collector_update_now_and_wait`.
abbrev pub Requested : ℕ → List Event → Type 0
Requested n [] = ⊥
Requested n (requested m ∷ log) = (n ≡ m) ⊎ Requested n log
Requested n (_ ∷ log) = Requested n log

-- The latest update to start was deep, and it started after `n` had called.
abbrev pub DeepSince : ℕ → List Event → Type 0
DeepSince n [] = ⊥
DeepSince n (started deep ∷ log) = (deep ≡ true) × Requested n log
DeepSince n (requested m ∷ log) = DeepSince n log
DeepSince n (finished ∷ log) = ⊥
DeepSince n (notified m ∷ log) = ⊥

-- The latest update has ended; it was deep and started after `n` had called.
abbrev pub CollectedSince : ℕ → List Event → Type 0
CollectedSince n [] = ⊥
CollectedSince n (finished ∷ log) = DeepSince n log
CollectedSince n (requested m ∷ log) = CollectedSince n log
CollectedSince n (notified m ∷ log) = CollectedSince n log
CollectedSince n (started deep ∷ log) = ⊥

-- Whoever was notified had called before a deep collection that has ended.
abbrev pub AllServed : List Event → Type 0
AllServed [] = Unit
AllServed (notified n ∷ log) = CollectedSince n log × AllServed log
AllServed (_ ∷ log) = AllServed log

abbrev pub Each : (ℕ → Type 0) → List ℕ → Type 0
Each P [] = Unit
Each P (n ∷ rest) = P n × Each P rest

Each-map : (P Q : ℕ → Type 0) (l : List ℕ) → ((n : ℕ) → P n → Q n) → Each P l → Each Q l
Each-map P Q [] f v = tt
Each-map P Q (n ∷ rest) f v = (f n v.0, Each-map P Q rest f v.1)

Each-append : (P : ℕ → Type 0) (l : List ℕ) (n : ℕ) → Each P l → P n → Each P (l ++ n ∷ [])
Each-append P [] n v p = (p, tt)
Each-append P (m ∷ rest) n v p = (v.0, Each-append P rest n v.1 p)

-- What is known of the senders that the loop has taken
abbrev pub Holds : Phase → List Event → Type 0
Holds starting log = Unit
Holds (updating l) log = Each (λ n. DeepSince n log) l
Holds (notifying l) log = Each (λ n. CollectedSince n log) l
Holds parked log = Unit
Holds stopped log = Unit

-- Nobody waits while the thread can stay parked.
abbrev pub Awake : Phase → Bool → List ℕ → Type 0
Awake starting token waiting = Unit
Awake _ token waiting = (token ≡ true) ⊎ (waiting ≡ [])

Holds-requested :
    (phase : Phase) (n : ℕ) (log : List Event) → Holds phase log → Holds phase (requested n ∷ log)
Holds-requested starting n log v = tt
Holds-requested (updating l) n log v = v
Holds-requested (notifying l) n log v = v
Holds-requested parked n log v = tt
Holds-requested stopped n log v = tt

Awake-token : (phase : Phase) (waiting : List ℕ) → Awake phase true waiting
Awake-token starting waiting = tt
Awake-token (updating l) waiting = inl refl
Awake-token (notifying l) waiting = inl refl
Awake-token parked waiting = inl refl
Awake-token stopped waiting = inl refl

DeepSince-started :
    (waiting : List ℕ) (log : List Event)
    → Each (λ n. Requested n log) waiting
    → Each (λ n. DeepSince n (started (not (is_empty waiting)) ∷ log)) waiting
DeepSince-started [] log v = tt
DeepSince-started (n ∷ rest) log v =
    Each-map (λ m. Requested m log) (λ m. DeepSince m (started true ∷ log)) (n ∷ rest)
      (λ m r. (refl, r)) v

module _ {S : Type 0} where
  pub record IsServing (t : CollectorThread S) : Type 0 where
    pub served : AllServed t.log
    pub waiting : Each (λ n. Requested n t.log) t.collection_waiting
    pub holds : Holds t.phase t.log
    pub awake : Awake t.phase t.token t.collection_waiting

  collector_update_now-IsServing :
      (n : ℕ) (t : CollectorThread S) → IsServing t → IsServing (collector_update_now n t)
  unfolding collector_update_now
  collector_update_now-IsServing n t v = record {
    served = v.served;
    waiting =
        Each-append (λ m. Requested m (requested n ∷ t.log)) t.collection_waiting n
          (Each-map (λ m. Requested m t.log) (λ m. Requested m (requested n ∷ t.log))
            t.collection_waiting (λ m r. inr r) v.waiting)
          (inl refl);
    holds = Holds-requested t.phase n t.log v.holds;
    awake = Awake-token t.phase _;
  }

  after_update-IsServing :
      (l : List ℕ) (result : Option (Outcome (Bool × S))) (t : CollectorThread S)
      → t.phase ≡ updating l
      → IsServing t
      → IsServing (after_update l result t)
  after_update-IsServing l (some (done (false, s))) t e v = record {
    served = v.served;
    waiting = v.waiting;
    holds = v.holds;
    awake = v.awake;
  }
  after_update-IsServing l (some (done (true, s))) t e v = record {
    served = v.served;
    waiting = v.waiting;
    holds = subst (λ p. Holds p t.log) e v.holds;
    awake = subst (λ p. Awake p t.token t.collection_waiting) e v.awake;
  }
  after_update-IsServing l (some panic) t e v = record {
    served = v.served;
    waiting = v.waiting;
    holds = tt;
    awake = subst (λ p. Awake p t.token t.collection_waiting) e v.awake;
  }
  after_update-IsServing l none t e v = v

  collector_step_in-IsServing :
      (update : Bool → S → Option (Outcome (Bool × S))) (phase : Phase) (timeout : Bool)
      (t : CollectorThread S)
      → t.phase ≡ phase
      → IsServing t
      → IsServing (collector_step_in update phase timeout t)
  unfolding collector_step_in
  collector_step_in-IsServing update starting timeout t e v = record {
    served = v.served;
    waiting = tt;
    holds = DeepSince-started t.collection_waiting t.log v.waiting;
    awake = inr refl;
  }
  collector_step_in-IsServing update (updating l) timeout t e v =
      after_update-IsServing l (update (not (is_empty l)) t.state) t e v
  collector_step_in-IsServing update (notifying (n ∷ l)) timeout t e v =
      let holds : Each (λ m. CollectedSince m t.log) (n ∷ l) =
        subst (λ p. Holds p t.log) e v.holds in
      let awake : Awake (notifying (n ∷ l)) t.token t.collection_waiting =
        subst (λ p. Awake p t.token t.collection_waiting) e v.awake in
      record { served = (holds.0, v.served); waiting = v.waiting; holds = holds.1; awake = awake }
  collector_step_in-IsServing update (notifying []) timeout t e v = record {
    served = v.served;
    waiting = v.waiting;
    holds = tt;
    awake = subst (λ p. Awake p t.token t.collection_waiting) e v.awake;
  }
  collector_step_in-IsServing update parked timeout t e v = elim (Bool-cases (t.token || timeout)) [
    | inl wakes ↦
        rw wakes (record { served = v.served; waiting = v.waiting; holds = tt; awake = tt })
    | inr stays ↦ rw stays v
  ]
  collector_step_in-IsServing update stopped timeout t e v = v

  steps-IsServing :
      (update : Bool → S → Option (Outcome (Bool × S))) (acts : List (Step update))
      (t : CollectorThread S)
      → IsServing t
      → IsServing (steps update acts t)
  unfolding steps
  steps-IsServing update [] t v = v
  steps-IsServing update (calls n ∷ rest) t v =
      steps-IsServing update rest _ (collector_update_now-IsServing n t v)
  steps-IsServing update (changes f ∷ rest) t v =
      steps-IsServing update rest _
        (record { served = v.served; waiting = v.waiting; holds = v.holds; awake = v.awake })
  steps-IsServing update (collects timeout ∷ rest) t v =
      steps-IsServing update rest _ (collector_step_in-IsServing update t.phase timeout t refl v)

  new_thread-IsServing : (s : S) → IsServing (new_thread s)
  new_thread-IsServing s = record { served = tt; waiting = tt; holds = tt; awake = tt }

  -- Whatever the threads do, in any order: when the collector is parked while somebody waits for a
  -- collection, it does not stay parked, since the token makes `park_timeout` return.
  pub steps-awake :
      (update : Bool → S → Option (Outcome (Bool × S))) (acts : List (Step update)) (s : S)
      → let t = steps update acts (new_thread s) in
        t.phase ≡ parked
        → t.collection_waiting ≢ []
        → (collector_step update false t).phase ≡ starting
  unfolding collector_step
  steps-awake update acts s e waits =
      elim (subst (λ p. Awake p t.token t.collection_waiting) e v.awake) [
        | inl has_token ↦ rw (e, has_token) refl
        | inr nobody ↦ absurd (waits nobody)
      ]
    where
      t : CollectorThread S
      t = steps update acts (new_thread s)

      v : IsServing t
      v = steps-IsServing update acts (new_thread s) (new_thread-IsServing s)
