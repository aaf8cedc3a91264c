-- ===== src/ShardedAlloc/Unwind.antt =====
-- What `AllocUnit::allocate_and_initialize` of src/sharded_alloc.rs leaves in memory, whether the
-- caller's `init_func` returns or panics.
use sdarc.Prelude.{
  ℕ, zero, suc, ◌+◌, ◌≤◌, ◌<◌, ◌≡◌, ◌≢◌, refl, sym, ap, ◌∙◌, ◌⊎◌, inl, inr, Bool, true, false,
  Bool-cases, Option, none, some, arith, ◌==◌, ==_iff, get_elem?, Option-cases, set, if◌then◌else◌,
}
use sdarc.Outcome.{done, ◌>>=◌}
use sdarc.ShardedAlloc.{
  AllocUnit, ShardedDataPtr, Memory, Attempted, full, allocated, unwound, store, ptr_at_shard,
  with_flags, count_flags, drop_from, write_from, initialize, allocate_and_initialize,
  deallocate_without_dropping,
}
use sdarc.ShardedAlloc.Address.{slot_ptr}
use sdarc.ShardedAlloc.Usage.{
  IsValidUnit, IsFirstFree, allocate_without_initializing-IsFirstFree, release_taken,
}

module _ {V : Type 0} where
  -- No word of a free slot has a live value.
  abbrev pub FreeSlotsEmpty : AllocUnit → Memory V → Type 0
  FreeSlotsEmpty unit memory =
      (i k : ℕ)
      → get_elem? unit.usage_flags i ≡ some 0
      → memory (ptr_at_shard (slot_ptr unit.data_ptr i) k) ≡ none

  module _ (ptr : ShardedDataPtr) (start : Memory V) where
    -- Only the words of `ptr` at the shards from `k` to `n` may differ from the start.
    unfoldable pub Touched : ℕ → ℕ → Memory V → Type 0
    Touched k n memory =
        (a : ℕ) → (memory a ≡ start a) ⊎ ((j : ℕ) × (k ≤ j) × (j < n) × (a ≡ ptr_at_shard ptr j))

    drop_from-restores :
        (rest k : ℕ) (memory : Memory V)
        → ((j : ℕ) → start (ptr_at_shard ptr j) ≡ none)
        → Touched k (k + rest) memory
        → (a : ℕ) → drop_from rest k ptr memory a ≡ start a
    unfolding drop_from Touched
    drop_from-restores zero k memory clean t a = elim (t a) [
      | inl same ↦ same
      | inr (j, above, below, e) ↦ absurd (omega arith)
    ]
    drop_from-restores (suc rest) k memory clean t a =
        drop_from-restores rest (suc k) _ clean
          (λ a. elim (Bool-cases (ptr_at_shard ptr k == a)) [
            | inl here ↦
                let e : ptr_at_shard ptr k ≡ a = (==_iff _ a).0 here in
                inl (rw here (sym (clean k) ∙ ap start e))
            | inr there ↦ elim (t a) [
              | inl same ↦ inl (rw there same)
              | inr (j, above, below, e) ↦ inr (j, ground arith, omega arith, e)
            ]
          ])
          a

    module _ (init_func : ℕ → Option V) where
      unfoldable pub Filled : ℕ → Memory V → Type 0
      Filled n memory = (j : ℕ) → j < n → memory (ptr_at_shard ptr j) ≡ init_func j

      Wrote : ℕ → Bool × Memory V → Type 0
      Wrote n (true, memory) = Touched 0 n memory × Filled n memory
      Wrote n (false, memory) = (a : ℕ) → memory a ≡ start a

      Touched-start : Touched 0 0 start
      unfolding Touched
      Touched-start a = inl refl

      Filled-start : Filled 0 start
      unfolding Filled
      Filled-start j lt = absurd (omega arith)

      Touched-store :
          (k : ℕ) (memory : Memory V) (value : Option V)
          → Touched 0 k memory
          → Touched 0 (suc k) (store memory (ptr_at_shard ptr k) value)
      unfolding Touched
      Touched-store k memory value t a = elim (Bool-cases (ptr_at_shard ptr k == a)) [
        | inl here ↦ inr (k, omega arith, omega arith, sym ((==_iff _ a).0 here))
        | inr there ↦ elim (t a) [
          | inl same ↦ inl (rw there same)
          | inr (j, above, below, e) ↦ inr (j, above, omega arith, e)
        ]
      ]

      Filled-store :
          (k : ℕ) (memory : Memory V)
          → Filled k memory
          → Filled (suc k) (store memory (ptr_at_shard ptr k) (init_func k))
      unfolding Filled
      Filled-store k memory f j lt = elim (Bool-cases (ptr_at_shard ptr k == ptr_at_shard ptr j)) [
        | inl here ↦
            let e : ptr_at_shard ptr k ≡ ptr_at_shard ptr j = (==_iff _ _).0 here in
            let same : k ≡ j = omega arith in rw here (ap init_func same)
        | inr there ↦ let ne : k ≢ j = λ e. ground arith in rw there (f j (omega arith))
      ]

      write_from-Wrote :
          (n rest k : ℕ) (memory : Memory V)
          → k + rest ≡ n
          → ((j : ℕ) → start (ptr_at_shard ptr j) ≡ none)
          → Touched 0 k memory
          → Filled k memory
          → Wrote n (write_from n init_func rest k ptr memory)
      unfolding write_from Wrote
      write_from-Wrote n zero k memory e clean t f =
          let whole : k ≡ n = omega arith in rw (← whole) (t, f)
      write_from-Wrote n (suc rest) k memory e clean t f = elim (Option-cases (init_func k)) [
        | inl panics ↦
            let all : 0 + k ≡ k = omega arith in
            rw (panics, write_from, Wrote) (drop_from-restores k 0 memory clean (rw all t))
        | inr (value, gives) ↦
            rw (gives, write_from)
              (write_from-Wrote n rest (suc k) _ (omega arith) clean (Touched-store k memory _ t)
                (rw (← gives) (Filled-store k memory f)))
      ]

  module _ (n : ℕ) (init_func : ℕ → Option V) (unit : AllocUnit) (memory : Memory V) where
    -- What an attempt may come to: no slot was free and nothing has changed; or the first free
    -- slot is taken, each of its words has the value of its shard and no other word has changed;
    -- or `init_func` has panicked, the unit is as before and so is every word.
    abbrev pub Settled : Attempted V → Type 0
    Settled (full unit' memory') =
        (count_flags 0 unit.usage_flags ≡ 0) × (unit' ≡ unit) × (memory' ≡ memory)
    Settled (allocated ptr unit' memory') =
        (i : ℕ) × IsFirstFree i unit.usage_flags
        × (ptr ≡ slot_ptr unit.data_ptr i)
        × (unit' ≡ with_flags unit (set unit.usage_flags i 1))
        × Touched ptr memory 0 n memory'
        × Filled ptr memory init_func n memory'
    Settled (unwound unit' memory') = (unit' ≡ unit) × ((a : ℕ) → memory' a ≡ memory a)

    written-Settled :
        (i : ℕ) (w : Bool × Memory V)
        → IsFirstFree i unit.usage_flags
        → Wrote (slot_ptr unit.data_ptr i) memory init_func n w
        → (a : Attempted V) × ((if w.0
              then done (
                  allocated
                    (slot_ptr unit.data_ptr i)
                    (with_flags unit (set unit.usage_flags i 1))
                    w.1)
              else (deallocate_without_dropping
                    (slot_ptr unit.data_ptr i)
                    (with_flags unit (set unit.usage_flags i 1))
                  >>= λ unit'. done (unwound unit' w.1)))
            ≡ done a)
          × Settled a
    unfolding Wrote
    written-Settled i (true, memory') first (t, f) = (_, refl, (i, first, refl, refl, t, f))
    written-Settled i (false, memory') first restored =
        (unwound unit memory', rw (release_taken unit i first.free) refl, (refl, restored))

    -- On a valid unit with no live value in a free slot, an attempt does not fail an assertion, and
    -- its result is settled: full, allocated or unwound as above.
    pub allocate_and_initialize-Settled :
        IsValidUnit unit
        → FreeSlotsEmpty unit memory
        → (a : Attempted V) × (allocate_and_initialize n init_func unit memory ≡ done a) × Settled a
    unfolding allocate_and_initialize initialize
    allocate_and_initialize-Settled v clean =
        elim (allocate_without_initializing-IsFirstFree unit v) [
          | inl (i, first, found) ↦
              let (a, e, settled) =
                written-Settled i (write_from n init_func n 0 (slot_ptr unit.data_ptr i) memory)
                  first
                  (write_from-Wrote (slot_ptr unit.data_ptr i) memory init_func n n 0 memory
                    (omega arith) (λ j. clean i j first.free)
                    (Touched-start (slot_ptr unit.data_ptr i) memory init_func)
                    (Filled-start (slot_ptr unit.data_ptr i) memory init_func)) in
              (a, rw found e, settled)
          | inr (missed, none_free) ↦ (full unit memory, rw missed refl, (none_free, refl, refl))
        ]
