-- ===== src/AtomicSdarc/Counted.antt =====
-- The counters of src/sdarc.rs under the operations of src/atomic_sdarc.rs: each object's counters
-- add up to the `Sdarc`s of it that the program holds, with the one in the atomic pointer.
use sdarc.Prelude.{
  ℕ, zero, suc, ◌+◌, ◌<◌, ◌≤◌, ◌≡◌, ◌≢◌, refl, sym, ap, ◌∙◌, inl, inr, Bool, true, false, ◌&&◌,
  Bool-cases, List, [], ◌∷◌, Option, none, some, arith, ltb, ◌==◌, ==_iff,
}
use sdarc.Prelude.Int.{ℤ, pos, ◌+ℤ◌, int_laws}
use sdarc.Cell.{Cell}
use sdarc.Object.Accounts.{guarded}
use sdarc.Object.Totals.{total, total-zero, total_next}
use sdarc.AtomicSdarc.{
  clone_sdarc, drop_sdarc, drop_option, nullable_from_raw_ptr, nullable_into_raw_ptr,
  load_atomic_ptr_owned, estimate_from, estimate_strong_count, swap, store, raw_compare_and_set,
  compare_and_set, count_set, sync_to,
}
use sdarc.AtomicSdarc.Counts.{
  bit, owns, strong_count, strong_count-clone_sdarc, strong_count-drop_sdarc,
  strong_count-drop_option, strong_count-load,
}
use sdarc.AtomicSdarc.Program.{
  World, Op, clones, drops, loads, swaps, stores, compares, syncs, holds, given, taken,
  after_exchange, run, run_all,
}

module _ (shards : ℕ) where
  -- The counters of each object add up to its `Sdarc`s.
  abbrev pub IsCounted : World → Type 0
  IsCounted w =
      (p : ℕ) → p ≢ 0 → strong_count shards p w.memory ≡ pos (w.held p + bit (w.inner_ptr == p))

  pub owns-held : (w : World) (o : Option ℕ) (p : ℕ) → holds w o ≡ true → owns o p ≤ w.held p
  owns-held w none p h = omega arith
  owns-held w (some q) p h = elim (Bool-cases (q == p)) [
    | inl here ↦
        let same : q ≡ p = (==_iff q p).0 here in
        let some_held : 0 < w.held q = ground arith in rw here (omega (arith, ap w.held same))
    | inr there ↦ rw there (omega arith)
  ]

  pub owns-from : (ptr p : ℕ) → p ≢ 0 → owns (nullable_from_raw_ptr ptr) p ≡ bit (ptr == p)
  owns-from ptr p ne = elim (Bool-cases (ptr == 0)) [
    | inl null ↦ let other : (ptr == p) ≡ false = ground arith in rw (null, other) refl
    | inr something ↦ rw something refl
  ]

  pub owns-into : (o : Option ℕ) (p : ℕ) → p ≢ 0 → bit (nullable_into_raw_ptr o == p) ≡ owns o p
  owns-into none p ne = let other : (0 == p) ≡ false = ground arith in rw other refl
  owns-into (some q) p ne = refl

  pub both : (a b : Bool) → (a && b) ≡ true → (a ≡ true) × (b ≡ true)
  both true b h = (refl, h)
  both false b h = cc

  clones-IsCounted :
      (i q : ℕ) (w : World)
      → i < shards
      → IsCounted w
      → IsCounted (record w { memory = clone_sdarc i q w.memory; held = given (some q) w.held })
  clones-IsCounted i q w lt v p ne =
      strong_count-clone_sdarc shards i q p w.memory lt ∙ rw (v p ne) (omega int_laws)

  drops-IsCounted :
      (i q : ℕ) (w : World)
      → i < shards
      → holds w (some q) ≡ true
      → IsCounted w
      → IsCounted (record w { memory = drop_sdarc i q w.memory; held = taken (some q) w.held })
  drops-IsCounted i q w lt h v p ne =
      let enough = owns-held w (some q) p h in
      strong_count-drop_sdarc shards i q p w.memory lt ∙ rw (v p ne) (omega (int_laws, enough))

  swaps-IsCounted :
      (sdarc : Option ℕ) (w : World)
      → holds w sdarc ≡ true
      → IsCounted w
      → IsCounted (record w {
        inner_ptr = nullable_into_raw_ptr sdarc;
        held = given (nullable_from_raw_ptr w.inner_ptr) (taken sdarc w.held);
      })
  swaps-IsCounted sdarc w h v p ne =
      let enough = owns-held w sdarc p h in
      let old = owns-from w.inner_ptr p ne in
      let new = owns-into sdarc p ne in v p ne ∙ ap pos (omega (arith, enough, old, new))

  stores-IsCounted :
      (i : ℕ) (sdarc : Option ℕ) (w : World)
      → i < shards
      → holds w sdarc ≡ true
      → IsCounted w
      → IsCounted (record {
        memory = drop_option i (nullable_from_raw_ptr w.inner_ptr) w.memory;
        inner_ptr = nullable_into_raw_ptr sdarc;
        held = taken sdarc w.held;
      })
  stores-IsCounted i sdarc w lt h v p ne =
      let enough = owns-held w sdarc p h in
      let old = owns-from w.inner_ptr p ne in
      let new = owns-into sdarc p ne in
      strong_count-drop_option shards i p (nullable_from_raw_ptr w.inner_ptr) w.memory lt
      ∙ rw (v p ne) (omega (int_laws, enough, old, new))

  count_set-strong :
      (i p : ℕ) (o : Option ℕ) (w : World)
      → i < shards
      → holds w o ≡ true
      → strong_count shards p (count_set i (nullable_into_raw_ptr o) w.memory)
        ≡ strong_count shards p w.memory +ℤ pos (owns o p)
  count_set-strong i p none w lt h = omega int_laws
  count_set-strong i p (some q) w lt h =
      let something : (q == 0) ≡ false = ground arith in
      rw something (strong_count-clone_sdarc shards i q p w.memory lt)

  compares-IsCounted :
      (i : ℕ) (if_matches then_set : Option ℕ) (w : World)
      → i < shards
      → holds w then_set ≡ true
      → IsCounted w
      → IsCounted (after_exchange (compare_and_set i if_matches then_set w.inner_ptr w.memory) w)
  unfolding compare_and_set raw_compare_and_set
  compares-IsCounted i if_matches then_set w lt h v =
      elim (Bool-cases (w.inner_ptr == nullable_into_raw_ptr if_matches)) [
        | inr differs ↦ rw differs v
        | inl matches ↦ rw matches (λ p ne.
            let old = owns-from w.inner_ptr p ne in
            let new = owns-into then_set p ne in
            count_set-strong i p then_set w lt h ∙ rw (v p ne) (omega (int_laws, old, new)))
      ]

  syncs-IsCounted :
      (i : ℕ) (target : Option ℕ) (w : World)
      → i < shards
      → holds w target ≡ true
      → IsCounted w
      → let (synced, m) = sync_to i target w.inner_ptr w.memory in
        IsCounted (record w { memory = m; held = given synced (taken target w.held) })
  unfolding sync_to
  syncs-IsCounted i target w lt h v p ne =
      let enough = owns-held w target p h in
      let (count, same) = strong_count-load shards i w.inner_ptr p w.memory lt ne in
      let loaded = load_atomic_ptr_owned i w.inner_ptr w.memory in
      elim (Bool-cases (nullable_into_raw_ptr target == w.inner_ptr)) [
        | inl current ↦ rw current (v p ne ∙ ap pos (omega (arith, enough)))
        | inr stale ↦ rw stale (
            strong_count-drop_option shards i p target loaded.1 lt
            ∙ rw (count, v p ne, same) (omega (int_laws, enough)))
      ]

  run-IsCounted : (a : Op) (w : World) → IsCounted w → IsCounted (run shards a w)
  unfolding run swap store
  run-IsCounted (clones i q) w v =
      guarded IsCounted _
        (λ h. clones-IsCounted i q w (ground (arith, both (ltb i shards) (holds w (some q)) h)) v) v
  run-IsCounted (drops i q) w v =
      guarded IsCounted _
        (λ h.
          let (inside, has) = both (ltb i shards) (holds w (some q)) h in
          drops-IsCounted i q w (ground (arith, inside)) has v)
        v
  run-IsCounted (loads i) w v =
      guarded IsCounted (ltb i shards)
        (λ inside p ne.
          let lt : i < shards = ground (arith, inside) in
          let (count, same) = strong_count-load shards i w.inner_ptr p w.memory lt ne in
          rw (count, v p ne, same) (omega int_laws))
        v
  run-IsCounted (swaps sdarc) w v = guarded IsCounted _ (λ h. swaps-IsCounted sdarc w h v) v
  run-IsCounted (stores i sdarc) w v =
      guarded IsCounted _
        (λ h.
          let (inside, has) = both (ltb i shards) (holds w sdarc) h in
          stores-IsCounted i sdarc w (ground (arith, inside)) has v)
        v
  run-IsCounted (compares i if_matches then_set) w v =
      guarded IsCounted _
        {x = after_exchange (compare_and_set i if_matches then_set w.inner_ptr w.memory) w} {y = w}
        (λ h.
          let (inside, has) = both (ltb i shards && holds w if_matches) (holds w then_set) h in
          let (in_range, _) = both (ltb i shards) (holds w if_matches) inside in
          compares-IsCounted i if_matches then_set w (ground (arith, in_range)) has v)
        v
  run-IsCounted (syncs i target) w v =
      guarded IsCounted _
        (λ h.
          let (inside, has) = both (ltb i shards) (holds w target) h in
          syncs-IsCounted i target w (ground (arith, inside)) has v)
        v

  run_all-IsCounted : (ops : List Op) (w : World) → IsCounted w → IsCounted (run_all shards ops w)
  unfolding run_all
  run_all-IsCounted [] w v = v
  run_all-IsCounted (a ∷ rest) w v = run_all-IsCounted rest (run shards a w) (run-IsCounted a w v)

  estimate_from-total :
      (rest k : ℕ) (sum : ℤ) (counters : ℕ → Cell)
      → k + rest ≡ shards
      → sum ≡ total k (λ i. (counters i).count)
      → estimate_from rest k sum counters ≡ total shards (λ i. (counters i).count)
  unfolding estimate_from
  estimate_from-total zero k sum counters e h =
      let whole : k ≡ shards = omega arith in h ∙ ap (λ n. total n (λ i. (counters i).count)) whole
  estimate_from-total (suc rest) k sum counters e h =
      estimate_from-total rest (suc k) (sum +ℤ (counters k).count) counters (omega arith)
        (ap (λ x. x +ℤ (counters k).count) h ∙ sym (total_next k (λ i. (counters i).count)))

  -- Whatever a program has done with one atomic pointer and the `Sdarc`s that it holds:
  -- `estimate_strong_count` of an object, while nobody else acts, is exactly the number of `Sdarc`s
  -- of it that the program holds, with the one in the pointer, if that was so at the beginning. So
  -- each operation counts what it creates and what it gives up.
  pub estimate_strong_count-exact :
      (ops : List Op) (w : World) (p : ℕ)
      → IsCounted w
      → p ≢ 0
      → let w' = run_all shards ops w in
        estimate_strong_count shards p w'.memory ≡ pos (w'.held p + bit (w'.inner_ptr == p))
  unfolding estimate_strong_count
  estimate_strong_count-exact ops w p v ne =
      let w' = run_all shards ops w in
      estimate_from-total shards 0 (pos 0) (w'.memory.counters p) (omega arith) (sym (total-zero _))
      ∙ run_all-IsCounted ops w v p ne
