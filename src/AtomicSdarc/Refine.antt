-- ===== src/AtomicSdarc/Refine.antt =====
-- A program with one atomic pointer of src/atomic_sdarc.rs, seen at one object, is a run of the
-- accesses that `Object` models.
use sdarc.Prelude.{ℕ, ◌<◌, ◌≡◌, ◌≢◌, refl, ap, ◌∙◌, ◌&&◌, List, [], ◌∷◌, ◌++◌, some, arith, ltb}
use sdarc.Object.{Object, Action, Config, outside, apply_all}
use sdarc.AtomicSdarc.{swap, store, compare_and_set}
use sdarc.AtomicSdarc.Program.{
  World, Op, clones, drops, loads, swaps, stores, compares, syncs, holds, after_exchange, run,
  run_all,
}
use sdarc.AtomicSdarc.Counted.{both}
use sdarc.AtomicSdarc.Accesses.{accesses}
use sdarc.AtomicSdarc.Effects.{apply_all-++}
use sdarc.AtomicSdarc.Operations.{
  object_at, only_guarded, clones-refine, drops-refine, loads-refine, swaps-refine, stores-refine,
  compares-refine, syncs-refine,
}

-- The accesses of one operation after the other
unfoldable pub accesses_all : ℕ → ℕ → ℕ → List Op → World → List Action
accesses_all shards t p [] w = []
accesses_all shards t p (a ∷ rest) w =
    accesses shards t p a w ++ accesses_all shards t p rest (run shards a w)

module _ (c : Config) (t p : ℕ) (o : Object) where
  run-refine :
      (a : Op) (w : World)
      → t < c.readers
      → (o.reader t).section ≡ outside
      → p ≢ 0
      → apply_all c (accesses c.shards t p a w) (object_at p o w) ≡ object_at p o (run c.shards a w)
  unfolding run swap store
  run-refine (clones i q) w r out ne = only_guarded c t p o _ _ _ w (λ h.
      let (inside, has) = both c.shards (ltb i c.shards) (holds w (some q)) h in
      clones-refine c t p o i q w (ground (arith, inside)) has)
  run-refine (drops i q) w r out ne = only_guarded c t p o _ _ _ w (λ h.
      let (inside, has) = both c.shards (ltb i c.shards) (holds w (some q)) h in
      drops-refine c t p o i q w (ground (arith, inside)) has)
  run-refine (loads i) w r out ne =
      only_guarded c t p o _ _ _ w
        (λ inside. loads-refine c t p o i w r out (ground (arith, inside)) ne)
  run-refine (swaps sdarc) w r out ne =
      only_guarded c t p o _ _ _ w (λ h. swaps-refine c t p o sdarc w h ne)
  run-refine (stores i sdarc) w r out ne = only_guarded c t p o _ _ _ w (λ h.
      let (inside, has) = both c.shards (ltb i c.shards) (holds w sdarc) h in
      stores-refine c t p o i sdarc w (ground (arith, inside)) has ne)
  run-refine (compares i if_matches then_set) w r out ne =
      only_guarded c t p o _ _
        (after_exchange (compare_and_set i if_matches then_set w.inner_ptr w.memory) w) w
        (λ h.
          let (inside, has) =
            both c.shards (ltb i c.shards && holds w if_matches) (holds w then_set) h in
          let (in_range, _) = both c.shards (ltb i c.shards) (holds w if_matches) inside in
          compares-refine c t p o i if_matches then_set w (ground (arith, in_range)) has ne)
  run-refine (syncs i target) w r out ne = only_guarded c t p o _ _ _ w (λ h.
      let (inside, has) = both c.shards (ltb i c.shards) (holds w target) h in
      syncs-refine c t p o i target w r out (ground (arith, inside)) has ne)

  -- Whatever a program does with one atomic pointer and the `Sdarc`s that it holds, in a thread `t`
  -- that has hazard data and is outside its critical section: at each address `p` but null, the
  -- accesses to that object that its operations are made of, done one after the other as `Object`
  -- models them, make of its counters, of the numbers of `Sdarc`s of it inside and outside the
  -- pointer, and of everything else, what the operations make of them.
  pub run_all-refine :
      (ops : List Op) (w : World)
      → t < c.readers
      → (o.reader t).section ≡ outside
      → p ≢ 0
      → apply_all c (accesses_all c.shards t p ops w) (object_at p o w)
        ≡ object_at p o (run_all c.shards ops w)
  unfolding accesses_all run_all apply_all
  run_all-refine [] w r out ne = refl
  run_all-refine (a ∷ rest) w r out ne =
      apply_all-++ c (accesses c.shards t p a w) _ _
      ∙ ap (apply_all c (accesses_all c.shards t p rest (run c.shards a w)))
          (run-refine a w r out ne)
      ∙ run_all-refine rest (run c.shards a w) r out ne
