-- ===== src/AtomicSdarc/Operations.antt =====
-- Each operation of src/atomic_sdarc.rs and src/sdarc.rs, seen at one object, is a run of the accesses
-- that `Object` models.
use sdarc.Prelude.{
  ℕ, ◌<◌, ◌≡◌, ◌≢◌, refl, sym, ap, ◌∙◌, inl, inr, Bool, true, false, Bool-cases, List, [], ◌++◌,
  Option, some, arith, ◌==◌, if◌then◌else◌,
}
use sdarc.Object.{
  Object, Action, Config, outside, clone, drop, swap_in, swap_out, cas_set, cas_count, apply_all,
}
use sdarc.AtomicSdarc.{
  clone_sdarc, drop_sdarc, drop_option, nullable_from_raw_ptr, nullable_into_raw_ptr,
  load_atomic_ptr_owned, raw_compare_and_set, compare_and_set, sync_to,
}
use sdarc.AtomicSdarc.Counts.{bit}
use sdarc.AtomicSdarc.Program.{World, holds, given, taken, after_exchange}
use sdarc.AtomicSdarc.Counted.{owns-held, owns-from, owns-into}
use sdarc.AtomicSdarc.Accesses.{is_of, only_if, load_accesses}
use sdarc.AtomicSdarc.Effects.{
  with_counts, with_counts-eq, decreased_if, apply_all-++, clone_if, drop_if, cas_count_if,
  exchange_if, cas_exchange_if,
}
use sdarc.AtomicSdarc.Loads.{load_if}
use sdarc.AtomicSdarc.Cells.{
  owns-is_of, from-is_of, counters-clone, counters-drop, counters-drop_option, counters-load,
  counters-count_set,
}

-- The object at `p` of a program: its counters, how many `Sdarc`s of it the program holds, and
-- whether the pointer holds one; the rest is as in `o`.
abbrev pub object_at : ℕ → Object → World → Object
object_at p o w = with_counts (w.memory.counters p) (w.held p) (bit (w.inner_ptr == p)) 0 o

module _ (c : Config) (t p : ℕ) (o : Object) where
  -- An operation that is not performed makes no access.
  pub only_guarded :
      (b : Bool) (made : List Action) (w' w : World)
      → (b ≡ true → apply_all c made (object_at p o w) ≡ object_at p o w')
      → apply_all c (if b then made else []) (object_at p o w) ≡ object_at p o (if b then w' else w)
  unfolding apply_all
  only_guarded true made w' w h = h refl
  only_guarded false made w' w h = refl

  pub clones-refine :
      (i q : ℕ) (w : World)
      → i < c.shards
      → holds w (some q) ≡ true
      → apply_all c (only_if (q == p) (clone i)) (object_at p o w)
        ≡ object_at p o
            (record w { memory = clone_sdarc i q w.memory; held = given (some q) w.held })
  clones-refine i q w lt h =
      clone_if c (q == p) i (object_at p o w) lt (owns-held c.shards w (some q) p h)
      ∙ with_counts-eq o (sym (counters-clone i q p w.memory)) refl refl refl

  pub drops-refine :
      (i q : ℕ) (w : World)
      → i < c.shards
      → holds w (some q) ≡ true
      → apply_all c (only_if (q == p) (drop i)) (object_at p o w)
        ≡ object_at p o
            (record w { memory = drop_sdarc i q w.memory; held = taken (some q) w.held })
  drops-refine i q w lt h =
      drop_if c (q == p) i (object_at p o w) lt (owns-held c.shards w (some q) p h)
      ∙ with_counts-eq o (sym (counters-drop i q p w.memory)) refl refl refl

  pub loads-refine :
      (i : ℕ) (w : World)
      → t < c.readers
      → (o.reader t).section ≡ outside
      → i < c.shards
      → p ≢ 0
      → let (loaded, m) = load_atomic_ptr_owned i w.inner_ptr w.memory in
        apply_all c (load_accesses (w.inner_ptr == p) t i) (object_at p o w)
        ≡ object_at p o (record w { memory = m; held = given loaded w.held })
  loads-refine i w r out lt ne =
      let (cells, same) = counters-load i w.inner_ptr p w.memory ne in
      load_if c (w.inner_ptr == p) t i (object_at p o w) r lt out (omega arith)
      ∙ with_counts-eq o (sym cells) (omega (arith, same)) refl refl

  pub swaps-refine :
      (sdarc : Option ℕ) (w : World)
      → holds w sdarc ≡ true
      → p ≢ 0
      → apply_all c
          (only_if (is_of sdarc p) swap_in ++ only_if (w.inner_ptr == p) swap_out)
          (object_at p o w)
        ≡ object_at p o (record w {
          inner_ptr = nullable_into_raw_ptr sdarc;
          held = given (nullable_from_raw_ptr w.inner_ptr) (taken sdarc w.held);
        })
  swaps-refine sdarc w h ne =
      let enough = owns-held c.shards w sdarc p h in
      let of = owns-is_of sdarc p in
      let old = owns-from c.shards w.inner_ptr p ne in
      let new = owns-into c.shards sdarc p ne in
      exchange_if c (is_of sdarc p) (w.inner_ptr == p) (object_at p o w) (omega (arith, enough, of))
        (omega arith)
      ∙ with_counts-eq o refl (omega (arith, of, old)) (omega (arith, of, new)) refl

  pub stores-refine :
      (i : ℕ) (sdarc : Option ℕ) (w : World)
      → i < c.shards
      → holds w sdarc ≡ true
      → p ≢ 0
      → apply_all c
          ((only_if (is_of sdarc p) swap_in ++ only_if (w.inner_ptr == p) swap_out)
            ++ only_if (w.inner_ptr == p) (drop i))
          (object_at p o w)
        ≡ object_at p o (record {
          memory = drop_option i (nullable_from_raw_ptr w.inner_ptr) w.memory;
          inner_ptr = nullable_into_raw_ptr sdarc;
          held = taken sdarc w.held;
        })
  stores-refine i sdarc w lt h ne =
      let old = owns-from c.shards w.inner_ptr p ne in
      let cells =
        counters-drop_option i p (nullable_from_raw_ptr w.inner_ptr) w.memory
        ∙ ap (λ b. decreased_if b i (w.memory.counters p)) (from-is_of w.inner_ptr p ne) in
      apply_all-++ c (only_if (is_of sdarc p) swap_in ++ only_if (w.inner_ptr == p) swap_out) _ _
      ∙ ap (apply_all c (only_if (w.inner_ptr == p) (drop i))) (swaps-refine sdarc w h ne)
      ∙ drop_if c (w.inner_ptr == p) i _ lt (omega (arith, old))
      ∙ with_counts-eq o (sym cells) (omega (arith, old)) refl refl

  pub compares-refine :
      (i : ℕ) (if_matches then_set : Option ℕ) (w : World)
      → i < c.shards
      → holds w then_set ≡ true
      → p ≢ 0
      → apply_all c
          (if w.inner_ptr == nullable_into_raw_ptr if_matches
            then (only_if (is_of then_set p) cas_set ++ only_if (w.inner_ptr == p) swap_out)
              ++ only_if (is_of then_set p) (cas_count i)
            else [])
          (object_at p o w)
        ≡ object_at p o
            (after_exchange (compare_and_set i if_matches then_set w.inner_ptr w.memory) w)
  unfolding compare_and_set raw_compare_and_set apply_all
  compares-refine i if_matches then_set w lt h ne =
      let enough = owns-held c.shards w then_set p h in
      let of = owns-is_of then_set p in
      let old = owns-from c.shards w.inner_ptr p ne in
      let new = owns-into c.shards then_set p ne in
      elim (Bool-cases (w.inner_ptr == nullable_into_raw_ptr if_matches)) [
        | inr differs ↦ rw differs refl
        | inl matches ↦ rw matches (
            apply_all-++ c
              (only_if (is_of then_set p) cas_set ++ only_if (w.inner_ptr == p) swap_out) _ _
            ∙ ap (apply_all c (only_if (is_of then_set p) (cas_count i))) (
                cas_exchange_if c (is_of then_set p) (w.inner_ptr == p) (object_at p o w)
                  (omega (arith, enough, of)) (omega arith))
            ∙ cas_count_if c (is_of then_set p) i _ lt (omega arith)
            ∙ with_counts-eq o (sym (counters-count_set i p then_set w h))
                (omega (arith, enough, of, old)) (omega (arith, of, new)) (omega arith))
      ]

  pub syncs-refine :
      (i : ℕ) (target : Option ℕ) (w : World)
      → t < c.readers
      → (o.reader t).section ≡ outside
      → i < c.shards
      → holds w target ≡ true
      → p ≢ 0
      → let (synced, m) = sync_to i target w.inner_ptr w.memory in
        apply_all c
          (if nullable_into_raw_ptr target == w.inner_ptr
            then []
            else load_accesses (w.inner_ptr == p) t i ++ only_if (is_of target p) (drop i))
          (object_at p o w)
        ≡ object_at p o (record w { memory = m; held = given synced (taken target w.held) })
  unfolding sync_to apply_all
  syncs-refine i target w r out lt h ne =
      let enough = owns-held c.shards w target p h in
      let of = owns-is_of target p in
      let loaded = load_atomic_ptr_owned i w.inner_ptr w.memory in
      let same = (counters-load i w.inner_ptr p w.memory ne).1 in
      elim (Bool-cases (nullable_into_raw_ptr target == w.inner_ptr)) [
        | inl current ↦ rw current (with_counts-eq o refl (omega (arith, enough)) refl refl)
        | inr stale ↦ rw stale (
            apply_all-++ c (load_accesses (w.inner_ptr == p) t i) _ _
            ∙ ap (apply_all c (only_if (is_of target p) (drop i))) (loads-refine i w r out lt ne)
            ∙ drop_if c (is_of target p) i _ lt (omega (arith, enough, of))
            ∙ with_counts-eq o (sym (counters-drop_option i p target loaded.1))
                (omega (arith, enough, of)) refl refl)
      ]
