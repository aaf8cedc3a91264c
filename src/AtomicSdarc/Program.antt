-- ===== src/AtomicSdarc/Program.antt =====
-- A program that uses one `AtomicNullableSdarc` of src/atomic_sdarc.rs.
use sdarc.Prelude.{
  ℕ, ◌+◌, ◌-◌, Bool, true, ◌&&◌, not, List, [], ◌∷◌, Option, none, some, ltb, ◌==◌, if◌then◌else◌,
}
use sdarc.Outcome.{Outcome, done, panic}
use sdarc.AtomicSdarc.{
  Memory, clone_sdarc, drop_sdarc, load_atomic_ptr_owned, swap, store, compare_and_set, sync_to,
}
use sdarc.AtomicSdarc.Counts.{owns}

-- A program with one `AtomicNullableSdarc`: its pointer, and how many `Sdarc`s of each object the
-- program holds elsewhere.
pub record World : Type 0 where
  pub memory : Memory
  pub inner_ptr : ℕ
  pub held : ℕ → ℕ

-- What the program does, at the current shard `i`. It gives away, drops and compares only `Sdarc`s
-- that it holds.
pub data Op : Type 0 where
  clones drops : (i p : ℕ) → Op
  loads : (i : ℕ) → Op
  swaps : (sdarc : Option ℕ) → Op
  stores : (i : ℕ) (sdarc : Option ℕ) → Op
  compares : (i : ℕ) (if_matches then_set : Option ℕ) → Op
  syncs : (i : ℕ) (target : Option ℕ) → Op

abbrev pub holds : World → Option ℕ → Bool
holds w none = true
holds w (some p) = not (p == 0) && ltb 0 (w.held p)

abbrev pub given : Option ℕ → (ℕ → ℕ) → ℕ → ℕ
given o held p = held p + owns o p

abbrev pub taken : Option ℕ → (ℕ → ℕ) → ℕ → ℕ
taken o held p = held p - owns o p

abbrev pub after_exchange : Outcome (Option (Option ℕ) × ℕ × Memory) → World → World
after_exchange panic w = w
after_exchange (done (none, ptr, m)) w = record w { memory = m; inner_ptr = ptr }
after_exchange (done (some old, ptr, m)) w = record {
  memory = m;
  inner_ptr = ptr;
  held = given old w.held;
}

module _ (shards : ℕ) where
  unfoldable pub run : Op → World → World
  run (clones i p) w =
      if ltb i shards && holds w (some p)
      then record w { memory = clone_sdarc i p w.memory; held = given (some p) w.held }
      else w
  run (drops i p) w =
      if ltb i shards && holds w (some p)
      then record w { memory = drop_sdarc i p w.memory; held = taken (some p) w.held }
      else w
  run (loads i) w =
      let (loaded, m) = load_atomic_ptr_owned i w.inner_ptr w.memory in
      if ltb i shards then record w { memory = m; held = given loaded w.held } else w
  run (swaps sdarc) w =
      let (old, ptr) = swap sdarc w.inner_ptr in
      if holds w sdarc
      then record w { inner_ptr = ptr; held = given old (taken sdarc w.held) }
      else w
  run (stores i sdarc) w =
      let (ptr, m) = store i sdarc w.inner_ptr w.memory in
      if ltb i shards && holds w sdarc
      then record { memory = m; inner_ptr = ptr; held = taken sdarc w.held }
      else w
  run (compares i if_matches then_set) w =
      let r = compare_and_set i if_matches then_set w.inner_ptr w.memory in
      if ltb i shards && holds w if_matches && holds w then_set then after_exchange r w else w
  run (syncs i target) w =
      let (synced, m) = sync_to i target w.inner_ptr w.memory in
      if ltb i shards && holds w target
      then record w { memory = m; held = given synced (taken target w.held) }
      else w

  unfoldable pub run_all : List Op → World → World
  unfolding run
  run_all [] w = w
  run_all (a ∷ rest) w = run_all rest (run a w)
