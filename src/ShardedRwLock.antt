-- ===== src/ShardedRwLock.antt =====
-- src/sharded_rwlock.rs: a read lock takes the lock of one shard, a write lock takes those of all
-- shards in their order. The shards' locks are another package's `RwLock<()>`.
pub mod Laws
pub mod Reads
pub mod Writes
pub mod Exclusion
mod Tests
use sdarc.Prelude.{
  ℕ, zero, suc, ◌+◌, ◌-◌, ◌≡◌, Bool, true, false, ◌&&◌, not, List, [], ◌∷◌, Option, none, some, ltb,
  ◌==◌, if◌then◌else◌,
}
use sdarc.Object.{update}

-- The operations of a shard's lock that the code calls, and what its state shows: how many hold it
-- to read, and whether one holds it to write. `none` is a lock that is not to be had now.
pub record RawRwLock (L : Type 0) : Type 0 where
  pub fresh : L
  pub readers : L → ℕ
  pub is_written : L → Bool
  pub try_read : L → Option L
  pub try_write : L → Option L
  pub unlock_read : L → L
  pub unlock_write : L → L

-- Where a thread is in `write` and in the drop of its guard: out of both, about to lock shard `k`
-- (all of them are locked when there is no shard `k`), about to unlock shard `k`.
pub data Phase : Type 0 where
  idle : Phase
  locking unlocking : (k : ℕ) → Phase

pub record ShardedRwLock (L : Type 0) : Type 0 where
  pub lock : ℕ → L
  pub guards : ℕ → ℕ  -- `ReadGuardOfShardedRwLock`s of each shard
  pub phase : ℕ → Phase  -- of each thread

-- A read at the current shard `i`, the drop of its guard; for thread `t`, the start of `write`, the
-- next shard locked, the start of the drop of its guard, the next shard unlocked.
pub data LockStep : Type 0 where
  read drop_read : (i : ℕ) → LockStep
  write lock_next drop_write unlock_next : (t : ℕ) → LockStep

module _ {L : Type 0} (raw : RawRwLock L) (n : ℕ) where
  abbrev pub new : ShardedRwLock L
  new = record { lock = λ i. raw.fresh; guards = λ i. 0; phase = λ t. idle }

  -- `read` when it gets the lock, and `try_read`
  unfoldable pub do_read : ℕ → ShardedRwLock L → ShardedRwLock L
  do_read i s = elim (raw.try_read (s.lock i)) [
    | none ↦ s
    | some l ↦ record s { lock = update s.lock i l; guards = update s.guards i (s.guards i + 1) }
  ]

  unfoldable pub do_drop_read : ℕ → ShardedRwLock L → ShardedRwLock L
  do_drop_read i s =
      if ltb 0 (s.guards i)
      then record s {
        lock = update s.lock i (raw.unlock_read (s.lock i));
        guards = update s.guards i (s.guards i - 1);
      }
      else s

  abbrev pub begin_write : Phase → Phase
  begin_write idle = locking 0
  begin_write (locking k) = locking k
  begin_write (unlocking k) = unlocking k

  -- One turn of the loop of `write`
  unfoldable pub lock_in : ℕ → Phase → ShardedRwLock L → ShardedRwLock L
  lock_in t (locking k) s = elim (raw.try_write (s.lock k)) [
    | none ↦ s
    | some l ↦
        if ltb k n
        then record s { lock = update s.lock k l; phase = update s.phase t (locking (suc k)) }
        else s
  ]
  lock_in t _ s = s

  abbrev pub begin_drop : Phase → Phase
  begin_drop (locking k) = if ltb k n then locking k else unlocking 0
  begin_drop idle = idle
  begin_drop (unlocking k) = unlocking k

  -- One turn of the loop of the guard's drop
  unfoldable pub unlock_in : ℕ → Phase → ShardedRwLock L → ShardedRwLock L
  unlock_in t (unlocking k) s =
      if ltb k n
      then record s {
        lock = update s.lock k (raw.unlock_write (s.lock k));
        phase = update s.phase t (unlocking (suc k));
      }
      else record s { phase = update s.phase t idle }
  unlock_in t _ s = s

  unfoldable pub apply : LockStep → ShardedRwLock L → ShardedRwLock L
  apply (read i) s = do_read i s
  apply (drop_read i) s = do_drop_read i s
  apply (write t) s = record s { phase = update s.phase t (begin_write (s.phase t)) }
  apply (lock_next t) s = lock_in t (s.phase t) s
  apply (drop_write t) s = record s { phase = update s.phase t (begin_drop (s.phase t)) }
  apply (unlock_next t) s = unlock_in t (s.phase t) s

  unfoldable pub apply_all : List LockStep → ShardedRwLock L → ShardedRwLock L
  apply_all [] s = s
  apply_all (step ∷ rest) s = apply_all rest (apply step s)
