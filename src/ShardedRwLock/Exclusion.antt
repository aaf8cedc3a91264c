-- ===== src/ShardedRwLock/Exclusion.antt =====
-- Who can hold the lock of src/sharded_rwlock.rs at the same time.
use sdarc.Prelude.{ℕ, ◌<◌, ◌≡◌, refl, true, List, [], ◌∷◌, arith, lt→ltb}
use sdarc.ShardedRwLock.{
  RawRwLock, Phase, idle, locking, unlocking, ShardedRwLock, LockStep, read, drop_read, write,
  lock_next, drop_write, unlock_next, new, begin_write, begin_drop, apply, apply_all,
}
use sdarc.ShardedRwLock.Laws.{holds, RwLockLaws, IsExclusive}
use sdarc.ShardedRwLock.Reads.{do_read-IsExclusive, do_drop_read-IsExclusive}
use sdarc.ShardedRwLock.Writes.{rephased-IsExclusive, lock_in-IsExclusive, unlock_in-IsExclusive}

module _ {L : Type 0} (raw : RawRwLock L) (n : ℕ) where
  begin_write-fewer :
      (p : Phase) (i : ℕ) → holds n (begin_write raw n p) i ≡ true → holds n p i ≡ true
  begin_write-fewer idle i h = ground arith
  begin_write-fewer (locking k) i h = h
  begin_write-fewer (unlocking k) i h = h

  begin_drop-fewer :
      (p : Phase) (i : ℕ) → holds n (begin_drop raw n p) i ≡ true → holds n p i ≡ true
  begin_drop-fewer idle i h = h
  begin_drop-fewer (locking k) i h = ground arith
  begin_drop-fewer (unlocking k) i h = h

  apply-IsExclusive :
      (step : LockStep) (s : ShardedRwLock L)
      → RwLockLaws raw
      → IsExclusive raw n s
      → IsExclusive raw n (apply raw n step s)
  unfolding apply
  apply-IsExclusive (read i) s laws v = do_read-IsExclusive raw n i s laws v
  apply-IsExclusive (drop_read i) s laws v = do_drop_read-IsExclusive raw n i s laws v
  apply-IsExclusive (write t) s laws v =
      rephased-IsExclusive raw n t _ s (begin_write-fewer (s.phase t)) v
  apply-IsExclusive (lock_next t) s laws v = lock_in-IsExclusive raw n t (s.phase t) s refl laws v
  apply-IsExclusive (drop_write t) s laws v =
      rephased-IsExclusive raw n t _ s (begin_drop-fewer (s.phase t)) v
  apply-IsExclusive (unlock_next t) s laws v =
      unlock_in-IsExclusive raw n t (s.phase t) s refl laws v

  apply_all-IsExclusive :
      (steps : List LockStep) (s : ShardedRwLock L)
      → RwLockLaws raw
      → IsExclusive raw n s
      → IsExclusive raw n (apply_all raw n steps s)
  unfolding apply_all
  apply_all-IsExclusive [] s laws v = v
  apply_all-IsExclusive (step ∷ rest) s laws v =
      apply_all-IsExclusive rest (apply raw n step s) laws (apply-IsExclusive step s laws v)

  new-IsExclusive : RwLockLaws raw → IsExclusive raw n (new raw n)
  new-IsExclusive laws = record {
    counted = λ i. laws.fresh_free.0;
    written = λ t i h. ground arith;
    unread = λ t i h. refl;
    alone = λ t t' i h h'. ground arith;
  }

  -- After any steps of any threads from a new lock, if a thread has locked all shards to write,
  -- then no shard has a read guard and no other thread holds any shard to write.
  pub writer_excludes :
      (steps : List LockStep) (t : ℕ)
      → RwLockLaws raw
      → (apply_all raw n steps (new raw n)).phase t ≡ locking n
      → let s = apply_all raw n steps (new raw n) in
        ((i : ℕ) → i < n → s.guards i ≡ 0)
        × ((t' i : ℕ) → i < n → holds n (s.phase t') i ≡ true → t ≡ t')
  writer_excludes steps t laws e =
      let s = apply_all raw n steps (new raw n) in
      let v = apply_all-IsExclusive steps (new raw n) laws (new-IsExclusive laws) in
      let all : (i : ℕ) → i < n → holds n (s.phase t) i ≡ true = λ i lt. rw e (lt→ltb i n lt) in
      (λ i lt. v.unread t i (all i lt), λ t' i lt h. v.alone t t' i (all i lt) h)
