-- ===== src/ShardedRwLock/Tests.antt =====
-- A lock that meets the laws, and a run of src/sharded_rwlock.rs on it.
use sdarc.Prelude.{
  ℕ, ◌+◌, ◌-◌, ◌<◌, ◌≡◌, refl, Bool, true, false, List, [], ◌∷◌, Option, none, some, arith, ◌==◌,
  if◌then◌else◌,
}
use sdarc.ShardedRwLock.{
  RawRwLock, LockStep, read, drop_read, write, lock_next, locking, new, do_read, do_drop_read,
  lock_in, apply, apply_all,
}
use sdarc.ShardedRwLock.Laws.{holds, RwLockLaws}
use sdarc.ShardedRwLock.Exclusion.{writer_excludes}

record Count : Type 0 where
  readers : ℕ
  is_written : Bool

abbrev read_count : Count → Option Count
read_count l =
    if l.is_written then none else some (record { readers = l.readers + 1; is_written = false })

abbrev write_count : Count → Option Count
write_count l =
    if l.is_written
    then none
    else if l.readers == 0
    then some (record { readers = 0; is_written = true })
    else none

abbrev counting : RawRwLock Count
counting = record {
  fresh = record { readers = 0; is_written = false };
  readers = λ l. l.readers;
  is_written = λ l. l.is_written;
  try_read = read_count;
  try_write = write_count;
  unlock_read = λ l. record l { readers = l.readers - 1 };
  unlock_write = λ l. record l { is_written = false };
}

counting-RwLockLaws : RwLockLaws counting
counting-RwLockLaws = record {
  fresh_free = (refl, refl);
  try_read_ok = λ l l' h. ground arith;
  try_write_ok = λ l l' h. ground arith;
  unlock_read_ok = λ l h. (refl, refl);
  unlock_write_ok = λ l h. refl;
}

-- thread 3 waits for the reader at shard 0 and then takes both shards
abbrev steps : List LockStep
steps = read 0 ∷ write 3 ∷ lock_next 3 ∷ drop_read 0 ∷ lock_next 3 ∷ lock_next 3 ∷ read 1 ∷ []

thread_3_has_both : (apply_all counting 2 steps (new counting 2)).phase 3 ≡ locking 2
unfolding apply_all apply do_read do_drop_read lock_in
thread_3_has_both = refl

writer_excludes_example :
    let s = apply_all counting 2 steps (new counting 2) in
    ((i : ℕ) → i < 2 → s.guards i ≡ 0)
    × ((t' i : ℕ) → i < 2 → holds 2 (s.phase t') i ≡ true → 3 ≡ t')
writer_excludes_example = writer_excludes counting 2 steps 3 counting-RwLockLaws thread_3_has_both
