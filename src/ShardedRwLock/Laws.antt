-- ===== src/ShardedRwLock/Laws.antt =====
-- What the shards' locks of src/sharded_rwlock.rs promise, and when guards and threads agree with
-- them.
use sdarc.Prelude.{ℕ, ◌+◌, ◌-◌, ◌<◌, ◌≡◌, Bool, true, false, ◌&&◌, not, some, ltb}
use sdarc.ShardedRwLock.{RawRwLock, Phase, idle, locking, unlocking, ShardedRwLock}

-- Does a thread in this phase hold the lock of shard `i` to write, of `n` shards?
abbrev pub holds : ℕ → Phase → ℕ → Bool
holds n idle i = false
holds n (locking k) i = ltb i k
holds n (unlocking k) i = not (ltb i k) && ltb i n

module _ {L : Type 0} (raw : RawRwLock L) where
  -- A lock is read by many or written by one.
  pub record RwLockLaws : Type 0 where
    pub fresh_free : (raw.readers raw.fresh ≡ 0) × (raw.is_written raw.fresh ≡ false)
    pub try_read_ok :
        (l l' : L)
        → raw.try_read l ≡ some l'
        → (raw.is_written l ≡ false)
          × (raw.readers l' ≡ raw.readers l + 1)
          × (raw.is_written l' ≡ false)
    pub try_write_ok :
        (l l' : L)
        → raw.try_write l ≡ some l'
        → (raw.is_written l ≡ false)
          × (raw.readers l ≡ 0)
          × (raw.readers l' ≡ 0)
          × (raw.is_written l' ≡ true)
    pub unlock_read_ok :
        (l : L)
        → 0 < raw.readers l
        → (raw.readers (raw.unlock_read l) ≡ raw.readers l - 1)
          × (raw.is_written (raw.unlock_read l) ≡ raw.is_written l)
    pub unlock_write_ok :
        (l : L) → raw.is_written l ≡ true → (raw.readers (raw.unlock_write l) ≡ raw.readers l)

  module _ (n : ℕ) where
    -- Each lock's readers are the guards of its shard; a shard that a thread holds to write has no
    -- guards, is locked to write and is held by that thread only.
    pub record IsExclusive (s : ShardedRwLock L) : Type 0 where
      pub counted : (i : ℕ) → raw.readers (s.lock i) ≡ s.guards i
      pub written : (t i : ℕ) → holds n (s.phase t) i ≡ true → raw.is_written (s.lock i) ≡ true
      pub unread : (t i : ℕ) → holds n (s.phase t) i ≡ true → s.guards i ≡ 0
      pub alone :
          (t t' i : ℕ) → holds n (s.phase t) i ≡ true → holds n (s.phase t') i ≡ true → t ≡ t'
