-- ===== src/ShardedRwLock/Reads.antt =====
-- `read` of src/sharded_rwlock.rs and the drop of its guard keep the locks exclusive.
use sdarc.Prelude.{
  ℕ, ◌+◌, ◌-◌, ◌<◌, ◌≡◌, ◌≢◌, ap, ◌∙◌, true, inl, inr, Bool-cases, Option-cases, arith, ltb, ◌==◌,
  ==_iff,
}
use sdarc.ShardedRwLock.{RawRwLock, ShardedRwLock, do_read, do_drop_read}
use sdarc.ShardedRwLock.Laws.{holds, RwLockLaws, IsExclusive}

module _ {L : Type 0} (raw : RawRwLock L) (n : ℕ) where
  pub do_read-IsExclusive :
      (i : ℕ) (s : ShardedRwLock L)
      → RwLockLaws raw
      → IsExclusive raw n s
      → IsExclusive raw n (do_read raw n i s)
  unfolding do_read
  do_read-IsExclusive i s laws v = elim (Option-cases (raw.try_read (s.lock i))) [
    | inl busy ↦ rw (busy, do_read) v
    | inr (l, got) ↦
        let (free, more, unwritten) = laws.try_read_ok (s.lock i) l got in
        let nobody : (t : ℕ) → holds n (s.phase t) i ≢ true =
          λ t h. ground (arith, v.written t i h) in
        rw (got, do_read)
          (record {
            counted = λ j. elim (Bool-cases (i == j)) [
              | inl here ↦
                  let e : i ≡ j = (==_iff i j).0 here in
                  rw here (more ∙ ap (λ x. x + 1) (v.counted i))
              | inr there ↦ rw there (v.counted j)
            ];
            written = λ t j h. elim (Bool-cases (i == j)) [
              | inl here ↦ let e : i ≡ j = (==_iff i j).0 here in absurd (nobody t (rw e h))
              | inr there ↦ rw there (v.written t j h)
            ];
            unread = λ t j h. elim (Bool-cases (i == j)) [
              | inl here ↦ let e : i ≡ j = (==_iff i j).0 here in absurd (nobody t (rw e h))
              | inr there ↦ rw there (v.unread t j h)
            ];
            alone = v.alone;
          })
  ]

  pub do_drop_read-IsExclusive :
      (i : ℕ) (s : ShardedRwLock L)
      → RwLockLaws raw
      → IsExclusive raw n s
      → IsExclusive raw n (do_drop_read raw n i s)
  unfolding do_drop_read
  do_drop_read-IsExclusive i s laws v = elim (Bool-cases (ltb 0 (s.guards i))) [
    | inr nothing ↦ rw nothing v
    | inl held ↦
        let some_reader : 0 < raw.readers (s.lock i) = rw (v.counted i) (ground arith) in
        let (less, same) = laws.unlock_read_ok (s.lock i) some_reader in
        let nobody : (t : ℕ) → holds n (s.phase t) i ≢ true =
          λ t h. ground (arith, v.unread t i h) in
        rw held (record {
          counted = λ j. elim (Bool-cases (i == j)) [
            | inl here ↦ rw here (less ∙ ap (λ x. x - 1) (v.counted i))
            | inr there ↦ rw there (v.counted j)
          ];
          written = λ t j h. elim (Bool-cases (i == j)) [
            | inl here ↦ let e : i ≡ j = (==_iff i j).0 here in absurd (nobody t (rw e h))
            | inr there ↦ rw there (v.written t j h)
          ];
          unread = λ t j h. elim (Bool-cases (i == j)) [
            | inl here ↦ let e : i ≡ j = (==_iff i j).0 here in absurd (nobody t (rw e h))
            | inr there ↦ rw there (v.unread t j h)
          ];
          alone = v.alone;
        })
  ]
