-- ===== src/ShardedRwLock/Writes.antt =====
-- `write` of src/sharded_rwlock.rs, one shard after the other, and the drop of its guard keep the
-- locks exclusive.
use sdarc.Prelude.{
  ℕ, suc, ◌≡◌, ◌≢◌, sym, ap, ◌∙◌, true, false, ◌&&◌, not, ◌⊎◌, inl, inr, Bool-cases, Option-cases,
  arith, ltb, ◌==◌, ==_iff,
}
use mathlib.Core.Path.{subst}
use sdarc.Object.{update}
use sdarc.ShardedRwLock.{
  RawRwLock, Phase, idle, locking, unlocking, ShardedRwLock, lock_in, unlock_in,
}
use sdarc.ShardedRwLock.Laws.{holds, RwLockLaws, IsExclusive}

true≢false : true ≢ false
true≢false h = ground arith

module _ {L : Type 0} (raw : RawRwLock L) (n : ℕ) where
  -- A thread's phase changes, and it holds no more shards than before.
  pub rephased-IsExclusive :
      (t : ℕ) (p : Phase) (s : ShardedRwLock L)
      → ((i : ℕ) → holds n p i ≡ true → holds n (s.phase t) i ≡ true)
      → IsExclusive raw n s
      → IsExclusive raw n (record s { phase = update s.phase t p })
  rephased-IsExclusive t p s fewer v =
      let before : (t' i : ℕ)
          → holds n (update s.phase t p t') i ≡ true
          → holds n (s.phase t') i ≡ true =
        λ t' i h. elim (Bool-cases (t == t')) [
          | inl here ↦ let e : t ≡ t' = (==_iff t t').0 here in rw (← e) (fewer i (rw here at h))
          | inr there ↦ rw there at h
        ] in
      record {
        counted = v.counted;
        written = λ t' i h. v.written t' i (before t' i h);
        unread = λ t' i h. v.unread t' i (before t' i h);
        alone = λ t1 t2 i h1 h2. v.alone t1 t2 i (before t1 i h1) (before t2 i h2);
      }

  -- Who holds shard `i` once thread `t` has locked shard `k` as well: that thread, if it is shard
  -- `k`, and otherwise who held it before.
  lock_in-holds :
      (t k : ℕ) (s : ShardedRwLock L)
      → s.phase t ≡ locking k
      → raw.is_written (s.lock k) ≡ false
      → IsExclusive raw n s
      → (t' i : ℕ) → holds n (update s.phase t (locking (suc k)) t') i ≡ true
      → ((i ≡ k) × (t ≡ t')) ⊎ ((holds n (s.phase t') i ≡ true) × (k ≢ i))
  lock_in-holds t k s e free v t' i h = elim (Bool-cases (t == t')) [
    | inl here ↦
        let same : t ≡ t' = (==_iff t t').0 here in
        let reached : ltb i (suc k) ≡ true = rw here at h in
        elim (Bool-cases (k == i)) [
          | inl at_k ↦ inl (sym ((==_iff k i).0 at_k), same)
          | inr off ↦
              let below : ltb i k ≡ true = ground arith in
              inr (subst (λ x. holds n (s.phase x) i ≡ true) same (rw e below), λ eq. ground arith)
        ]
    | inr there ↦
        let held : holds n (s.phase t') i ≡ true = rw there at h in
        let locked = v.written t' i held in
        inr (
          held,
          λ eq. true≢false (sym locked ∙ ap (λ x. raw.is_written (s.lock x)) (sym eq) ∙ free),
        )
  ]

  pub lock_in-IsExclusive :
      (t : ℕ) (p : Phase) (s : ShardedRwLock L)
      → s.phase t ≡ p
      → RwLockLaws raw
      → IsExclusive raw n s
      → IsExclusive raw n (lock_in raw n t p s)
  unfolding lock_in
  lock_in-IsExclusive t idle s e laws v = v
  lock_in-IsExclusive t (unlocking k) s e laws v = v
  lock_in-IsExclusive t (locking k) s e laws v = elim (Option-cases (raw.try_write (s.lock k))) [
    | inl busy ↦ rw (busy, lock_in) v
    | inr (l, got) ↦
        let (free, no_reader, no_reader', now_written) = laws.try_write_ok (s.lock k) l got in
        let splits = lock_in-holds t k s e free v in
        rw (got, lock_in)
          (elim (Bool-cases (ltb k n)) [
            | inr beyond ↦ rw beyond v
            | inl within ↦ rw within (record {
              counted = λ j. elim (Bool-cases (k == j)) [
                | inl here ↦
                    let same : k ≡ j = (==_iff k j).0 here in
                    rw here (no_reader' ∙ sym no_reader ∙ v.counted k ∙ ap s.guards same)
                | inr there ↦ rw there (v.counted j)
              ];
              written = λ t' i h. elim (splits t' i h) [
                | inl (same, _) ↦ rw ((==_iff k i).1 (sym same)) now_written
                | inr (held, other) ↦
                    let off : (k == i) ≡ false = ground arith in rw off (v.written t' i held)
              ];
              unread = λ t' i h. elim (splits t' i h) [
                | inl (same, _) ↦ ap s.guards same ∙ sym (v.counted k) ∙ no_reader
                | inr (held, other) ↦ v.unread t' i held
              ];
              alone = λ t1 t2 i h1 h2. elim (splits t1 i h1) [
                | inl (same, is1) ↦ elim (splits t2 i h2) [
                  | inl (_, is2) ↦ sym is1 ∙ is2
                  | inr (_, other) ↦ absurd (other (sym same))
                ]
                | inr (held1, other) ↦ elim (splits t2 i h2) [
                  | inl (same, _) ↦ absurd (other (sym same))
                  | inr (held2, _) ↦ v.alone t1 t2 i held1 held2
                ]
              ];
            })
          ])
  ]

  unlock_in-holds :
      (t k : ℕ) (s : ShardedRwLock L)
      → s.phase t ≡ unlocking k
      → holds n (s.phase t) k ≡ true
      → IsExclusive raw n s
      → (t' i : ℕ) → holds n (update s.phase t (unlocking (suc k)) t') i ≡ true
      → (holds n (s.phase t') i ≡ true) × (k ≢ i)
  unlock_in-holds t k s e held_k v t' i h = elim (Bool-cases (t == t')) [
    | inl here ↦
        let same : t ≡ t' = (==_iff t t').0 here in
        let left : (not (ltb i (suc k)) && ltb i n) ≡ true = rw here at h in
        let later : (not (ltb i k) && ltb i n) ≡ true = ground arith in
        (subst (λ x. holds n (s.phase x) i ≡ true) same (rw e later), λ eq. ground arith)
    | inr there ↦
        let held : holds n (s.phase t') i ≡ true = rw there at h in
        (
          held,
          λ eq.
              let same =
                v.alone t t' k held_k (subst (λ x. holds n (s.phase t') x ≡ true) (sym eq) held) in
              true≢false (sym ((==_iff t t').1 same) ∙ there),
        )
  ]

  pub unlock_in-IsExclusive :
      (t : ℕ) (p : Phase) (s : ShardedRwLock L)
      → s.phase t ≡ p
      → RwLockLaws raw
      → IsExclusive raw n s
      → IsExclusive raw n (unlock_in raw n t p s)
  unfolding unlock_in
  unlock_in-IsExclusive t idle s e laws v = v
  unlock_in-IsExclusive t (locking k) s e laws v = v
  unlock_in-IsExclusive t (unlocking k) s e laws v = elim (Bool-cases (ltb k n)) [
    | inr over ↦ rw over (rephased-IsExclusive t idle s (λ i h. ground arith) v)
    | inl within ↦
        let held_now : (not (ltb k k) && ltb k n) ≡ true = ground arith in
        let held_k : holds n (s.phase t) k ≡ true = rw e held_now in
        let same_readers = laws.unlock_write_ok (s.lock k) (v.written t k held_k) in
        let remains = unlock_in-holds t k s e held_k v in
        rw within (record {
          counted = λ j. elim (Bool-cases (k == j)) [
            | inl here ↦ rw here (same_readers ∙ v.counted k ∙ ap s.guards ((==_iff k j).0 here))
            | inr there ↦ rw there (v.counted j)
          ];
          written = λ t' i h.
              let (held, other) = remains t' i h in
              let off : (k == i) ≡ false = ground arith in rw off (v.written t' i held);
          unread = λ t' i h. v.unread t' i (remains t' i h).0;
          alone = λ t1 t2 i h1 h2. v.alone t1 t2 i (remains t1 i h1).0 (remains t2 i h2).0;
        })
  ]
