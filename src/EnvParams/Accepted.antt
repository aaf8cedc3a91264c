-- ===== src/EnvParams/Accepted.antt =====
-- Which settings of src/env_params.rs give a shard count, and which stop the program.
use sdarc.Prelude.{
  ℕ, ◌^◌, ◌<◌, ◌≡◌, refl, inl, inr, ◌⊎◌, Option, none, some, arith, Bool-cases, ltb, Bool-cases,
}
use sdarc.Outcome.{done, panic}
use sdarc.ShardIndex.{ShardCount, max_shard_count, from_usize_adjusted, init_shard_count}
use sdarc.ShardIndex.Count.{IsShardCount, Enough, from_usize_adjusted_least}
use sdarc.EnvParams.{shard_count_from_env_var, started_shard_count}

-- The number that the shard count is to cover: the variable's, or else that of the CPUs, or 1.
abbrev pub wanted : Option (Option ℕ) → Option ℕ → ℕ
wanted (some (some num)) parallelism = num
wanted _ (some n) = n
wanted _ none = 1

-- A variable that is no number, or zero, or more than 256
abbrev pub IsRefused : Option (Option ℕ) → Type 0
IsRefused none = ⊥
IsRefused (some none) = Unit
IsRefused (some (some num)) = (num ≡ 0) ⊎ (256 < num)

-- `available_parallelism` is a `NonZero<usize>`.
abbrev pub IsParallelism : Option ℕ → Type 0
IsParallelism none = Unit
IsParallelism (some n) = (0 < n) × (n < 2 ^ 64)

accepted :
    (env : Option (Option ℕ)) (parallelism : Option ℕ)
    → (c : ShardCount) × (from_usize_adjusted (wanted env parallelism) ≡ done c)
      × IsShardCount c
      × Enough (wanted env parallelism) c
    → ¬ IsRefused env
    → (c : ShardCount) × (from_usize_adjusted (wanted env parallelism) ≡ done c)
      × IsShardCount c
      × Enough (wanted env parallelism) c
      × ¬ IsRefused env
accepted env parallelism (c, e, is, enough) ne = (c, e, is, enough, ne)

-- At its start the program panics exactly for a variable that is refused. Otherwise its shard count
-- is the least power of two that covers the wanted number, or 256 if more CPUs are there.
pub started_shard_count-IsShardCount :
    (env : Option (Option ℕ)) (parallelism : Option ℕ)
    → IsParallelism parallelism
    → (IsRefused env × (started_shard_count env parallelism ≡ panic))
      ⊎ ((c : ShardCount) × (started_shard_count env parallelism ≡ done c)
          × IsShardCount c
          × Enough (wanted env parallelism) c
          × ¬ IsRefused env)
unfolding started_shard_count shard_count_from_env_var init_shard_count
started_shard_count-IsShardCount none none v =
    inr (accepted none none (from_usize_adjusted_least 1 (omega arith) (omega arith)) (λ r. r))
started_shard_count-IsShardCount none (some n) v =
    inr (accepted none (some n) (from_usize_adjusted_least n v.0 v.1) (λ r. r))
started_shard_count-IsShardCount (some none) parallelism v = inl (tt, refl)
started_shard_count-IsShardCount (some (some num)) parallelism v =
    elim (Bool-cases (ltb max_shard_count num)) [
      | inl large ↦ inl (inr (ground arith), rw large refl)
      | inr small ↦ elim (Bool-cases (ltb 0 num)) [
        | inl positive ↦
            let (c, e, is, enough) = from_usize_adjusted_least num (ground arith) (ground arith) in
            inr (
              c,
              rw (small, positive, e) refl,
              is,
              enough,
              λ r. elim r [ inl is_zero ↦ ground arith | inr large ↦ ground arith ],
            )
        | inr zero_num ↦ inl (inl (ground arith), rw (small, zero_num) refl)
      ]
    ]
