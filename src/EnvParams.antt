-- ===== src/EnvParams.antt =====
-- src/env_params.rs: the settings from environment variables, and with it the start of the shard
-- count. What `env::var` and `parse` give is an argument: `none` for a variable that is not set,
-- `some none` for one that is not an unsigned integer of 64 bits.
pub mod Accepted
mod Tests
use sdarc.Prelude.{ℕ, Option, none, some, ltb, ◌==◌, not, if◌then◌else◌}
use sdarc.Outcome.{Outcome, done, panic, ◌>>=◌, ◌>>◌, assert}
use sdarc.ShardIndex.{ShardCount, max_shard_count, from_usize_adjusted, init_shard_count}

-- in milliseconds
pub record CollectorParams : Type 0 where
  pub interval : ℕ

abbrev pub default_collector_interval : ℕ
default_collector_interval = 500

unfoldable pub new_from_env_var : Option (Option ℕ) → Outcome CollectorParams
new_from_env_var none = done (record { interval = default_collector_interval })
new_from_env_var (some none) = panic
new_from_env_var (some (some num)) = done (record { interval = num })

unfoldable pub shard_count_from_env_var : Option (Option ℕ) → Outcome (Option ShardCount)
shard_count_from_env_var none = done none
shard_count_from_env_var (some none) = panic
shard_count_from_env_var (some (some num)) =
    if ltb max_shard_count num
    then panic
    else (assert (ltb 0 num) >> (from_usize_adjusted num >>= λ c. done (some c)))

-- `init_shard_count`, which asks the variable first
unfoldable pub started_shard_count : Option (Option ℕ) → Option ℕ → Outcome ShardCount
started_shard_count env parallelism =
    shard_count_from_env_var env >>= λ c. init_shard_count c parallelism
