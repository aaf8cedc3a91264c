-- ===== src/EnvParams/Tests.antt =====
-- Runs of the definitions for src/env_params.rs, and its theorem at a concrete input.
use sdarc.Prelude.{◌≡◌, ◌⊎◌, refl, arith, none, some}
use sdarc.Outcome.{done, panic}
use sdarc.ShardIndex.{ShardCount}
use sdarc.ShardIndex.Count.{IsShardCount, Enough}
use sdarc.EnvParams.{new_from_env_var, shard_count_from_env_var, started_shard_count}
use sdarc.EnvParams.Accepted.{IsRefused, started_shard_count-IsShardCount}

half_a_second : new_from_env_var none ≡ done (record { interval = 500 })
unfolding new_from_env_var
half_a_second = refl

too_many_shards : shard_count_from_env_var (some (some 257)) ≡ panic
unfolding shard_count_from_env_var
too_many_shards = refl

started_shard_count-IsShardCount_example :
    (IsRefused (some (some 24)) × (started_shard_count (some (some 24)) (some 8) ≡ panic))
    ⊎ ((c : ShardCount) × (started_shard_count (some (some 24)) (some 8) ≡ done c)
        × IsShardCount c
        × Enough 24 c
        × ¬ IsRefused (some (some 24)))
started_shard_count-IsShardCount_example =
    started_shard_count-IsShardCount (some (some 24)) (some 8) (omega arith, omega arith)
