-- ===== src/ShardIndex/Tests.antt =====
-- Runs of the definitions for src/shard_index.rs, and its theorems at concrete inputs.
use sdarc.Prelude.{ℕ, ◌%◌, ◌≡◌, refl, arith, List, length}
use sdarc.Outcome.{done, panic}
use sdarc.ShardIndex.{ShardCount, from_usize_adjusted, from_exponent_adjusted, cpu_index}
use sdarc.ShardIndex.Words.{count_ones, ilog2}
use sdarc.ShardIndex.Count.{IsShardCount, Enough, from_usize_adjusted_least}
use sdarc.ShardIndex.Arr.{shards_arr, at_curr_shard, shards_arr-at_curr_shard}

abbrev eight : ShardCount
eight = record { shard_count = 8; mask = 7 }

eight-IsShardCount : IsShardCount eight
eight-IsShardCount = record { exponent = 3; small = omega arith; count = refl; mask = refl }

twelve_rounds_up : from_usize_adjusted 12 ≡ done (record { shard_count = 16; mask = 15 })
unfolding from_usize_adjusted from_exponent_adjusted count_ones ilog2
twelve_rounds_up = refl

zero_panics : from_usize_adjusted 0 ≡ panic
unfolding from_usize_adjusted
zero_panics = refl

from_usize_adjusted_least_example :
    (c : ShardCount) × (from_usize_adjusted 12 ≡ done c) × IsShardCount c × Enough 12 c
from_usize_adjusted_least_example = from_usize_adjusted_least 12 (omega arith) (omega arith)

shards_arr-at_curr_shard_example :
    (arr : List ℕ) × (shards_arr eight (λ i. i) ≡ done arr)
    × (length arr ≡ 8)
    × (at_curr_shard eight (cpu_index 29) arr ≡ done (29 % 8))
shards_arr-at_curr_shard_example =
    shards_arr-at_curr_shard eight (λ i. i) (cpu_index 29) eight-IsShardCount
