-- ===== src/ShardedAlloc/Address.antt =====
-- The addresses of src/sharded_alloc.rs: which words of a unit belong to which slot and shard.
use sdarc.Prelude.{ℕ, suc, ◌+◌, ◌*◌, ◌<◌, ◌≤◌, ◌≡◌, arith}
use sdarc.ShardedAlloc.{slot_count_per_unit, data_len_in_bytes, ShardedDataPtr, ptr_at_shard}

-- The pointer that a unit at address `d` hands out for slot `i`
abbrev pub slot_ptr : ℕ → ℕ → ShardedDataPtr
slot_ptr d i = record { base_ptr = d + i }

-- In a unit of `shard_count` shards, the word of a slot at a shard lies behind the usage flags and
-- ends within the bytes that the unit has allocated.
pub ptr_at_shard_bounds :
    (d i k shard_count : ℕ)
    → i < slot_count_per_unit
    → k < shard_count
    → (d + slot_count_per_unit ≤ ptr_at_shard (slot_ptr d i) k)
      × (8 * suc (ptr_at_shard (slot_ptr d i) k) ≤ 8 * d + data_len_in_bytes shard_count)
ptr_at_shard_bounds d i k shard_count lt below = (omega arith, omega arith)

-- Two slots of one unit have no word in common at any shards, and one slot has a word of its own
-- at each shard: equal addresses come from the same slot and the same shard.
pub ptr_at_shard_injective :
    (d i j k l : ℕ)
    → i < slot_count_per_unit
    → j < slot_count_per_unit
    → ptr_at_shard (slot_ptr d i) k ≡ ptr_at_shard (slot_ptr d j) l
    → (i ≡ j) × (k ≡ l)
ptr_at_shard_injective d i j k l lt lt' e = (omega arith, omega arith)
