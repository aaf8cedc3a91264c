-- ===== src/ShardIndex.antt =====
-- src/shard_index.rs: how many shards there are, and which one a number selects.
pub mod Words
pub mod Count
pub mod Arr
mod Tests
use Prim.Native.Nat.{bit_and}
use sdarc.Prelude.{
  ℕ, zero, suc, ◌+◌, ◌-◌, ◌%◌, ◌^◌, Option, none, some, List, [], ◌∷◌, ◌++◌, map, ltb, ◌==◌,
  if◌then◌else◌,
}
use sdarc.Outcome.{Outcome, done, panic}
use Words.{count_ones, trailing_zeros, ilog2}

-- `shard_count` is a power of two and `mask` is one less.
pub record ShardCount : Type 0 where
  pub shard_count : ℕ
  pub mask : ℕ

abbrev pub max_shard_count : ℕ
max_shard_count = 256

abbrev pub min_exponent : ℕ
min_exponent = 0

abbrev pub max_exponent : ℕ
max_exponent = 8

-- `u32::clamp`
abbrev clamp : ℕ → ℕ → ℕ → ℕ
clamp x lo hi = if ltb x lo then lo else if ltb hi x then hi else x

unfoldable pub from_exponent_adjusted : ℕ → ShardCount
from_exponent_adjusted exponent =
    let count = 2 ^ clamp exponent min_exponent max_exponent in
    record { shard_count = count; mask = count - 1 }

-- `assert_ne!(num, 0)` is the panic. Rust's bit counts run over the 64 bits of a `usize`.
unfoldable pub from_usize_adjusted : ℕ → Outcome ShardCount
from_usize_adjusted num =
    if num == 0
    then panic
    else if count_ones 64 num == 1
    then done (from_exponent_adjusted (trailing_zeros 64 num))
    else done (from_exponent_adjusted (ilog2 64 num + 1))

-- `(num & self.mask) as u8`
unfoldable pub modulo : ShardCount → ℕ → ℕ
modulo c num = bit_and num c.mask % 2 ^ 8

-- `thread::available_parallelism()` is the argument: `none` is its error.
unfoldable pub init_shard_count : Option ShardCount → Option ℕ → Outcome ShardCount
init_shard_count (some c) parallelism = done c
init_shard_count none (some n) = from_usize_adjusted n
init_shard_count none none = from_usize_adjusted 1

-- `ShardIndex::from_usize` and `from_u64` (a `usize` has 64 bits)
abbrev pub from_usize : ShardCount → ℕ → ℕ
from_usize c value = modulo c value

abbrev pub from_u64 : ShardCount → ℕ → ℕ
from_u64 c value = from_usize c value

-- What each platform's `curr_shard_index` goes by: the CPU's number on Windows and Linux, a random
-- number under miri, and elsewhere the hash of the thread's id, which is `none` when the
-- thread-local that caches it has been destroyed.
pub data PlatformNumber : Type 0 where
  cpu_index : ℕ → PlatformNumber
  random_value : ℕ → PlatformNumber
  thread_id_hash : Option ℕ → PlatformNumber

-- `shard_index_from_thread_id_hash`
abbrev pub shard_index_from_thread_id_hash : ShardCount → ℕ → ℕ
shard_index_from_thread_id_hash c value = from_u64 c value

abbrev pub curr_shard_index : ShardCount → PlatformNumber → ℕ
curr_shard_index c (cpu_index n) = modulo c n
curr_shard_index c (random_value n) = from_u64 c n
curr_shard_index c (thread_id_hash (some n)) = shard_index_from_thread_id_hash c n
curr_shard_index c (thread_id_hash none) = from_usize c 0

-- `(0..n).map(|i| ShardIndex(i as u8))`
abbrev pub upto : ℕ → List ℕ
upto zero = []
upto (suc n) = upto n ++ n ∷ []

unfoldable pub shard_indexes : ShardCount → List ℕ
shard_indexes c = map (λ i. i % 2 ^ 8) (upto c.shard_count)

-- `0..shard_index.0`, after its assertion
unfoldable pub shard_indexes_until : ShardCount → ℕ → Outcome (List ℕ)
shard_indexes_until c i = if ltb c.shard_count i then panic else done (upto i)
