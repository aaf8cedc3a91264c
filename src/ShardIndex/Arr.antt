-- ===== src/ShardIndex/Arr.antt =====
-- src/shard_index.rs, `ShardsArr`: one element for each shard, in order.
use sdarc.Prelude.{
  ℕ, zero, suc, ◌%◌, ◌<◌, ◌≡◌, refl, ap, ◌∙◌, List, [], ◌∷◌, ◌++◌, map, Option, none, some, arith,
  ◌==◌, ==_iff, length, get_elem?, length-append, length-map, dec_lt,
}
use native.Mathlib.Nat.{mod-eq_of_lt}
use sdarc.Outcome.{Outcome, done, panic, ◌>>◌, assert}
use sdarc.ShardIndex.{
  ShardCount, upto, shard_indexes, modulo, PlatformNumber, cpu_index, random_value, thread_id_hash,
  curr_shard_index,
}
use sdarc.ShardIndex.Count.{IsShardCount, modulo-lt, count-le_256}

-- `ShardsArr::new`, with its assertion on the length
unfoldable pub shards_arr {ℓ} : {T : Type ℓ} → ShardCount → (ℕ → T) → Outcome (List T)
shards_arr c init_fn =
    let vec = map init_fn (shard_indexes c) in assert (length vec == c.shard_count) >> done vec

abbrev found {ℓ} : {T : Type ℓ} → Option T → Outcome T
found none = panic
found (some x) = done x

-- `Index for ShardsArr`, which panics out of range, and `at_curr_shard`
unfoldable pub index {ℓ} : {T : Type ℓ} → List T → ℕ → Outcome T
index arr i = found (get_elem? arr i)

unfoldable pub at_curr_shard {ℓ} : {T : Type ℓ} → ShardCount → PlatformNumber → List T → Outcome T
unfolding index
at_curr_shard c platform arr = index arr (curr_shard_index c platform)

length-upto : (n : ℕ) → length (upto n) ≡ n
length-upto zero = refl
length-upto (suc n) = omega (arith, length-append (upto n) (n ∷ []), length-upto n)

get_elem?-append_right {ℓ} :
    {A : Type ℓ} (xs : List A) (y : A) (n : ℕ) → length xs ≡ n → get_elem? (xs ++ y ∷ []) n ≡ some y
get_elem?-append_right [] y zero h = refl
get_elem?-append_right [] y (suc n) h = absurd (omega arith)
get_elem?-append_right (x ∷ xs) y zero h = absurd (omega arith)
get_elem?-append_right (x ∷ xs) y (suc n) h = get_elem?-append_right xs y n (omega arith)

get_elem?-append_left {ℓ} :
    {A : Type ℓ} (xs ys : List A) (n : ℕ) → n < length xs → get_elem? (xs ++ ys) n ≡ get_elem? xs n
get_elem?-append_left [] ys n h = absurd (omega arith)
get_elem?-append_left (x ∷ xs) ys zero h = refl
get_elem?-append_left (x ∷ xs) ys (suc n) h = get_elem?-append_left xs ys n (omega arith)

get_elem?-map {ℓ κ} :
    {A : Type ℓ} {B : Type κ} (f : A → B) (xs : List A) (i : ℕ) {a : A}
    → get_elem? xs i ≡ some a
    → get_elem? (map f xs) i ≡ some (f a)
get_elem?-map f [] i h = cc
get_elem?-map f (x ∷ xs) zero h = cc
get_elem?-map f (x ∷ xs) (suc i) h = get_elem?-map f xs i h

get_elem?-upto : (n i : ℕ) → i < n → get_elem? (upto n) i ≡ some i
get_elem?-upto zero i h = absurd (omega arith)
get_elem?-upto (suc n) i h = elim (dec_lt i n) [
  | yes below ↦
      get_elem?-append_left (upto n) (n ∷ []) i (omega (arith, length-upto n))
      ∙ get_elem?-upto n i below
  | no last ↦
      let e : n ≡ i = omega arith in
      get_elem?-append_right (upto n) n i (length-upto n ∙ e) ∙ ap some e
]

-- The iteration over the shards is 0, 1, … in order: the cast to `u8` loses nothing.
pub get_elem?-shard_indexes :
    (c : ShardCount) (i : ℕ)
    → IsShardCount c
    → i < c.shard_count
    → get_elem? (shard_indexes c) i ≡ some i
unfolding shard_indexes
get_elem?-shard_indexes c i v h =
    get_elem?-map _ (upto c.shard_count) i (get_elem?-upto c.shard_count i h)
    ∙ ap some (mod-eq_of_lt (omega (arith, count-le_256 c v)))

-- The number that a platform goes by
abbrev pub number : PlatformNumber → ℕ
number (cpu_index n) = n
number (random_value n) = n
number (thread_id_hash (some n)) = n
number (thread_id_hash none) = 0

curr_shard_index-modulo :
    (c : ShardCount) (platform : PlatformNumber)
    → curr_shard_index c platform ≡ modulo c (number platform)
curr_shard_index-modulo c (cpu_index n) = refl
curr_shard_index-modulo c (random_value n) = refl
curr_shard_index-modulo c (thread_id_hash (some n)) = refl
curr_shard_index-modulo c (thread_id_hash none) = refl

-- Making an array does not panic, and gives one element for each shard; and whatever number the
-- platform goes by, the access at the current shard is in range and gives that shard's element.
pub shards_arr-at_curr_shard {ℓ} :
    {T : Type ℓ} (c : ShardCount) (init_fn : ℕ → T) (platform : PlatformNumber)
    → IsShardCount c
    → (arr : List T) × (shards_arr c init_fn ≡ done arr)
      × (length arr ≡ c.shard_count)
      × (at_curr_shard c platform arr ≡ done (init_fn (number platform % c.shard_count)))
unfolding shards_arr shard_indexes at_curr_shard
shards_arr-at_curr_shard {T} c init_fn platform v =
    let size : length (map init_fn (shard_indexes c)) ≡ c.shard_count =
      length-map (shard_indexes c) init_fn
      ∙ length-map (upto c.shard_count) _
      ∙ length-upto c.shard_count in
    let whole = (==_iff (length (map init_fn (shard_indexes c))) c.shard_count).1 size in
    let (is_rest, lt) = modulo-lt c (number platform) v in
    let in_range : number platform % c.shard_count < c.shard_count = omega (arith, is_rest, lt) in
    (
      map init_fn (shard_indexes c),
      rw whole refl,
      size,
      ap (λ i. found (get_elem? (map init_fn (shard_indexes c)) i))
            (curr_shard_index-modulo c platform ∙ is_rest)
          ∙ ap found
              (get_elem?-map init_fn (shard_indexes c) _ (get_elem?-shard_indexes c _ v in_range)),
    )
