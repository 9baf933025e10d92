-- ===== src/ShardKey.antt =====
-- lab4/kv/util.go: the shard of a key. The hash is Go's `hash/fnv`, a parameter: `fnv32` maps the
-- bytes of a key to a `uint32`.
mod Tests
use cs426_spring2022_labs.Common.{
  ℕ, ◌+◌, ◌%◌, ◌<◌, ◌≡◌, List, ℤ, pos, negsuc, suc, ◌≤ℤ◌, Outcome, returns, panics, arith,
  if◌then◌else◌, ◌==◌,
}

module _ (fnv32 : List ℕ → ℕ) where
  -- `%` panics on zero, and ignores the sign of the divisor where the dividend is not negative.
  unfoldable pub get_shard_for_key : List ℕ → ℤ → Outcome ℤ
  get_shard_for_key key (pos n) = if n == 0 then panics else returns (pos (fnv32 key % n + 1))
  get_shard_for_key key (negsuc n) = returns (pos (fnv32 key % suc n + 1))

  -- With at least one shard every key has a shard, from 1 to `NumShards`.
  pub get_shard_for_key_range :
      (key : List ℕ) (n : ℕ)
      → 0 < n
      → (shard : ℤ) × (get_shard_for_key key (pos n) ≡ returns shard)
        × (pos 1 ≤ℤ shard)
        × (shard ≤ℤ pos n)
  unfolding get_shard_for_key
  get_shard_for_key_range key n h =
      (pos (fnv32 key % n + 1), ground arith, omega arith, grind arith)
