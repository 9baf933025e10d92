-- ===== src/ShardKey/Tests.antt =====
-- The shard of a key under a concrete hash, lab4/kv/util.go.
use cs426_spring2022_labs.Common.{ℕ, ◌+◌, ◌%◌, ◌≡◌, List, [], ◌∷◌, ℤ, pos, ◌≤ℤ◌, returns, arith}
use cs426_spring2022_labs.ShardKey.{get_shard_for_key, get_shard_for_key_range}

-- A hash for the tests, which adds the bytes up.
abbrev byte_sum : List ℕ → ℕ
byte_sum [] = 0
byte_sum (b ∷ bs) = (b + byte_sum bs) % 4294967296

get_shard_for_key_range_example :
    (shard : ℤ) × (get_shard_for_key byte_sum (b'k' ∷ b'1' ∷ []) (pos 5) ≡ returns shard)
    × (pos 1 ≤ℤ shard)
    × (shard ≤ℤ pos 5)
get_shard_for_key_range_example =
    get_shard_for_key_range byte_sum (b'k' ∷ b'1' ∷ []) 5 (omega arith)
