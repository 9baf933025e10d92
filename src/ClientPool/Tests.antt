-- ===== src/ClientPool/Tests.antt =====
-- Two calls of `GetClient` in lab4/kv/clientpool.go for the same node.
use cs426_spring2022_labs.Common.{
  ◌≡◌, refl, ℕ, String, some, [], ◌∷◌, ℤ, pos, returns, string_same, Bool-cases,
}
use cs426_spring2022_labs.Common.GoMap.{get, insert}
use cs426_spring2022_labs.Listeners.{ShardMap, zero_shard_map, get_state, nodes}
use cs426_spring2022_labs.ClientPool.{
  connects, refused, client, World, make_client_pool, keep_client, add_client, get_locked,
  get_client,
}
use cs426_spring2022_labs.ClientPool.Kept.{here, get_client_kept}

abbrev only_host : String → ℤ → String
only_host address port = address

abbrev one_node : ShardMap
one_node = record zero_shard_map {
  state = some (record {
    nodes = ("n1", record { address = "localhost"; port = pos 9000 }) ∷ [];
    shards_to_nodes = [];
    num_shards = pos 1;
  });
}

abbrev reachable : World ℕ
reachable = record { shard_map = one_node; dial = λ address. connects 7 }

abbrev unreachable : World ℕ
unreachable = record { shard_map = one_node; dial = λ address. refused "connection refused" }

connected :
    get_client only_host reachable "n1" make_client_pool make_client_pool
    ≡ returns (("n1", 7) ∷ [], client 7)
unfolding get_client get_locked add_client keep_client insert get nodes get_state string_same
    Bool-cases
connected = refl

get_client_kept_example :
    get_client only_host unreachable "n1" (("n1", 7) ∷ []) (("n1", 7) ∷ [])
    ≡ returns (("n1", 7) ∷ [], client 7)
get_client_kept_example =
    get_client_kept only_host reachable unreachable "n1" make_client_pool make_client_pool
      (("n1", 7) ∷ []) (("n1", 7) ∷ []) (("n1", 7) ∷ []) 7 here connected here here
