-- ===== src/ShardMap/Tests.antt =====
-- Runs of lab4/kv/shardmap.go on two nodes and two shards.
use cs426_spring2022_labs.Common.{
  Bool-cases, String, ◌≡◌, ◌↔◌, refl, inl, inr, true, false, [], ◌∷◌, pos, In, arith, string_key,
  int_key, string_same,
}
use cs426_spring2022_labs.Common.GoMap.{GoMap, Unique, get, insert}
use cs426_spring2022_labs.ShardMap.{
  NodeInfo, ShardMapState, check_nodes, check_shards, is_valid, append_matching, collect_shards,
  shards_for_node, nodes_for_shard,
}
use cs426_spring2022_labs.ShardMap.Valid.{IsConsistent, is_valid_iff}
use cs426_spring2022_labs.ShardMap.Queries.{shards_for_node-nodes_for_shard}

abbrev two_nodes : GoMap String NodeInfo
two_nodes =
    ("n1", record { address = "127.0.0.1"; port = pos 9000 })
    ∷ ("n2", record { address = "127.0.0.1"; port = pos 9001 })
    ∷ []

abbrev two_shards : ShardMapState
two_shards = record {
  nodes = two_nodes;
  shards_to_nodes = (pos 1, "n1" ∷ "n2" ∷ []) ∷ (pos 2, "n2" ∷ []) ∷ [];
  num_shards = pos 2;
}

two_shards-Unique : Unique two_shards.shards_to_nodes
two_shards-Unique = ((λ i. elim i [ inl e ↦ ground arith | inr b ↦ b.0 ]), ((λ i. i.0), tt))

two_shards_valid : is_valid two_shards ≡ true
unfolding is_valid check_shards check_nodes get insert string_same Bool-cases
two_shards_valid = refl

unknown_node_invalid :
    is_valid (record two_shards { shards_to_nodes = (pos 1, "n3" ∷ []) ∷ [] }) ≡ false
unfolding is_valid check_shards check_nodes get insert string_same Bool-cases
unknown_node_invalid = refl

repeated_node_invalid :
    is_valid (record two_shards { shards_to_nodes = (pos 1, "n1" ∷ "n1" ∷ []) ∷ [] }) ≡ false
unfolding is_valid check_shards check_nodes get insert string_same Bool-cases
repeated_node_invalid = refl

shards_of_n2 : shards_for_node two_shards "n2" ≡ pos 1 ∷ pos 2 ∷ []
unfolding shards_for_node collect_shards append_matching string_same Bool-cases
shards_of_n2 = refl

is_valid_iff_example : (is_valid two_shards ≡ true) ↔ IsConsistent two_shards
is_valid_iff_example = is_valid_iff two_shards

shards_for_node-nodes_for_shard_example :
    In (pos 2) (shards_for_node two_shards "n2") ↔ In "n2" (nodes_for_shard two_shards (pos 2))
shards_for_node-nodes_for_shard_example =
    shards_for_node-nodes_for_shard two_shards "n2" (pos 2) two_shards-Unique
