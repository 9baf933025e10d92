-- ===== src/ShardMap.antt =====
-- lab4/kv/shardmap.go: the state of a shard map, its validity test, and the queries on it.
pub mod Valid
pub mod Count
pub mod Queries
mod Tests
use cs426_spring2022_labs.Common.{
  String, ite, Bool, true, false, none, some, List, [], ◌∷◌, ◌++◌, ◌||◌, length, ltb_ℤ, ℤ, pos,
  if◌then◌else◌, string_key, int_key,
}
use cs426_spring2022_labs.Common.GoMap.{GoMap, get, insert}

pub record NodeInfo : Type 0 where
  pub address : String
  pub port : ℤ

pub record ShardMapState : Type 0 where
  pub nodes : GoMap String NodeInfo
  pub shards_to_nodes : GoMap ℤ (List String)
  pub num_shards : ℤ

-- The inner loop of `IsValid`, over the nodes of one shard; `node_set` is the set of those seen.
check_nodes : GoMap String NodeInfo → GoMap String (Unit {0}) → List String → Bool
check_nodes nodes node_set [] = true
check_nodes nodes node_set (node ∷ rest) = elim (get nodes node) [
  | none ↦ false
  | some _ ↦ elim (get node_set node) [
    | some _ ↦ false
    | none ↦ check_nodes nodes (insert node_set node tt) rest
  ]
]

-- The outer loop of `IsValid`, over the entries of `ShardsToNodes`.
pub check_shards : GoMap String NodeInfo → ℤ → GoMap ℤ (List String) → Bool
unfolding check_nodes
check_shards nodes num_shards [] = true
check_shards nodes num_shards ((shard, names) ∷ rest) =
    elim (ltb_ℤ shard (pos 1) || ltb_ℤ num_shards shard) [
      | true ↦ false
      | false ↦ elim (check_nodes nodes [] names) [
        | false ↦ false
        | true ↦ check_shards nodes num_shards rest
      ]
    ]

unfoldable pub is_valid : ShardMapState → Bool
unfolding check_shards
is_valid s =
    if ltb_ℤ s.num_shards (pos (length s.shards_to_nodes))
    then false
    else check_shards s.nodes s.num_shards s.shards_to_nodes

-- The inner loop of `ShardsForNode`: the shard is appended once for each matching name.
append_matching : String → ℤ → List String → List ℤ → List ℤ
append_matching node_name shard [] shards = shards
append_matching node_name shard (node ∷ rest) shards =
    append_matching node_name shard rest
      (ite (string_key.same node node_name) (shards ++ shard ∷ []) shards)

collect_shards : String → GoMap ℤ (List String) → List ℤ → List ℤ
collect_shards node_name [] shards = shards
collect_shards node_name ((shard, names) ∷ rest) shards =
    collect_shards node_name rest (append_matching node_name shard names shards)

unfoldable pub shards_for_node : ShardMapState → String → List ℤ
unfolding append_matching collect_shards
shards_for_node s node_name = collect_shards node_name s.shards_to_nodes []

unfoldable pub nodes_for_shard : ShardMapState → ℤ → List String
nodes_for_shard s shard = elim (get s.shards_to_nodes shard) [ none ↦ [] | some names ↦ names ]
