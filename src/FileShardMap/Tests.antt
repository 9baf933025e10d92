-- ===== src/FileShardMap/Tests.antt =====
-- A shard map that follows a file which is written badly and then well, lab4/kv/file_shardmap.go.
use cs426_spring2022_labs.Common.{
  ◌≡◌, refl, true, false, none, some, List, [], ◌∷◌, pos, returns, blocks,
}
use cs426_spring2022_labs.ShardMap.{ShardMapState}
use cs426_spring2022_labs.Listeners.{notify, update}
use cs426_spring2022_labs.Listeners.Tests.{
  two_receivers, two_receivers-Inv, two_receivers-IsReceiving,
}
use cs426_spring2022_labs.FileShardMap.{
  Ops, Disk, FileShardMap, apply_state, apply_from_file, watch_shard_map_file, shutdown, Signal,
  event, failure, watch_for_updates,
}
use cs426_spring2022_labs.FileShardMap.Started.{started, shutdown-watch_shard_map_file}
use cs426_spring2022_labs.FileShardMap.Follows.{Watches, watch_for_updates_lem}

abbrev ops : Ops
ops = record { write = 2; create = 1 }

abbrev no_shards : ShardMapState
no_shards = record { nodes = []; shards_to_nodes = []; num_shards = pos 0 }

abbrev bad_file : Disk
bad_file = record { read_file = λ name. some (0 ∷ []); unmarshal = λ bytes. none }

abbrev good_file : Disk
good_file = record { read_file = λ name. some (1 ∷ []); unmarshal = λ bytes. some no_shards }

abbrev followed : FileShardMap
followed = record { shard_map = two_receivers; filename = "shardmap.json"; done_made = false }

abbrev signals : List (Disk × Signal)
signals =
    (bad_file, event (some ("shardmap.json", 2)))
    ∷ (good_file, failure none)
    ∷ (good_file, event (some ("shardmap.json", 1)))
    ∷ []

watch_for_updates_lem_example : Watches ops signals followed
watch_for_updates_lem_example =
    watch_for_updates_lem ops signals followed two_receivers-Inv two_receivers-IsReceiving

abbrev started_map : FileShardMap
started_map = started "shardmap.json" no_shards

starts : watch_shard_map_file true true good_file "shardmap.json" ≡ returns (some started_map)
unfolding watch_shard_map_file apply_from_file apply_state update notify
starts = refl

goes_on : watch_for_updates ops [] started_map ≡ returns (started_map, false)
unfolding watch_for_updates
goes_on = refl

shutdown-watch_shard_map_file_example : shutdown started_map ≡ blocks
shutdown-watch_shard_map_file_example =
    shutdown-watch_shard_map_file true true good_file "shardmap.json" ops [] started_map started_map
      false starts goes_on
