-- ===== src/FileShardMap.antt =====
-- lab4/kv/file_shardmap.go: a shard map that follows a file. The file system, `fsnotify` and the JSON
-- decoder are given by what they answer at each moment.
pub mod Follows
pub mod Started
mod Tests
use Prim.Native.Nat.{bit_and}
use cs426_spring2022_labs.Common.{
  ℕ, zero, suc, ite, ◌||◌, String, Bool, true, false, Option, none, some, List, [], ◌∷◌, Outcome,
  returns, blocks, ◌>>=◌, if◌then◌else◌, ◌==◌, not, string_key,
}
use cs426_spring2022_labs.ShardMap.{ShardMapState}
use cs426_spring2022_labs.Listeners.{ShardMap, zero_shard_map, update}

-- The operations of `fsnotify`, bit sets.
pub record Ops : Type 0 where
  pub write : ℕ
  pub create : ℕ

-- What reading the file and parsing its bytes answer at a moment; `none` is an error.
pub record Disk : Type 0 where
  pub read_file : String → Option (List ℕ)
  pub unmarshal : List ℕ → Option ShardMapState

pub record FileShardMap : Type 0 where
  pub shard_map : ShardMap
  pub filename : String
  -- whether the channel `done` was made, or is nil
  pub done_made : Bool

abbrev pub is_bit_set : (bitset bit : ℕ) → Bool
is_bit_set bitset bit = not (bit_and bitset bit == 0)

-- What the file holds: the state it parses to, if it can be read and parsed.
abbrev pub contents : Disk → String → Option ShardMapState
contents disk filename = elim (disk.read_file filename) [
  | none ↦ none
  | some bytes ↦ disk.unmarshal bytes
]

-- `applyFromFile`; true is no error.
unfoldable pub apply_state : Option ShardMapState → FileShardMap → Outcome (FileShardMap × Bool)
apply_state none fsm = returns (fsm, false)
apply_state (some state) fsm = do
  shard_map ← update fsm.shard_map state
  returns (record fsm { shard_map = shard_map }, true)

unfoldable pub apply_from_file : Disk → FileShardMap → Outcome (FileShardMap × Bool)
unfolding apply_state
apply_from_file disk fsm = apply_state (contents disk fsm.filename) fsm

-- `WatchShardMapFile`: whether a watcher could be made, and could watch the directory.
unfoldable pub watch_shard_map_file :
    (made watched : Bool) → Disk → String → Outcome (Option FileShardMap)
unfolding apply_from_file
watch_shard_map_file made watched disk filename =
    if not made then returns none else if not watched then returns none else do
      applied ←
          apply_from_file disk
            (record { shard_map = zero_shard_map; filename = filename; done_made = false })
      returns (if applied.1 then some applied.0 else none)

-- A send on a nil channel blocks for ever; on the channel that is made the loop receives it.
unfoldable pub shutdown : FileShardMap → Outcome (Unit {0})
shutdown fsm = if fsm.done_made then returns tt else blocks

-- What the `select` of the loop receives; `none` from a channel that is closed.
pub data Signal : Type 0 where
  event : Option (String × ℕ) → Signal
  failure : Option String → Signal
  done : Signal

-- Whether an event makes the loop read the file.
abbrev pub is_update : Ops → String → Signal → Bool
is_update ops filename (event (some (name, op))) =
    ite (string_key.same name filename) (is_bit_set op ops.write || is_bit_set op ops.create) false
is_update ops filename (event none) = false
is_update ops filename (failure err) = false
is_update ops filename done = false

-- One round of the loop of `watchForUpdates`, up to the end of the `select`.
unfoldable pub watch_round : Ops → Disk → Signal → FileShardMap → Outcome FileShardMap
unfolding apply_from_file
watch_round ops disk signal fsm =
    if is_update ops fsm.filename signal
    then (apply_from_file disk fsm >>= λ applied. returns applied.0)
    else returns fsm

-- The loop, with whether it returned; a closed channel does not end it.
unfoldable pub watch_for_updates :
    Ops → List (Disk × Signal) → FileShardMap → Outcome (FileShardMap × Bool)
unfolding watch_round
watch_for_updates ops [] fsm = returns (fsm, false)
watch_for_updates ops ((disk, done) ∷ rest) fsm = returns (fsm, true)
watch_for_updates ops ((disk, event e) ∷ rest) fsm =
    watch_round ops disk (event e) fsm >>= watch_for_updates ops rest
watch_for_updates ops ((disk, failure err) ∷ rest) fsm =
    watch_round ops disk (failure err) fsm >>= watch_for_updates ops rest
