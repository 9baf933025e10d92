-- ===== src/Listeners.antt =====
-- lab4/kv/shardmap.go: the type `ShardMap`, which holds the current state and notifies listeners.
pub mod Invariant
pub mod Methods
pub mod Runs
pub mod Closed
pub mod Tests
-- A channel is unbuffered, so a send waits for its receiver: it is one notification more for a channel
-- from which somebody goes on receiving, and blocks for ever on another. A send on a closed channel
-- panics, and so does closing it again. Each method holds the mutex. `Update` has swapped the state when
-- it comes to its sends.
use cs426_spring2022_labs.Common.{
  ℕ, suc, String, Bool, true, false, not, Option, none, some, List, [], ◌∷◌, ℤ, Outcome, returns,
  panics, blocks, ◌>>=◌, if◌then◌else◌, Heap, write, nat_key,
}
use cs426_spring2022_labs.Common.GoMap.{GoMap, insert, delete}
use cs426_spring2022_labs.ShardMap.{
  NodeInfo, ShardMapState, shards_for_node as shards_in_state, nodes_for_shard as nodes_in_state,
}

pub record Chan : Type 0 where
  pub closed : Bool
  -- whether somebody goes on receiving from it
  pub receiving : Bool
  -- the notifications that its receiver has taken
  pub received : ℕ

pub record ShardMap : Type 0 where
  -- `none` before the first `Update`
  pub state : Option ShardMapState
  -- the channel of each listener by its id; `none` is the nil map
  pub update_channels : Option (GoMap ℕ ℕ)
  pub update_channel_counter : ℕ
  -- the channels that exist, by address, and the next free address
  pub channels : Heap Chan
  pub next_channel : ℕ

pub record ShardMapListener : Type 0 where
  pub ch : ℕ
  pub id : ℕ

abbrev pub open_chan : Chan
open_chan = record { closed = false; receiving = false; received = 0 }

abbrev pub zero_shard_map : ShardMap
zero_shard_map = record {
  state = none;
  update_channels = none;
  update_channel_counter = 0;
  channels = λ _. open_chan;
  next_channel = 0;
}

-- The entries that `range` visits, and a read or a delete acts on: none of them on a nil map.
abbrev pub entries : Option (GoMap ℕ ℕ) → GoMap ℕ ℕ
entries none = []
entries (some m) = m

unfoldable pub get_state : ShardMap → Outcome ShardMapState
get_state sm = elim sm.state [ none ↦ panics | some s ↦ returns s ]

unfoldable pub nodes : ShardMap → Outcome (GoMap String NodeInfo)
unfolding get_state
nodes sm = do s ← get_state sm; returns s.nodes

unfoldable pub num_shards : ShardMap → Outcome ℤ
unfolding get_state
num_shards sm = do s ← get_state sm; returns s.num_shards

unfoldable pub shards_for_node : ShardMap → String → Outcome (List ℤ)
unfolding get_state
shards_for_node sm node_name = do s ← get_state sm; returns (shards_in_state s node_name)

unfoldable pub nodes_for_shard : ShardMap → ℤ → Outcome (List String)
unfolding get_state
nodes_for_shard sm shard = do s ← get_state sm; returns (nodes_in_state s shard)

unfoldable pub make_listener : ShardMap → ShardMap × ShardMapListener
make_listener sm =
    let ch = sm.next_channel in
    let id = sm.update_channel_counter in
    (
      record sm {
        update_channels = some (insert (entries sm.update_channels) id ch);
        update_channel_counter = suc id;
        channels = write sm.channels ch open_chan;
        next_channel = suc ch;
      },
      record { ch = ch; id = id },
    )

-- `ch <- struct{}{}`
send : ℕ → Heap Chan → Outcome (Heap Chan)
send ch chans =
    let c = chans ch in
    if c.closed
    then panics
    else if not c.receiving
    then blocks
    else returns (write chans ch (record c { received = suc c.received }))

-- The loop of `Update`.
unfoldable pub notify : GoMap ℕ ℕ → Heap Chan → Outcome (Heap Chan)
unfolding send
notify [] chans = returns chans
notify ((_, ch) ∷ rest) chans = do chans' ← send ch chans; notify rest chans'

unfoldable pub update : ShardMap → ShardMapState → Outcome ShardMap
unfolding notify
update sm s = do
  chans ← notify (entries sm.update_channels) sm.channels
  returns (record sm { state = some s; channels = chans })

abbrev delete_entry : Option (GoMap ℕ ℕ) → ℕ → Option (GoMap ℕ ℕ)
delete_entry none id = none
delete_entry (some m) id = some (delete m id)

-- `close(ch)`
close_chan : ℕ → Heap Chan → Outcome (Heap Chan)
close_chan ch chans =
    let c = chans ch in
    if c.closed then panics else returns (write chans ch (record c { closed = true }))

unfoldable pub close : ShardMapListener → ShardMap → Outcome ShardMap
unfolding close_chan
close listener sm = do
  chans ← close_chan listener.ch sm.channels
  returns (record sm {
    update_channels = delete_entry sm.update_channels listener.id;
    channels = chans;
  })
