-- ===== src/ClientPool.antt =====
-- lab4/kv/clientpool.go: the cache of clients. Making a connection is gRPC's: `dial` gives the client
-- or the error for an address at the time of the call, and `format` is Go's `fmt.Sprintf("%s:%d")`.
pub mod Kept
mod Tests
use cs426_spring2022_labs.Common.{
  ℕ, String, Option, none, some, ℤ, Outcome, returns, ◌>>=◌, string_key, [], List,
}
use cs426_spring2022_labs.Common.GoMap.{GoMap, get, insert}
use cs426_spring2022_labs.ShardMap.{NodeInfo}
use cs426_spring2022_labs.Listeners.{ShardMap, nodes}

-- `shardMap` is an argument of the calls, since it changes beside the pool.
abbrev pub Clients : Type 0 → Type 0
Clients = GoMap String

pub data Dialed (C : Type 0) : Type 0 where
  connects : C → Dialed C
  refused : (err : String) → Dialed C

pub data Result (C : Type 0) : Type 0 where
  client : C → Result C
  unknown_node : Result C
  not_connected : (err : String) → Result C

-- What a call meets: the shard map and the answers of gRPC at that moment.
pub record World (C : Type 0) : Type 0 where
  pub shard_map : ShardMap
  pub dial : String → Dialed C

abbrev pub make_client_pool : {C : Type 0} → Clients C
make_client_pool = []

unfoldable pub keep_client : {C : Type 0} → String → Clients C → Dialed C → Clients C × Result C
keep_client node_name clients (connects c) = (insert clients node_name c, client c)
keep_client node_name clients (refused err) = (clients, not_connected err)

module _ {C : Type 0} (format : String → ℤ → String) where
  -- The connection to a node that is not cached, from what the shard map says of it.
  unfoldable pub add_client : World C → String → Clients C → Option NodeInfo → Clients C × Result C
  unfolding keep_client
  add_client world node_name clients none = (clients, unknown_node)
  add_client world node_name clients (some info) =
      keep_client node_name clients (world.dial (format info.address info.port))

  -- The part under the exclusive lock, on the map as it is then.
  unfoldable pub get_locked : World C → String → Clients C → Outcome (Clients C × Result C)
  unfolding add_client
  get_locked world node_name clients = elim (get clients node_name) [
    | some c ↦ returns (clients, client c)
    | none ↦ do
      known ← nodes world.shard_map
      returns (add_client world node_name clients (get known node_name))
  ]

  -- `GetClient`: `at_read` is the map under the read lock, `at_lock` that under the exclusive one.
  unfoldable pub get_client :
      World C → String → (at_read at_lock : Clients C) → Outcome (Clients C × Result C)
  unfolding get_locked
  get_client world node_name at_read at_lock = elim (get at_read node_name) [
    | some c ↦ returns (at_lock, client c)
    | none ↦ get_locked world node_name at_lock
  ]
