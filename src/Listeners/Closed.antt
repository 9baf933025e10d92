-- ===== src/Listeners/Closed.antt =====
-- What happens to a listener that was closed, lab4/kv/shardmap.go.
use cs426_spring2022_labs.Common.{ℕ, ◌<◌, ◌≡◌, true, In, nat_key}
use cs426_spring2022_labs.Common.GoMap.{GoMap}
use cs426_spring2022_labs.Listeners.{ShardMap, entries}
use cs426_spring2022_labs.Listeners.Invariant.{chans_of}

-- A channel that is closed, and that no listener has, with what was received from it.
pub record Gone (ch received : ℕ) (sm : ShardMap) : Type 0 where
  pub made : ch < sm.next_channel
  pub unregistered : ¬ In ch (chans_of (entries sm.update_channels))
  pub closed : (sm.channels ch).closed ≡ true
  pub no_more : (sm.channels ch).received ≡ received
