-- ===== src/Listeners/Tests.antt =====
-- Runs of the type `ShardMap` of lab4/kv/shardmap.go with two listeners.
use cs426_spring2022_labs.Common.{
  ◌≡◌, refl, true, none, some, [], ◌∷◌, pos, returns, blocks, write, nat_key, ℕ_discrete, All,
}
use cs426_spring2022_labs.Common.GoMap.{get, insert}
use cs426_spring2022_labs.ShardMap.{ShardMapState}
use cs426_spring2022_labs.Listeners.{
  ShardMap, ShardMapListener, open_chan, zero_shard_map, entries, make_listener, send, notify,
  update, close,
}
use cs426_spring2022_labs.Listeners.Invariant.{Inv, Inv-zero_shard_map, IsReceiving}
use cs426_spring2022_labs.Listeners.Methods.{Closes}
use cs426_spring2022_labs.Listeners.Runs.{
  close_lem, Reach, here, next, listens, turns, turn, Ends, Reach-Inv, update_of_Reach,
}

abbrev no_shards : ShardMapState
no_shards = record { nodes = []; shards_to_nodes = []; num_shards = pos 0 }

abbrev one_listener : ShardMap
one_listener = record {
  state = none;
  update_channels = some ((0, 0) ∷ []);
  update_channel_counter = 1;
  channels = write (λ _. open_chan) 0 open_chan;
  next_channel = 1;
}

abbrev pub two_listeners : ShardMap
two_listeners = record {
  state = none;
  update_channels = some ((0, 0) ∷ (1, 1) ∷ []);
  update_channel_counter = 2;
  channels = write (write (λ _. open_chan) 0 open_chan) 1 open_chan;
  next_channel = 2;
}

-- Somebody receives on each channel.
abbrev pub two_receivers : ShardMap
two_receivers = turn (turn two_listeners 0 true) 1 true

abbrev first_listener : ShardMapListener
first_listener = record { ch = 0; id = 0 }

abbrev first_closed : ShardMap
first_closed = record two_receivers {
  update_channels = some ((1, 1) ∷ []);
  channels =
      write two_receivers.channels 0 (record { closed = true; receiving = true; received = 0 });
}

two_listeners-Reach : Reach zero_shard_map two_listeners
unfolding make_listener insert ℕ_discrete
two_listeners-Reach = next {sm' = one_listener} (next here (listens refl)) (listens refl)

two_receivers-Reach : Reach zero_shard_map two_receivers
two_receivers-Reach =
    next {sm' = turn two_listeners 0 true} (next two_listeners-Reach (turns 0 true refl))
      (turns 1 true refl)

pub two_receivers-Inv : Inv two_receivers
two_receivers-Inv = Reach-Inv Inv-zero_shard_map two_receivers-Reach

pub two_receivers-IsReceiving :
    All (IsReceiving two_receivers.channels) (entries two_receivers.update_channels)
unfolding write ℕ_discrete
two_receivers-IsReceiving = (refl, (refl, tt))

first_registered : get (entries two_receivers.update_channels) 0 ≡ some 0
unfolding get ℕ_discrete
first_registered = refl

-- An update with nobody to receive from the first listener's channel.
update_without_receivers : update two_listeners no_shards ≡ blocks
unfolding update notify send write ℕ_discrete
update_without_receivers = refl

close_lem_example :
    (sm' : ShardMap) × (close first_listener two_receivers ≡ returns sm')
    × Closes first_listener two_receivers sm'
close_lem_example = close_lem two_receivers first_listener two_receivers-Inv first_registered

update_of_Reach_example : Ends two_receivers no_shards
update_of_Reach_example = update_of_Reach two_receivers no_shards two_receivers-Reach
