-- ===== src/Raft/Servers.antt =====
-- lab2/raft/config.go: how the test harness starts and crashes servers on the network. The names of
-- ends, which the source draws at random, and the addresses of the servers' objects are arguments.
pub mod Ends
pub mod Starts
pub mod Connected
mod Tests
use cs426_spring2022_labs.Common.{
  ℕ, zero, suc, Bool, true, false, not, Option, none, some, List, [], ◌∷◌, Outcome, returns, panics,
  ◌>>=◌, if◌then◌else◌, Heap, write, Key, nat_key,
}
use cs426_spring2022_labs.Rpc.Network.{
  Network, make_network, set_reliable, set_long_delays, make_end, connect, add_server,
  delete_server, cleanup,
}
use cs426_spring2022_labs.Raft.Disks.{Raft, Disks, crash, start, no_disks, kill}
use cs426_spring2022_labs.Raft.Connections.{Config, upto, connect as connect_server, disconnect}

pub record Cluster (E : Type 0) : Type 0 where
  pub cfg : Config E
  pub disks : Disks E

module _ {E : Type 0} ⦃end_key : Key E⦄ where
  -- `crash1`
  unfoldable pub crash1 : Cluster E → ℕ → Outcome (Cluster E)
  unfolding disconnect crash
  crash1 c i = do
    cfg ← disconnect c.cfg i
    returns (record { cfg = record cfg { net = delete_server cfg.net i }; disks = crash c.disks i })

  -- A fresh set of `ClientEnd`s, connected to the servers of the same numbers.
  unfoldable pub make_ends : (names : ℕ → E) → List ℕ → Network E ℕ → Outcome (Network E ℕ)
  unfolding make_end connect
  make_ends names [] net = returns net
  make_ends names (j ∷ js) net =
      make_end net (names j) >>= λ made. make_ends names js (connect made (names j) j)

  -- `start1`, with the address of the server that it makes.
  unfoldable pub start1 : Cluster E → ℕ → (names : ℕ → E) → (srv : ℕ) → Outcome (Cluster E)
  unfolding crash1 make_ends start add_server
  start1 c i names srv = do
    crashed ← crash1 c i
    net ← make_ends names (upto crashed.cfg.n) crashed.cfg.net
    returns (record {
      cfg = record crashed.cfg {
        endnames = write crashed.cfg.endnames i (some names);
        net = add_server net i srv;
      };
      disks = start crashed.disks i names;
    })

  -- The loops of `make_config`.
  unfoldable pub start_each :
      (names : ℕ → ℕ → E) → (srv : ℕ → ℕ) → List ℕ → Cluster E → Outcome (Cluster E)
  unfolding start1
  start_each names srv [] c = returns c
  start_each names srv (i ∷ rest) c = start1 c i (names i) (srv i) >>= start_each names srv rest

  unfoldable pub connect_each : List ℕ → Config E → Outcome (Config E)
  unfolding connect_server
  connect_each [] cfg = returns cfg
  connect_each (i ∷ rest) cfg = connect_server cfg i >>= connect_each rest

  abbrev pub empty_config : (n : ℕ) → (unreliable : Bool) → Config E
  empty_config n unreliable = record {
    n = n;
    connected = λ _. false;
    endnames = λ _. none;
    net = set_long_delays (set_reliable make_network (not unreliable)) true;
  }

  -- The part of `make_config` that sets up the servers and the network.
  unfoldable pub make_config :
      (n : ℕ)
      → (unreliable : Bool) → (names : ℕ → ℕ → E) → (srv : ℕ → ℕ) → Raft E
      → Outcome (Cluster E)
  unfolding start_each connect_each
  make_config n unreliable names srv rf = do
    started ←
        start_each names srv (upto n)
          (record { cfg = empty_config n unreliable; disks = no_disks rf })
    cfg ← connect_each (upto n) started.cfg
    returns (record started { cfg = cfg })
