-- ===== src/Raft/Servers/Tests.antt =====
-- Two servers of lab2/raft that are made, crash, start again and save.
use cs426_spring2022_labs.Common.{
  ℕ, ◌+◌, ◌*◌, ◌<◌, ◌≡◌, true, List, [], ◌∷◌, returns, nat_key, arith,
}
use cs426_spring2022_labs.Rpc.Network.{read_endname_info}
use cs426_spring2022_labs.Rpc.Network.Reachable.{Reaches}
use cs426_spring2022_labs.Raft.Persister.{save_raft_state}
use cs426_spring2022_labs.Raft.Disks.{Raft, Action, starts, saves, crashes, act_all, no_disks}
use cs426_spring2022_labs.Raft.Disks.Renewed.{content}
use cs426_spring2022_labs.Raft.Disks.Machine.{no_servers, spec_act_all}
use cs426_spring2022_labs.Raft.Disks.Refines.{act_all_lem}
use cs426_spring2022_labs.Raft.Servers.{Cluster, make_config}
use cs426_spring2022_labs.Raft.Servers.Starts.{Apart}
use cs426_spring2022_labs.Raft.Servers.Connected.{make_config_lem}

abbrev nobody : Raft ℕ
nobody = record { peers = λ j. j; persister = 0; me = 0; dead = true }

-- The first instance saves, is replaced, and saves again.
abbrev actions : List (Action ℕ)
actions =
    starts 0 (λ j. j)
    ∷ saves 0 (λ ps. save_raft_state ps (1 ∷ []))
    ∷ starts 0 (λ j. j + 2)
    ∷ saves 0 (λ ps. save_raft_state ps (2 ∷ []))
    ∷ crashes 0
    ∷ []

act_all_lem_example :
    (content (act_all (no_disks nobody) actions) 0 ≡ (spec_act_all no_servers actions).disk 0)
    × ((act_all (no_disks nobody) actions).rafts 0 ≡ (spec_act_all no_servers actions).live 0)
act_all_lem_example = act_all_lem nobody actions (omega arith, (omega arith, tt)) 0

abbrev names : ℕ → ℕ → ℕ
names a b = 2 * a + b

names-Apart : Apart 2 names
names-Apart = record {
  apart =
      λ a b c d la lb lc ld e. (omega (arith, la, lb, lc, ld, e), omega (arith, la, lb, lc, ld, e));
}

make_config_lem_example :
    (c : Cluster ℕ) × (make_config 2 true names (λ i. i) nobody ≡ returns c)
    × ((j : ℕ) → j < 2 → c.cfg.connected j ≡ true)
    × ((a b : ℕ) → a < 2 → b < 2 → Reaches (read_endname_info c.cfg.net (names a b)) b b)
make_config_lem_example = make_config_lem 2 names (λ i. i) true nobody names-Apart
