-- ===== src/Raft/OneLeader/Tests.antt =====
-- Two leaders of different terms, lab2/raft/config.go.
use cs426_spring2022_labs.Common.{
  ℕ, zero, suc, ◌≡◌, ◌↔◌, true, false, List, [], ◌∷◌, pos, returns, arith,
}
use cs426_spring2022_labs.Raft.Leaders.{Peer}
use cs426_spring2022_labs.Raft.OneLeader.{check_one_leader}
use cs426_spring2022_labs.Raft.OneLeader.Returns.{NonNegative}
use cs426_spring2022_labs.Raft.OneLeader.Looks.{Found, check_one_leader_iff}

abbrev election : ℕ → List Peer
election zero = []
election (suc k) =
    record { connected = true; term = pos 1; leader = true }
    ∷ record { connected = true; term = pos 2; leader = true }
    ∷ record { connected = false; term = pos 2; leader = true }
    ∷ []

election-NonNegative : (k : ℕ) → NonNegative (election k)
election-NonNegative zero = tt
election-NonNegative (suc k) = (omega arith, (omega arith, (omega arith, tt)))

check_one_leader_iff_example : (check_one_leader election ≡ returns 1) ↔ Found 10 election 1
check_one_leader_iff_example = check_one_leader_iff election 1 election-NonNegative
