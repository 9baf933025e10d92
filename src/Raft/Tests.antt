-- ===== src/Raft/Tests.antt =====
-- Runs of the harness's checks on two servers, lab2/raft.
use cs426_spring2022_labs.Common.{
  some, ◌+◌, ◌*◌, ◌<◌, false, ℕ, ◌≡◌, ◌≢◌, ◌↔◌, refl, ap, ◌∙◌, inl, Option, none, List, [], ◌∷◌, ℤ,
  pos, ◌-ℤ◌, true, returns, exits, nat_key, int_key, int_same, ℕ_discrete, arith,
}
use cs426_spring2022_labs.Common.GoMap.{get_or, GoMap, get, insert}
use cs426_spring2022_labs.Rpc.Network.{make_network}
use cs426_spring2022_labs.Raft.Connections.{Config, connect, disconnect}
use cs426_spring2022_labs.Raft.Connections.Loops.{is_enabled}
use cs426_spring2022_labs.Raft.Connections.Attached.{IsWired, Attached, connect_lem, disconnect_lem}
use cs426_spring2022_labs.Raft.Leaders.{Peer, check_terms, InTerm, SomeConnected, check_terms_iff}
use cs426_spring2022_labs.Raft.Commits.{
  ApplyMsg, Harness, empty_logs, make_harness, find_mismatch, check_logs, apply_msg, apply_all,
  n_committed,
}
use cs426_spring2022_labs.Raft.Commits.Mismatch.{IsInOrder, record_command, apply_msg_iff}
use cs426_spring2022_labs.Raft.Commits.Counting.{
  holders, Committed, n_committed_lem, applied_prefix,
}

-- The command `v` at index `i`.
abbrev command : ℕ → ℕ → ApplyMsg ℕ
command i v = record { command_valid = true; command = v; command_index = pos i }

abbrev messages : List (ℕ × ApplyMsg ℕ)
messages = (0, command 1 40) ∷ (1, command 1 40) ∷ (0, command 2 50) ∷ []

abbrev first_log : GoMap ℤ ℕ
first_log = (pos 1, 40) ∷ (pos 2, 50) ∷ []

abbrev two_servers : Harness ℕ
two_servers = record { logs = first_log ∷ ((pos 1, 40) ∷ []) ∷ []; max_index = pos 2 }

runs : apply_all (make_harness 2) messages ≡ returns two_servers
unfolding apply_all apply_msg check_logs find_mismatch make_harness empty_logs get insert ◌-ℤ◌
    int_same ℕ_discrete
runs = refl

conflict_exits : apply_msg two_servers 1 (command 2 60) ≡ exits
unfolding apply_msg check_logs find_mismatch get insert ◌-ℤ◌ int_same ℕ_discrete
conflict_exits = refl

gap_exits : apply_msg two_servers 1 (command 3 60) ≡ exits
unfolding apply_msg check_logs find_mismatch get insert ◌-ℤ◌ int_same ℕ_discrete
gap_exits = refl

apply_msg_iff_example : (apply_msg two_servers 1 (command 2 50) ≡ returns two_servers) ↔ (
    (o : IsInOrder two_servers 1 (command 2 50)) × (two_servers
      ≡ record_command two_servers 1 o.log (command 2 50)))
apply_msg_iff_example = apply_msg_iff two_servers 1 (command 2 50) two_servers refl

n_committed_lem_example :
    (cmd : Option ℕ) × (n_committed two_servers (pos 2)
      ≡ returns (holders two_servers.logs (pos 2), cmd))
    × Committed two_servers.logs (pos 2) cmd
    × (holders two_servers.logs (pos 2) ≡ 0 → cmd ≡ none)
n_committed_lem_example = n_committed_lem 2 messages two_servers (pos 2) runs

holds_second : get first_log (pos 2) ≢ none
unfolding get int_same ℕ_discrete
holds_second e = cc e

applied_prefix_example : get first_log (pos 1) ≢ none
applied_prefix_example =
    applied_prefix 2 messages two_servers first_log 2 1 runs (inl refl) (omega arith) (omega arith)
      holds_second

abbrev peers : List Peer
peers =
    record { connected = true; term = pos 4; leader = true }
    ∷ record { connected = false; term = pos 3; leader = true }
    ∷ record { connected = true; term = pos 4; leader = false }
    ∷ []

check_terms_iff_example :
    (check_terms peers ≡ returns (pos 4)) ↔ (SomeConnected peers × InTerm 4 peers)
check_terms_iff_example = check_terms_iff peers 4 (omega arith, (omega arith, (omega arith, tt)))

abbrev names : ℕ → ℕ → ℕ
names a b = 2 * a + b

-- Two servers, started and detached.
abbrev detached : Config ℕ
detached = record {
  n = 2;
  connected = λ _. false;
  endnames = λ i. some (names i);
  net = make_network;
}

detached-IsWired : IsWired detached names
detached-IsWired = record {
  made = λ i _. refl;
  apart = λ a b c d la lb lc ld e. (omega arith, omega arith);
}

detached-Attached : Attached detached names
unfolding Attached get_or get
detached-Attached a b la lb = refl

connect_lem_example :
    (cfg' : Config ℕ) × (connect detached 1 ≡ returns cfg')
    × (cfg'.connected 1 ≡ true)
    × IsWired cfg' names
    × Attached cfg' names
connect_lem_example = connect_lem detached names 1 detached-IsWired detached-Attached (omega arith)

-- One server, attached.
abbrev attached : Config ℕ
attached = record {
  n = 1;
  connected = λ _. true;
  endnames = λ i. some (names i);
  net = record make_network { enabled = (0, true) ∷ [] };
}

attached-IsWired : IsWired attached names
attached-IsWired = record {
  made = λ i _. refl;
  apart = λ a b c d la lb lc ld e. (omega arith, omega arith);
}

name-eq-zero : (a b : ℕ) → a < 1 → b < 1 → names a b ≡ 0
name-eq-zero a b la lb = omega arith

enabled_zero : is_enabled attached.net 0 ≡ true
unfolding get_or get ℕ_discrete
enabled_zero = refl

attached-Attached : Attached attached names
unfolding Attached
attached-Attached a b la lb = ap (is_enabled attached.net) (name-eq-zero a b la lb) ∙ enabled_zero

disconnect_lem_example :
    (cfg' : Config ℕ) × (disconnect attached 0 ≡ returns cfg')
    × (cfg'.connected 0 ≡ false)
    × IsWired cfg' names
    × Attached cfg' names
disconnect_lem_example =
    disconnect_lem attached names 0 attached-IsWired attached-Attached (omega arith)
