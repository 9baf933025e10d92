-- ===== src/Raft/Persister.antt =====
-- lab2/raft/persister.go. A byte slice is the list of its bytes, and a nil slice reads as the empty one:
-- what is stored and what is read is a clone, so that a later write to the caller's slice is not seen. The
-- slices that `Copy` shares with the copy are never written to. Clones themselves, and so what sharing
-- would do without them, are not modelled.
use cs426_spring2022_labs.Common.{ℕ, List, [], length}

pub record Persister : Type 0 where
  pub raft_state : List ℕ
  pub snapshot : List ℕ

unfoldable pub make_persister : Persister
make_persister = record { raft_state = []; snapshot = [] }

unfoldable pub copy : Persister → Persister
copy ps = record { raft_state = ps.raft_state; snapshot = ps.snapshot }

unfoldable pub save_raft_state : Persister → List ℕ → Persister
save_raft_state ps state = record ps { raft_state = state }

unfoldable pub read_raft_state : Persister → List ℕ
read_raft_state ps = ps.raft_state

unfoldable pub raft_state_size : Persister → ℕ
raft_state_size ps = length ps.raft_state

unfoldable pub save_state_and_snapshot : Persister → List ℕ → List ℕ → Persister
save_state_and_snapshot ps state snapshot = record { raft_state = state; snapshot = snapshot }

unfoldable pub read_snapshot : Persister → List ℕ
read_snapshot ps = ps.snapshot

unfoldable pub snapshot_size : Persister → ℕ
snapshot_size ps = length ps.snapshot
