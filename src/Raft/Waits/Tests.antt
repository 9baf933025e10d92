-- ===== src/Raft/Waits/Tests.antt =====
-- A wait on a server that has applied one command, lab2/raft/config.go.
use cs426_spring2022_labs.Common.{
  ℕ, ◌≡◌, refl, true, [], ◌∷◌, pos, negsuc, returns, nat_key, int_same, int_key, ℕ_discrete,
}
use cs426_spring2022_labs.Common.GoMap.{get, insert}
use cs426_spring2022_labs.Raft.Commits.{
  ApplyMsg, Harness, make_harness, empty_logs, find_mismatch, check_logs, apply_msg, apply_all,
}
use cs426_spring2022_labs.Raft.Waits.{Look, wait}
use cs426_spring2022_labs.Raft.Waits.Ends.{WaitEnds, SeesRuns, wait-WaitEnds}

abbrev message : ApplyMsg ℕ
message = record { command_valid = true; command = 7; command_index = pos 1 }

abbrev applied : Harness ℕ
applied = record { logs = ((pos 1, 7) ∷ []) ∷ []; max_index = pos 1 }

applies_message : apply_all (make_harness 1) ((0, message) ∷ []) ≡ returns applied
unfolding apply_all apply_msg check_logs find_mismatch make_harness empty_logs get insert int_same
    ℕ_discrete
applies_message = refl

abbrev looks : ℕ → Look ℕ
looks j = record { harness = applied; terms = [] }

looks-SeesRuns : SeesRuns 1 looks
looks-SeesRuns j = ((0, message) ∷ [], applies_message)

wait-WaitEnds_example : WaitEnds 30 looks (pos 1) 1 (negsuc 0) (wait looks (pos 1) 1 (negsuc 0))
wait-WaitEnds_example = wait-WaitEnds 1 looks (pos 1) 1 (negsuc 0) looks-SeesRuns
