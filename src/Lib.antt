-- ===== src/Lib.antt =====
-- Verification of the course labs: the services of lab1, the simulated RPC network and the Raft test
-- harness of lab2, and the shard map and the correctness checker of lab4.
--
-- The parts and how they interact
--
-- - Common: names of the libraries passed on, lists and signed integers over the native numbers, Go's
--   maps as association lists (GoMap; `range` visits the entries in the order of the list, which is any
--   order), the outcomes of a call (it returns, panics, ends the process, or blocks for ever), a heap.
-- - ShardMap models lab4/kv/shardmap.go up to its type `ShardMap`: the state, `IsValid`,
--   `ShardsForNode`, `NodesForShard`. ShardMap/Valid says what a valid state is, ShardMap/Count is about
--   the test of the count, ShardMap/Queries about the two queries.
-- - Listeners models the type `ShardMap` of the same file over that state: `Update`, `MakeListener`,
--   `Close` on channels in a heap, each with or without somebody who receives. Listeners/Invariant has
--   the invariant, Listeners/Methods what each method does, Listeners/Runs any sequence of calls,
--   Listeners/Closed what follows the closing of a listener.
-- - ShardKey models lab4/kv/util.go, with the hash of the Go library as a parameter.
-- - Checker models lab4/checker/checker.go. Checker/Register puts an ideal store beside it, one key as
--   a register, with the writes that are under way; Checker/Calls, Checker/Covered and Checker/Sound
--   are about reads that return what the store holds, Checker/Stale and Checker/Reports about the
--   answers after a write that was alone, Checker/FalseAlarm about a failed first write.
-- - Stress models lab4/cmd/stress/tester.go: the counters and handlers over Checker, and the goroutines
--   as steps in any order (Stress/Runs). Stress/Keys is about the random keys, Stress/Counts,
--   Stress/Finish and Stress/Steps about the counters, Stress/Report about what is printed,
--   Stress/Unlogged about answers that could not be logged.
-- - ClientPool models lab4/kv/clientpool.go over Listeners, with gRPC as an argument; ClientPool/Kept is
--   about concurrent calls. FileShardMap models lab4/kv/file_shardmap.go over Listeners:
--   FileShardMap/Follows is about its loop, FileShardMap/Started about how it starts and stops.
-- - Labgob models lab2/labgob/labgob.go: the search of the types (Labgob, with Labgob/Marks,
--   Labgob/Visits and Labgob/Search), the warning about values (Labgob/Defaults), and both in a call
--   (Labgob/Calls). Types are numbers with a table of what `reflect` tells; a value is a tree with
--   the visibility of its fields, as `reflect` has it.
-- - Rpc models lab2/labrpc/labrpc.go: Rpc/Server the dispatch to services and methods, Rpc/Network the
--   shared state, Rpc/Request the goroutine `processReq` and `Call`. A request reads the network at
--   several moments between which others change it, so each look is an argument.
-- - Raft models lab2/raft/persister.go (Raft/Persister) and, of lab2/raft/config.go, what the harness
--   records and checks of applied commands (Raft/Commits: `checkLogs`, `applier`, `nCommitted`), how it
--   attaches servers to the network of Rpc (Raft/Connections), what it asks of terms, leaders and log
--   sizes (Raft/Leaders), how it crashes and starts servers with their persisters (Raft/Disks, with
--   `Make` and `Kill` of lab2/raft/raft.go), and all of this on the network (Raft/Servers:
--   `crash1`, `start1`, `make_config`), and its loops that poll (Raft/OneLeader: `checkOneLeader`,
--   Raft/Waits: `wait`), which see the servers anew at each turn.
-- - Injection models lab1/failure_injection/failure_injection.go, Status the statuses of the services,
--   Lookup the loop that both services look a batch up with, UserService and VideoService the handlers
--   of lab1/user_service/server_lib/server_lib.go and lab1/video_service/server_lib/server_lib.go,
--   which ask Injection first. UserService/Database and VideoService/Database model their random
--   databases over Random, an interface for the random numbers and texts of Go's libraries.
-- - Frontend models the user that lab1/cmd/frontend/frontend.go picks and fetches from UserService.
-- - Ranker models lab1/ranker/ranker.go, with the hashes as parameters.
--
-- Correspondence and bounds
--
-- Functions keep their names in snake case. A method takes its receiver and returns the new state. Go's
-- `int` is an unbounded signed integer, since the counters concerned stay far below 2 ^ 63; counters
-- that wrap in tests of the source's own size (`int32`, `uint64`) keep their wrap-around. Times are
-- numbers; the clock and the random generator are arguments. Loops are structural over the
-- list that the source ranges over, and the wait of `processReq` and the loop of the file watcher over
-- the events they see. Only `checkType` runs on fuel, one for each type that it enters: the fuel is
-- more than the number of types, since each type is entered once.
--
-- Not modelled: generated protocol code, lab1/det_bcrypt (an adapted library), the exercises that have no
-- body, printing and logging, the other programs under cmd, the server and client of lab4/kv, and the rest
-- of the Raft harness. A method that holds a mutex throughout is one step, and a step that blocks is
-- not taken. A byte slice is the value of its bytes, so `clone` of lab2/raft/persister.go is the identity.
pub mod Checker
pub mod ClientPool
pub mod Common
pub mod FileShardMap
pub mod Frontend
pub mod Injection
pub mod Labgob
pub mod Listeners
pub mod Lookup
pub mod Raft
pub mod Random
pub mod Ranker
pub mod Rpc
pub mod ShardKey
pub mod ShardMap
pub mod Status
pub mod Stress
pub mod UserService
pub mod VideoService
