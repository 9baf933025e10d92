-- ===== src/Raft.antt =====
-- lab2/raft: the persister and the parts of the test harness that check what servers apply.
pub mod Persister
pub mod Disks
pub mod Commits
pub mod Connections
pub mod Servers
pub mod Leaders
pub mod OneLeader
pub mod Waits
mod Tests
