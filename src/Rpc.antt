-- ===== src/Rpc.antt =====
-- lab2/labrpc/labrpc.go: remote procedure calls over a simulated network.
pub mod Server
pub mod Network
pub mod Request
mod Tests
