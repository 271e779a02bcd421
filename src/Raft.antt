-- ===== src/Raft.antt =====
-- libconsensus/raft: the Raft engine and its sealer.
pub mod Types
pub mod Roles
pub mod Config
pub mod Save
pub mod Send
pub mod Vote
pub mod Heartbeat
pub mod Loop
pub mod Commit
pub mod System
pub mod Sealing
pub mod Examples
