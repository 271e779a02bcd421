-- ===== src/Sync.antt =====
-- libsync: how a node that is behind fetches blocks, and how it answers those that are.
pub mod Requests
pub mod Blocks
pub mod Container
pub mod Answer
pub mod Download
pub mod Engine
pub mod Serve
pub mod Master
pub mod Work
pub mod Examples
pub mod Peers
