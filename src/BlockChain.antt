-- ===== src/BlockChain.antt =====
-- libblockchain: the chain of blocks over the tables of the storage.
pub mod Tables
pub mod Cache
pub mod Reads
pub mod Commit
pub mod Served
pub mod Linked
pub mod Written
pub mod Sound
pub mod History
pub mod Committed
pub mod Placed
pub mod Examples
