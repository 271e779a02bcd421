-- ===== src/TxPool.antt =====
-- libtxpool: the pool of the transactions that wait for a block.
pub mod Types
pub mod Nonce
pub mod Queue
pub mod Import
pub mod Drop
pub mod Top
pub mod Invariant
pub mod Run
pub mod Examples
