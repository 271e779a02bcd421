-- ===== src/Pbft.antt =====
-- The PBFT consensus engine: libconsensus/Common.h, libconsensus/ConsensusEngineBase.* and
-- libconsensus/pbft.
pub mod Msg
pub mod ReqCache
pub mod VoteCache
pub mod ViewScan
pub mod Time
pub mod Engine
pub mod Quorum
pub mod Examples
