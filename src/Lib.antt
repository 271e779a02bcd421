-- ===== src/Lib.antt =====
-- The PBFT and Raft consensus, the sealer, the transaction pool, the block synchronisation and the
-- chain of blocks of a FISCO BCOS node.
--
-- A group of miners agrees on one block after another. The sealer of the leader hands a block to
-- the engine, which sends it out as a prepare request; each miner checks and executes it, and votes
-- with a sign request; with enough sign votes it sends a commit request; with enough of both kinds
-- it hands the block to the chain, and block synchronisation reports the block back to the engine.
-- A miner that waits too long asks for the next view, and so for another leader. The engine keeps
-- the requests in a cache, remembers which message it sent to which node, and forwards the messages
-- of others while their hop count lasts.
--
-- A group runs either that engine or the Raft engine. There each node is a follower, a candidate or a
-- leader in a numbered term. A candidate asks the miners for their votes, and leads with those of more
-- than half. The leader sends heartbeats, which carry a new block until enough members have
-- acknowledged it; then the leader checks, executes and commits the block. A follower that hears of
-- no leader for an election time-out stands for election.
--
-- Transactions wait in the pool, in the order of their arrival, until a block that holds them is
-- committed. The pool checks that a sender's nonce is free, among the waiting transactions and in the
-- latest blocks. A node that is behind asks its peers for shards of blocks, keeps what arrives in a
-- queue by height, and commits the blocks that follow its head, of which it tells the pool; it answers
-- the requests of others in turn.
--
-- The chain keeps its blocks in tables of the storage: the height, the hash at each height, the block
-- with each hash, and the place of each transaction. It commits a block that fits onto its head, and
-- reads blocks through a cache.
--
-- The files and the code that each models (paths from the repository's root):
--
-- Base: names of the libraries, tests on numbers, lists, signed 64-bit integers, hash maps.
-- QueueSet: the class QueueSet of libdevcore/Common.h.
-- Broadcast: libconsensus/pbft/PBFTMsgCache.h, and broadcastMark of PBFTEngine.h.
-- Pbft/Msg: the messages of libconsensus/pbft/Common.h, with the fields of Block and BlockHeader
--   of libethcore that the engine reads.
-- Pbft/VoteCache, Pbft/ReqCache, Pbft/ViewScan: libconsensus/pbft/PBFTReqCache.h and .cpp; ViewScan
--   is canTriggerViewChange.
-- Pbft/Time: libconsensus/pbft/TimeManager.h.
-- Pbft/Engine: the state of PBFTEngine and ConsensusEngineBase, getLeader and minValidNodes. The
--   children hold the functions of libconsensus/pbft/PBFTEngine.cpp and PBFTEngine.h and of
--   libconsensus/ConsensusEngineBase.cpp: Send (broadcastMsg, sendMsg), Config (resetConfig,
--   initPBFTEnv), Check (isValidPrepare, checkReq, checkBlock, checkBlockValid), Commit
--   (checkAndCommit, checkAndSave, reportBlock), Handle (the handlers of the four requests,
--   generatePrepare, shouldSeal), Loop (onRecvPBFTMessage, handleMsg, checkTimeout, workLoop).
-- Pbft/Quorum, Broadcast/Laws, QueueSet/Laws, Pbft/Time/Laws, and below Pbft/Engine the files Frame,
--   Safety, Safety/Kept, Report, Votes, Proposal, Blocks, Miners, Views, Rounds and Loop/Queue hold theorems.
-- Raft: libconsensus/raft. Types: Common.h, and the state of RaftEngine. From RaftEngine.h and .cpp:
--   Roles (switchToLeader, switchToFollower, switchToCandidate, tryFollow and the time-outs), Config
--   (updateMinerList, resetConfig, initRaftEnv), Save (checkBlock, execBlock, checkAndSave,
--   checkAndExecute, reportBlock), Send (the messages that are sent), Vote (the handlers of votes),
--   Heartbeat (handleHeartbeat, and the leader's handling of acknowledgements), Loop
--   (onRecvRaftMessage and the rounds of workLoop), Commit (shouldSeal, commit and
--   reachBlockIntervalTime). Sealing: RaftSealer.h and .cpp. System: a node's threads as a step
--   relation, with the thread of libdevcore/Worker.cpp. Roles/Times, Config/Miners, Config/Restart,
--   Send/Frame, Vote/Once, Vote/Twice, Vote/Election, Vote/Elected, Heartbeat/Heeded,
--   Heartbeat/Acked, Commit/Handover, System/Coherent and below it, and System/Stopped hold theorems.
-- TxPool: libtxpool. Types holds the data of TxPool.h and the fields of libethcore's Transaction and
--   Block that the pool reads, Nonce the classes CommonTransactionNonceCheck and
--   TransactionNonceCheck; Queue (insert, removeTrans, transactionIsKnownBy), Import (import, verify,
--   submit), Drop (drop, dropBlockTrans, clear) and Top (topTransactions, status) the functions of
--   TxPool.cpp. Nonce/Window, Queue/Order, Import/Outcome, Top/Laws, Top/Kept, Drop/Undo, Invariant and
--   Run hold theorems.
-- Sync: libsync. Requests: RspBlockReq.h and .cpp. Blocks: DownloadingBlockQueue.h and .cpp. Container:
--   DownloadBlocksContainer of SyncMsgEngine.h and .cpp. Peers: SyncStatus.h and .cpp. Engine:
--   SyncMsgEngine. Answer (maintainBlockRequest for one peer), Serve (maintainBlockRequest,
--   maintainTransactions, maintainBlocks), Master (maintainPeersStatus,
--   maintainPeersConnection, maintainDownloadingQueueBuffer), Download (isNewBlock and the loop of
--   maintainDownloadingQueue) and Work (maintainDownloadingQueue, doWork): SyncMaster.h and .cpp.
--   Requests/Merge, Blocks/Laws, Container/Bounds, Answer/Complete, Master/Shards, Master/Shards/Tiles and Download/Chained,
--   Engine/Sound hold theorems.
-- Sealer: libconsensus/Sealer.h and .cpp, libconsensus/pbft/PBFTSealer.h and .cpp; Sealer/Sealed holds
--   theorems.
-- BlockChain: libblockchain. Tables: the system tables, with number and numberHash; Cache: the class
--   BlockCache; Reads: getBlock, getBlockByNumber and getTxByHash; Commit: commitBlock and the functions
--   that write the tables; History: the chain as the list of its blocks;
--   Committed: the chain as the interface Ledger of Sync. Cache/Fifo, Served,
--   Written, Linked, Sound, History/Genesis, History/Kept, Placed and Committed hold theorems.
-- The files Examples run the theorems on concrete inputs.
--
-- A method becomes a function of the object's record that returns the new record beside the result.
-- The engine's functions also take a record Env of answers: what the network, the chain, the block
-- verifier, the cryptography and the clock say during a call. It is a parameter of every theorem,
-- and a theorem that needs something of it says so. Calls of other modules that change them are
-- listed in the field out, newest first. An exception that leaves a handler is the result thrown,
-- with the state as it was left.
--
-- Hashes, signatures, node ids and times are numbers. A field of encoded bytes is what it decodes
-- to, or none. A hash map is a list of pairs whose order stands for the order of iteration.
-- int64_t is a signed integer; ++ and -- wrap at 64 bits, and the sum of a view and a height in
-- getLeader is taken without wrapping. Node counts and indices are cut to 16 bits, hop counts to 8
-- and 32 bits as in the source. Block::header().sealer() is taken to fit size_t. The factor
-- 1.5 ^ cycle of the time-out is exact, as the double is for a time-out below 2 ^ 21 ms.
-- The Raft engine asks a record World of answers, with one time and one random number for each round
-- or handler, and with the chain before and after a commit. A loop is cut into rounds: Place says in
-- which of them the thread is, with its local variables; commit is two steps, before its wait and
-- after it. The results of a step besides a value are thrown, and deadlocked for a mutex that the
-- thread already holds. The counts of votes are not wrapped.
-- The chain's tables are lists of rows by key, as libstorage/MemoryTable.cpp keeps them; which tables
-- open and whether the commit's mutex is free are parameters, and dbCommit is taken to succeed.
-- The pool asks a record Chain for the height and the transactions of a block; synchronisation asks a
-- record Ledger for the chain and the verifier, and the record Commits says what commitBlock promises:
-- a committed block is the new head, one that is refused leaves the chain as it was. The sealer
-- asks a record Answers for the rest of the node. An iterator
-- into the pool's queue is the transaction it points to. The heights and sizes of synchronisation are
-- natural numbers: negative heights and sums beyond int64_t are outside of the model, and so are
-- chains of 2 ^ 32 - 1 blocks and more for the nonce check, whose block numbers are cut to 32 bits.
--
-- Every loop is structural recursion on a list, or on a count that the source computes before it;
-- workLoop is modelled by one of its rounds. Two loops take fuel: the answer to a peer takes a
-- request from the queue in each round, so that one round more than there are requests is enough, and
-- the requests of a turn move to another shard in each pass but the last, so that
-- max_request_shards passes are enough; theorems of Answer/Complete and Master/Shards/Tiles show both.
--
-- Not modelled: locks, other than the mutex that a Raft leader takes twice and the one that a commit
-- tries (the handlers of PBFT hold m_mutex, so that they do not interleave; a round of Raft is one
-- step, though its thread lets the mutex go in between), log text, JSON status, RLP encoding, the file
-- of the backup database, the node list of the P2P module, of the genesis block all but its rows, the lists of nodes and
-- the system configuration of the chain, and the other modules: storage, execution, network and client
-- interfaces.
pub mod Base
pub mod QueueSet
pub mod Broadcast
pub mod Pbft
pub mod TxPool
pub mod Sync
pub mod Sealer
pub mod Raft
pub mod BlockChain
