-- ===== src/Sync/Blocks.antt =====
-- libsync/DownloadingBlockQueue.h and .cpp: the blocks that were fetched, first as packets, then in
-- the order of their heights. `std::priority_queue` leaves the order of blocks at one height open;
-- here they stay in the order in which they came.
pub mod Laws
use lab_bcos.Base.{
  ℕ, ◌+◌, ◌*◌, Bool, true, false, ◌&&◌, Option, none, some, List, [], ◌∷◌, ◌++◌, map,
}
use lab_bcos.Base.Tests.{ltb, leb, ◌==◌, if◌then◌else◌}
use lab_bcos.Base.Lists.{length}
use lab_bcos.TxPool.Types.{PoolBlock}

-- `Block`: the header's fields that block synchronisation reads, the size of its encoding, and what
-- the transaction pool reads of it.
pub record SyncBlock : Type 0 where
  pub number : ℕ
  pub parent_hash : ℕ
  pub header_hash : ℕ
  pub rlp_size : ℕ
  pub contents : PoolBlock

-- `DownloadBlocksShard`: a packet of blocks; an item that does not decode is `none`.
abbrev pub Shard : Type 0
Shard = List (Option SyncBlock)

abbrev pub max_request_blocks : ℕ
max_request_blocks = 32

abbrev pub max_request_shards : ℕ
max_request_shards = 4

-- `c_maxDownloadingBlockQueueSize` and `c_maxDownloadingBlockQueueBufferSize`.
abbrev pub max_queue_size : ℕ
max_queue_size = max_request_blocks * 128

abbrev pub max_buffer_size : ℕ
max_buffer_size = max_request_shards * 8

-- `DownloadingBlockQueue`, the top of the priority queue first.
pub record BlockQueue : Type 0 where
  pub blocks : List SyncBlock
  pub buffer : List Shard

unfoldable pub no_blocks : BlockQueue
no_blocks = record { blocks = []; buffer = [] }

-- `push` of a packet.
unfoldable pub push_shard : Shard → BlockQueue → BlockQueue
push_shard shard q =
    if leb max_buffer_size (length q.buffer)
    then q
    else record q { buffer = q.buffer ++ shard ∷ [] }

-- `push` of blocks, which are encoded as a packet.
unfoldable pub push_blocks : List SyncBlock → BlockQueue → BlockQueue
push_blocks blocks q = push_shard (map some blocks) q

unfoldable pub is_empty : BlockQueue → Bool
is_empty q = length q.blocks == 0 && length q.buffer == 0

unfoldable pub size : BlockQueue → ℕ
size q = length q.buffer + length q.blocks

unfoldable pub tail : List SyncBlock → List SyncBlock
tail [] = []
tail (b ∷ bs) = bs

unfoldable pub pop : BlockQueue → BlockQueue
pop q = record q { blocks = tail q.blocks }

-- `m_blocks.push`, in the order of `BlockQueueCmp`.
unfoldable pub enqueue : SyncBlock → List SyncBlock → List SyncBlock
enqueue block [] = block ∷ []
enqueue block (b ∷ bs) = if ltb block.number b.number then block ∷ b ∷ bs else b ∷ enqueue block bs

-- `isNewerBlock`, at a height of the chain; without a chain each block is newer.
unfoldable pub is_newer_block : Option ℕ → SyncBlock → Bool
is_newer_block none block = true
is_newer_block (some height) block = ltb height block.number

-- The inner loop of `flushBufferToQueue`.
unfoldable pub flush_shard : Option ℕ → Shard → List SyncBlock → List SyncBlock
flush_shard height [] blocks = blocks
flush_shard height (none ∷ items) blocks = flush_shard height items blocks
flush_shard height (some block ∷ items) blocks =
    flush_shard height items (if is_newer_block height block then enqueue block blocks else blocks)

-- The outer loop: it ends at the first packet that finds the queue full.
unfoldable pub flush_shards : Option ℕ → List Shard → List SyncBlock → List SyncBlock
flush_shards height [] blocks = blocks
flush_shards height (shard ∷ shards) blocks =
    let rest = flush_shards height shards (flush_shard height shard blocks) in
    if leb max_queue_size (length blocks) then blocks else rest

-- `flushBufferToQueue`.
unfoldable pub flush_buffer_to_queue : Option ℕ → BlockQueue → BlockQueue
flush_buffer_to_queue height q = record {
  blocks = flush_shards height q.buffer q.blocks;
  buffer = [];
}

unfoldable pub head : List SyncBlock → Option SyncBlock
head [] = none
head (b ∷ bs) = some b

-- `top`.
unfoldable pub top : Bool → Option ℕ → BlockQueue → BlockQueue × Option SyncBlock
top is_flush_buffer height q =
    let r = if is_flush_buffer then flush_buffer_to_queue height q else q in (r, head r.blocks)

unfoldable pub clear_queue : BlockQueue → BlockQueue
clear_queue q = record q { blocks = [] }

unfoldable pub clear : BlockQueue → BlockQueue
clear q = clear_queue (record q { buffer = [] })

-- Is the top of the queue above a height?
unfoldable pub top_above : ℕ → List SyncBlock → Bool
top_above number [] = false
top_above number (b ∷ bs) = ltb number b.number

-- `clearFullQueueIfNotHas`.
unfoldable pub clear_full_queue_if_not_has : ℕ → BlockQueue → BlockQueue
clear_full_queue_if_not_has number q =
    if length q.blocks == max_queue_size && top_above number q.blocks then clear_queue q else q
