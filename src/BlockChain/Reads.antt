-- ===== src/BlockChain/Reads.antt =====
-- `getBlock` of libblockchain/BlockChainImp.cpp with the functions above it, and the search for
-- transactions and receipts by hash.
use lab_bcos.Base.{ℕ, Bool, Option, none, some}
use lab_bcos.Base.Tests.{if◌then◌else◌}
use lab_bcos.Base.Lists.{get_elem?}
use lab_bcos.TxPool.Types.{Tx}
use lab_bcos.Sync.Blocks.{SyncBlock}
use lab_bcos.BlockChain.Tables.{
  SysTable, Tables, select, first, number_2_hash, hash_2_block, tx_hash_2_block,
}
use lab_bcos.BlockChain.Cache.{BlockCache, add, get}

-- `BlockChainImp`: the tables of its storage, its cache, and how often `m_onReady` was called.
pub record BlockChain : Type 0 where
  pub tables : Tables
  pub cache : BlockCache
  pub ready_calls : ℕ

unfoldable pub remember : BlockChain → Option SyncBlock → Option SyncBlock × BlockChain
remember c none = (none, c)
remember c (some b) = (some b, record c { cache = add b c.cache })

-- `getTxByHash`, after the height and the index are found; a block that is missing fails the
-- assertion of the source, which here is the empty result.
unfoldable pub pick_tx : ℕ → Option SyncBlock × BlockChain → Option Tx × BlockChain
pick_tx i (none, c) = (none, c)
pick_tx i (some b, c) = (get_elem? b.contents.transactions i, c)

module _ (opens : SysTable → Bool) where
  -- The part of `getBlock` that reads the storage.
  unfoldable pub load_block : ℕ → BlockChain → Option SyncBlock × BlockChain
  load_block h c =
      if opens hash_2_block then remember c (first (select h c.tables.blocks)) else (none, c)

  unfoldable pub hit_or_load : ℕ → BlockChain → Option SyncBlock → Option SyncBlock × BlockChain
  hit_or_load h c none = load_block h c
  hit_or_load h c (some b) = (some b, c)

  -- `getBlock` for a hash, and `getBlockByHash`.
  unfoldable pub get_block : ℕ → BlockChain → Option SyncBlock × BlockChain
  get_block h c = hit_or_load h c (get h c.cache)

  unfoldable pub block_at : BlockChain → Option ℕ → Option SyncBlock × BlockChain
  block_at c none = (none, c)
  block_at c (some h) = get_block h c

  -- `getBlock` for a height, and `getBlockByNumber`.
  unfoldable pub get_block_by_number : ℕ → BlockChain → Option SyncBlock × BlockChain
  get_block_by_number i c =
      if opens number_2_hash then block_at c (first (select i c.tables.hashes)) else (none, c)

  unfoldable pub tx_at : BlockChain → Option (ℕ × ℕ) → Option Tx × BlockChain
  tx_at c none = (none, c)
  tx_at c (some (height, i)) = pick_tx i (get_block_by_number height c)

  -- `getTxByHash`; the empty transaction is `none`.
  unfoldable pub get_tx_by_hash : ℕ → BlockChain → Option Tx × BlockChain
  get_tx_by_hash h c =
      if opens tx_hash_2_block then tx_at c (first (select h c.tables.places)) else (none, c)
