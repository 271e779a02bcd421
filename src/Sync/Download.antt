-- ===== src/Sync/Download.antt =====
-- `SyncMaster::isNewBlock` and `maintainDownloadingQueue` of libsync/SyncMaster.cpp: the fetched
-- blocks go to the chain in the order of their heights.
pub mod Chained
use lab_bcos.Base.{ℕ, suc, ◌-◌, Bool, true, false, ◌&&◌, Option, List, [], ◌∷◌}
use lab_bcos.Base.Tests.{leb, ◌==◌, if◌then◌else◌}
use lab_bcos.TxPool.Types.{Chain, Pool}
use lab_bcos.TxPool.Drop.{drop_block_trans, handle_bad_block}
use lab_bcos.Sync.Blocks.{SyncBlock}

-- What block synchronisation asks of the chain and of the block verifier. `executes` says whether
-- the block is executed without an exception, `commit_block` whether it was committed, and `view`
-- is the chain as the transaction pool sees it.
pub record Ledger (C : Type 0) : Type 0 where
  pub number : C → ℕ
  pub number_hash : C → ℕ → ℕ
  pub block_by_number : C → ℕ → Option SyncBlock
  pub executes : C → SyncBlock → Option SyncBlock → Bool
  pub commit_block : SyncBlock → C → C × Bool
  pub view : C → Chain

module _ {C : Type 0} (ledger : Ledger C) (is_consensus_ok : SyncBlock → Bool) where
  -- `isNewBlock`.
  unfoldable pub is_new_block : C → SyncBlock → Bool
  is_new_block c block =
      if suc (ledger.number c) == block.number
      then if ledger.number_hash c (ledger.number c) == block.parent_hash
        then is_consensus_ok block
        else false
      else false

  -- What follows the commit: the transaction pool hears of the block.
  unfoldable pub committed : SyncBlock → C × Bool → Pool → C × Pool
  committed block (c, true) p = (c, (drop_block_trans (ledger.view c) block.contents p).0)
  committed block (c, false) p = (c, (handle_bad_block block.contents p).0)

  -- The body of the loop.
  unfoldable pub take_block : SyncBlock → C × Pool → C × Pool
  take_block block (c, p) =
      if is_new_block c block
        && ledger.executes c block (ledger.block_by_number c (block.number - 1))
      then committed block (ledger.commit_block block c) p
      else (c, p)

  -- The loop of `maintainDownloadingQueue` over the blocks of the queue.
  unfoldable pub take_blocks : List SyncBlock → C × Pool → List SyncBlock × (C × Pool)
  take_blocks [] s = ([], s)
  take_blocks (block ∷ blocks) s =
      let next = take_blocks blocks (take_block block s) in
      if leb block.number (suc (ledger.number s.0)) then next else (block ∷ blocks, s)
