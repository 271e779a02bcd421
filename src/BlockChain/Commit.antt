-- ===== src/BlockChain/Commit.antt =====
-- `commitBlock` of libblockchain/BlockChainImp.cpp with the functions that write the tables. The
-- writes go to the tables of the block's execution, which `dbCommit` puts into the storage at once; it
-- is taken to succeed.
-- `opens` says which tables open, and `free` whether `commitMutex.try_lock` succeeds.
use lab_bcos.Base.{ℕ, suc, ◌+◌, Bool, not, Option, none, some, List, [], ◌∷◌, map}
use lab_bcos.Base.Tests.{◌==◌, if◌then◌else◌}
use lab_bcos.Base.Lists.{length}
use lab_bcos.Base.Dict.{Dict}
use lab_bcos.TxPool.Types.{Tx}
use lab_bcos.Sync.Blocks.{SyncBlock}
use lab_bcos.BlockChain.Tables.{
  SysTable, Tables, insert_row, number, number_hash, current_state, number_2_hash, hash_2_block,
  tx_hash_2_block,
}
use lab_bcos.BlockChain.Reads.{BlockChain}

-- `CommitResult`, and the exception `OpenSysTableFailed`.
pub data CommitResult : Type 0 where
  ok error_number error_parent_hash error_committing open_sys_table_failed : CommitResult

-- `update` of all rows where there are any, and `insert` otherwise.
unfoldable pub write_row : List ℕ → ℕ → List ℕ
write_row [] value = value ∷ []
write_row (row ∷ rows) value = map (λ old. value) (row ∷ rows)

-- The count that `writeTotalTransactionCount` writes.
unfoldable pub new_count : List ℕ → ℕ → ℕ
new_count [] added = added
new_count (count ∷ rows) added = count + added

-- The loop of `writeTxToBlock`, from an index on.
unfoldable pub place_txs : ℕ → ℕ → List Tx → Dict (List (ℕ × ℕ)) → Dict (List (ℕ × ℕ))
place_txs height i [] places = places
place_txs height i (tx ∷ txs) places =
    place_txs height (suc i) txs (insert_row tx.hash (height, i) places)

-- A write that throws ends the writes.
infixl 5 ◌>>=◌
abbrev ◌>>=◌ {ℓ κ} : {A : Type ℓ} {B : Type κ} → Option A → (A → Option B) → Option B
none >>= f = none
some t >>= f = f t

module _ (opens : SysTable → Bool) where
  unfoldable pub when_opened : SysTable → Tables → Option Tables
  when_opened table t = if opens table then some t else none

  -- `writeNumber`.
  unfoldable pub write_number : SyncBlock → Tables → Option Tables
  write_number b t = when_opened current_state (record t { heights = write_row t.heights b.number })

  -- `writeTotalTransactionCount`.
  unfoldable pub write_total_transaction_count : SyncBlock → Tables → Option Tables
  write_total_transaction_count b t =
      let count = new_count t.counts (length b.contents.transactions) in
      when_opened current_state (record t { counts = write_row t.counts count })

  -- `writeTxToBlock`.
  unfoldable pub write_tx_to_block : SyncBlock → Tables → Option Tables
  write_tx_to_block b t =
      when_opened tx_hash_2_block
        (record t { places = place_txs b.number 0 b.contents.transactions t.places })

  -- `writeNumber2Hash`.
  unfoldable pub write_number_to_hash : SyncBlock → Tables → Option Tables
  write_number_to_hash b t =
      when_opened number_2_hash (record t { hashes = insert_row b.number b.header_hash t.hashes })

  -- `writeHash2Block`.
  unfoldable pub write_hash_to_block : SyncBlock → Tables → Option Tables
  write_hash_to_block b t =
      when_opened hash_2_block (record t { blocks = insert_row b.header_hash b t.blocks })

  -- The writes of `commitBlock` in their order, with those of `writeBlockInfo`.
  unfoldable pub write_all : SyncBlock → Tables → Option Tables
  write_all b t = do
    numbered ← write_number b t
    counted ← write_total_transaction_count b numbered
    placed ← write_tx_to_block b counted
    hashed ← write_number_to_hash b placed
    write_hash_to_block b hashed

  -- The end of `commitBlock`, by what the writes came to.
  unfoldable pub finish_commit : BlockChain → Option Tables → BlockChain × CommitResult
  finish_commit c none = (c, open_sys_table_failed)
  finish_commit c (some t) = (record c { tables = t; ready_calls = suc c.ready_calls }, ok)

  -- `commitBlock`.
  unfoldable pub commit_block : Bool → SyncBlock → BlockChain → BlockChain × CommitResult
  commit_block free b c =
      if not (b.number == suc (number opens c.tables))
      then (c, error_number)
      else if not (b.parent_hash == number_hash opens (number opens c.tables) c.tables)
      then (c, error_parent_hash)
      else if free
      then finish_commit c (write_all b c.tables)
      else (c, error_committing)
