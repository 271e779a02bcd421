-- ===== src/Sealer.antt =====
-- libconsensus/Sealer.h and .cpp with the methods that libconsensus/pbft/PBFTSealer.h and .cpp
-- override: the block that is being sealed. What the sealer asks of the engine, the chain, the
-- synchronisation and the clock in one round is the record Answers.
pub mod Sealed
pub mod Examples
use lab_bcos.Base.{
  ℕ, suc, ◌+◌, ◌-◌, ◌%◌, ◌^◌, max, Bool, true, false, not, ◌&&◌, ◌||◌, Option, none, some, List, [],
  ◌∷◌, ◌++◌,
}
use lab_bcos.Base.Tests.{ltb, leb, if◌then◌else◌}
use lab_bcos.Base.Lists.{length}
use lab_bcos.TxPool.Types.{Tx, Pool, Chain}
use lab_bcos.TxPool.Top.{top_transactions}

-- `m_sealing.block`: of the header, the fields that the sealer sets; `sealer` is `none` while it is
-- `Invalid256`.
pub record SealingBlock : Type 0 where
  pub number : ℕ
  pub parent_hash : ℕ
  pub timestamp : ℕ
  pub sealer : Option ℕ
  pub sealer_list : List ℕ
  pub txs : List Tx

-- `Sealing`.
pub record Sealing : Type 0 where
  pub block : SealingBlock
  pub transaction_set : List ℕ

-- `Sealer`; `noted` lists the heights told to the synchronisation, newest first, and `reports`
-- counts the calls of `reportBlock`.
pub record Sealer : Type 0 where
  pub sealing : Sealing
  pub max_block_transactions : ℕ
  pub sync_tx_pool : Bool
  pub sync_block : Bool
  pub start_consensus : Bool
  pub noted : List ℕ
  pub reports : ℕ

-- The answers of the other modules in a round: the chain's head, the engine's miners and index, and
-- whether it may seal, has waited long enough, takes the prepared block and wants it reset.
pub record Answers : Type 0 where
  pub head_number : ℕ
  pub head_hash : ℕ
  pub head_time : ℕ
  pub now : ℕ
  pub pool_view : Chain
  pub tx_count_limit : ℕ
  pub is_miner : Bool
  pub is_block_syncing : Bool
  pub engine_should_seal : Bool
  pub interval_at_load : Bool
  pub interval_at_check : Bool
  pub generated : SealingBlock → Bool
  pub should_reset : SealingBlock → Bool
  pub miner_list : List ℕ
  pub node_idx : ℕ

unfoldable pub is_sealed : SealingBlock → Bool
is_sealed b = elim b.sealer [ none ↦ false | some idx ↦ true ]

-- `resetBlock`, with `Block::resetCurrentBlock`.
unfoldable pub reset_block : Answers → SealingBlock → SealingBlock
reset_block answers b = record b {
  number = suc answers.head_number;
  parent_hash = answers.head_hash;
  sealer = none;
  txs = [];
}

-- `resetSealingBlock`.
unfoldable pub reset_sealing_block : Answers → Sealer → Sealer
reset_sealing_block answers s = record s {
  noted = answers.head_number ∷ s.noted;
  sealing = record { block = reset_block answers s.sealing.block; transaction_set = [] };
}

unfoldable pub should_reset_sealing : Answers → Sealer → Bool
should_reset_sealing answers s =
    is_sealed s.sealing.block || leb s.sealing.block.number answers.head_number

-- The handler of the engine's view change.
unfoldable pub on_view_change : Answers → Sealer → Sealer
on_view_change answers s =
    if should_reset_sealing answers s then reset_sealing_block answers s else s

-- `onTransactionQueueReady` and `onBlockChanged`.
unfoldable pub on_transaction_queue_ready : Sealer → Sealer
on_transaction_queue_ready s = record s { sync_tx_pool = true }

unfoldable pub on_block_changed : Sealer → Sealer
on_block_changed s = record s { sync_block = true }

unfoldable pub set_max_block_transactions : ℕ → Sealer → Sealer
set_max_block_transactions limit s = record s { max_block_transactions = limit }

-- `start` and `stop`.
unfoldable pub start : Answers → Sealer → Sealer
start answers s = if s.start_consensus then s else record (reset_sealing_block answers s) {
  reports = suc s.reports;
  sync_block = false;
  start_consensus = true;
}

unfoldable pub stop : Sealer → Sealer
stop s = record s { start_consensus = false }

-- `reportNewBlock`.
unfoldable pub report_new_block : Answers → Sealer → Sealer
report_new_block answers s =
    let told = record s { sync_block = false; reports = suc s.reports } in
    let fresh =
      if should_reset_sealing answers told then reset_sealing_block answers told else told in
    if s.sync_block then set_max_block_transactions answers.tx_count_limit fresh else s

-- `shouldSeal` of the two classes.
unfoldable pub should_seal : Answers → Sealer → Bool
should_seal answers s =
    not (is_sealed s.sealing.block)
    && s.start_consensus
    && answers.is_miner
    && not answers.is_block_syncing
    && answers.engine_should_seal

-- `loadTransactions`: what the pool hands out besides the transactions of the block.
unfoldable pub load_transactions : Answers → ℕ → Sealer → Pool → Sealer × Pool
load_transactions answers count s p =
    let (q, (txs, avoid)) =
      top_transactions answers.pool_view count s.sealing.transaction_set true p in
    (
      record s {
        sealing = record {
          block = record s.sealing.block { txs = s.sealing.block.txs ++ txs };
          transaction_set = avoid;
        };
      },
      q,
    )

-- `checkTxsEnough`.
unfoldable pub check_txs_enough : Answers → ℕ → Sealer → Bool
check_txs_enough answers max_txs s =
    leb max_txs (length s.sealing.block.txs) || answers.interval_at_check

-- `setBlock`, with `resetSealingHeader` and `resetCurrentTime`.
unfoldable pub set_block : Answers → Sealer → Sealer
set_block answers s = record s {
  sealing = record s.sealing {
    block = record s.sealing.block {
      timestamp = max (answers.head_time + 1) answers.now;
      sealer_list = answers.miner_list;
      sealer = some answers.node_idx;
    };
  };
}

-- `PBFTSealer::handleBlock`.
unfoldable pub handle_block : Answers → Sealer → Sealer
handle_block answers s =
    let ready = set_block answers s in
    if not (answers.generated ready.sealing.block) || answers.should_reset ready.sealing.block
    then reset_sealing_block answers ready
    else ready

-- The part of `doWork` that fills the block; the difference of the unsigned numbers wraps.
unfoldable pub fill_block : Answers → Sealer → Pool → Sealer × Pool
fill_block answers s p =
    let waiting = ltb 0 (length p.txs_queue) in
    let noted = record s { sync_tx_pool = waiting } in
    let count = (s.max_block_transactions + 2 ^ 64 - length s.sealing.block.txs) % 2 ^ 64 in
    let loaded = load_transactions answers count noted p in
    if waiting && not answers.interval_at_load then loaded else (noted, p)

-- `doWork`.
unfoldable pub do_work : Answers → Sealer → Pool → Sealer × Pool
do_work answers s p =
    let told = report_new_block answers s in
    let (filled, q) = fill_block answers told p in
    if should_seal answers told
    then if check_txs_enough answers told.max_block_transactions filled
      then (handle_block answers filled, q)
      else (filled, q)
    else (told, p)
