-- ===== src/TxPool/Drop.antt =====
-- libtxpool/TxPool.cpp: how transactions leave the pool.
pub mod Undo
use lab_bcos.Base.{ℕ, suc, Bool, true, false, Option, none, some, List, [], ◌∷◌}
use lab_bcos.Base.Tests.{ltb, if◌then◌else◌}
use lab_bcos.Base.Lists.{length, contains, add, get_elem?}
use lab_bcos.TxPool.Types.{
  Tx, Pool, Chain, PoolBlock, TransactionReceipt, LocalisedReceipt, TxNonceCheck,
}
use lab_bcos.TxPool.Nonce.{new_check, init, update_cache, del_cache}
use lab_bcos.TxPool.Queue.{remove_trans}

-- The constructor: the cache of the chain's nonces is built, the rest is empty.
unfoldable pub new_pool : Chain → ℕ → ℕ → Pool
new_pool chain limit max_block_limit = record {
  limit = limit;
  txs_queue = [];
  txs_hash = [];
  known = [];
  dropped = [];
  known_by = [];
  tx_nonce_check = init chain (new_check max_block_limit);
  common_nonce_check = [];
  out = [];
}

-- `drop`: a full record of dropped hashes is emptied, without the new one.
unfoldable pub drop_tx : ℕ → Pool → Pool × Bool
drop_tx hash p =
    if contains p.known hash
    then remove_trans hash false none
        (record p { dropped = if ltb (length p.dropped) p.limit then add hash p.dropped else [] })
    else (p, false)

-- `constructTransactionReceipt`.
unfoldable pub construct_transaction_receipt :
    Tx → TransactionReceipt → PoolBlock → ℕ → LocalisedReceipt
construct_transaction_receipt tx receipt block i = record {
  receipt = receipt;
  tx_hash = tx.hash;
  in_block = block.block_hash;
  at_number = block.block_number;
  safe_sender = tx.sender;
  receiver = tx.receive_address;
  index = i;
}

-- The receipt of the transaction at an index, if the block has one there.
unfoldable pub receipt_at : PoolBlock → Tx → ℕ → Option LocalisedReceipt
receipt_at block tx i = elim (get_elem? block.transaction_receipts i) [
  | none ↦ none
  | some receipt ↦ some (construct_transaction_receipt tx receipt block i)
]

-- The loop of `dropTransactions` from an index on.
unfoldable pub drop_from : PoolBlock → List Tx → ℕ → Bool → Pool → Pool × Bool
drop_from block [] i succ p = (p, succ)
drop_from block (tx ∷ txs) i succ p =
    let (q, removed) = remove_trans tx.hash true (receipt_at block tx i) p in
    drop_from block txs (suc i) (if removed then succ else false) q

-- `dropTransactions`; a block without transactions returns at once.
unfoldable pub drop_transactions : PoolBlock → Pool → Pool × Bool
drop_transactions block p = drop_from block block.transactions 0 true p

-- `handleBadBlock`.
unfoldable pub handle_bad_block : PoolBlock → Pool → Pool × Bool
handle_bad_block block p = (p, true)

-- `dropBlockTrans`: the chain, which holds the block by now, refreshes its nonces.
unfoldable pub drop_block_trans : Chain → PoolBlock → Pool → Pool × Bool
drop_block_trans chain block p =
    let check = update_cache chain false p.tx_nonce_check in
    let (q, succ) = drop_transactions block (record p { tx_nonce_check = check }) in
    (record q { common_nonce_check = del_cache block.transactions q.common_nonce_check }, succ)

-- `clear`: the nonces of the pool stay taken.
unfoldable pub clear : Pool → Pool
clear p = record p { known = []; txs_queue = []; txs_hash = []; dropped = []; known_by = [] }

-- `setTxPoolLimit`, `setMaxBlockLimit` and `TransactionNonceCheck::setBlockLimit`.
unfoldable pub set_tx_pool_limit : ℕ → Pool → Pool
set_tx_pool_limit limit p = record p { limit = limit }

unfoldable pub set_block_limit : ℕ → TxNonceCheck → TxNonceCheck
set_block_limit limit c = record c { max_block_limit = limit }

unfoldable pub set_max_block_limit : ℕ → Pool → Pool
set_max_block_limit limit p = record p { tx_nonce_check = set_block_limit limit p.tx_nonce_check }
