-- ===== src/TxPool/Types.antt =====
-- The data of libtxpool/TxPool.h, with the fields of libethcore's Transaction, TransactionReceipt
-- and Block that the pool reads. Hashes, addresses, node ids and times are numbers.
use lab_bcos.Base.{ℕ, List, ◌-◌, ◌^◌}
use lab_bcos.Base.Dict.{Dict}

pub record Tx : Type 0 where
  pub hash : ℕ
  pub sender : ℕ
  pub nonce : ℕ
  pub block_limit : ℕ
  pub receive_address : ℕ
  pub import_time : ℕ

pub record TransactionReceipt : Type 0 where
  pub gas_used : ℕ
  pub contract_address : ℕ

pub record PoolBlock : Type 0 where
  pub block_hash : ℕ
  pub block_number : ℕ
  pub transactions : List Tx
  pub transaction_receipts : List TransactionReceipt

-- `LocalisedTransactionReceipt`: a receipt with the place of its transaction.
pub record LocalisedReceipt : Type 0 where
  pub receipt : TransactionReceipt
  pub tx_hash : ℕ
  pub in_block : ℕ
  pub at_number : ℕ
  pub safe_sender : ℕ
  pub receiver : ℕ
  pub index : ℕ

-- What the pool asks of the chain: its height, and the transactions of the block at a height.
pub record Chain : Type 0 where
  pub number : ℕ
  pub transactions_at : ℕ → List Tx

pub data ImportResult : Type 0 where
  success unknown_parent future_time_known future_time_unknown already_in_chain : ImportResult
  already_known malformed bad_chain zero_signature transaction_nonce_check_fail : ImportResult
  tx_pool_nonce_check_fail transaction_pool_is_full : ImportResult

pub data IfDropped : Type 0 where
  ignore retry : IfDropped

abbrev pub invalid256 : ℕ
invalid256 = 2 ^ 256 - 1

-- `TransactionNonceCheck`: the nonces of the latest blocks.
pub record TxNonceCheck : Type 0 where
  pub cache : List ℕ
  pub start_blk : ℕ
  pub end_blk : ℕ
  pub max_block_limit : ℕ

-- Calls that leave the pool: the signal `m_onReady`, and a receipt for the client that waits.
pub data Call : Type 0 where
  on_ready : Call
  rpc_callback : ℕ → LocalisedReceipt → Call

-- `TxPool`. An iterator into the queue is the transaction it points to. `common_nonce_check` is
-- the cache of `m_commonNonceCheck`, `out` lists the calls that leave the pool, newest first.
pub record Pool : Type 0 where
  pub limit : ℕ
  pub txs_queue : List Tx
  pub txs_hash : Dict Tx
  pub known : List ℕ
  pub dropped : List ℕ
  pub known_by : Dict (List ℕ)
  pub tx_nonce_check : TxNonceCheck
  pub common_nonce_check : List ℕ
  pub out : List Call
