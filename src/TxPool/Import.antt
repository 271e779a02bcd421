-- ===== src/TxPool/Import.antt =====
-- libtxpool/TxPool.cpp: how a transaction enters the pool. The clock's time is an argument.
pub mod Outcome
use lab_bcos.Base.{ℕ, Bool, true, false, ◌&&◌, Option, none, some, [], ◌∷◌}
use lab_bcos.Base.Tests.{leb, ◌==◌, if◌then◌else◌}
use lab_bcos.Base.Lists.{length, contains}
use lab_bcos.TxPool.Types.{
  Tx, Pool, Chain, TxNonceCheck, on_ready, invalid256, ImportResult, success, malformed,
  already_known, already_in_chain, transaction_nonce_check_fail, tx_pool_nonce_check_fail,
  transaction_pool_is_full, IfDropped, ignore, retry,
}
use lab_bcos.TxPool.Nonce.{is_nonce_ok, ok, insert_cache}
use lab_bcos.TxPool.Queue.{insert_tx}

-- `isBlockLimitOrNonceOk`.
unfoldable pub is_block_limit_or_nonce_ok : Chain → Tx → Bool → TxNonceCheck → TxNonceCheck × Bool
is_block_limit_or_nonce_ok chain tx need_insert c =
    if tx.nonce == invalid256 then (c, false) else ok chain tx need_insert c

-- `txPoolNonceCheck`.
unfoldable pub tx_pool_nonce_check : Tx → Pool → Bool
tx_pool_nonce_check tx p = (is_nonce_ok tx false p.common_nonce_check).1

abbrev pub is_ignore : IfDropped → Bool
is_ignore ignore = true
is_ignore retry = false

-- The checks of `verify` on the nonces.
unfoldable pub verify_nonces : Chain → Tx → Bool → Pool → Pool × ImportResult
verify_nonces chain tx need_insert p =
    let (check, good) = is_block_limit_or_nonce_ok chain tx need_insert p.tx_nonce_check in
    let q = record p { tx_nonce_check = check } in
    if good
    then if tx_pool_nonce_check tx q then (q, success) else (q, tx_pool_nonce_check_fail)
    else (q, transaction_nonce_check_fail)

-- `verify`.
unfoldable pub verify : Chain → Tx → IfDropped → Bool → Pool → Pool × ImportResult
verify chain tx policy need_insert p =
    if contains p.known tx.hash
    then (p, already_known)
    else if contains p.dropped tx.hash && is_ignore policy
    then (p, already_in_chain)
    else verify_nonces chain tx need_insert p

-- The last part of `import`: a transaction that `insert` took has its nonce recorded.
unfoldable pub enqueue : Tx → Pool → Pool
enqueue tx p =
    let (q, inserted) = insert_tx tx p in
    if inserted
    then record q {
      common_nonce_check = insert_cache tx q.common_nonce_check;
      out = on_ready ∷ q.out;
    }
    else q

unfoldable pub finish_import : Tx → Pool × ImportResult → Pool × ImportResult
finish_import tx (p, success) = (enqueue tx p, success)
finish_import tx (p, result) = (p, result)

-- `import` of a transaction. Its policy does not reach `verify`, which takes its default.
unfoldable pub import_tx : Chain → ℕ → Tx → IfDropped → Pool → Pool × ImportResult
import_tx chain now tx policy p =
    let stamped = record tx { import_time = now } in
    if leb p.limit (length p.txs_queue)
    then (p, transaction_pool_is_full)
    else finish_import stamped (verify chain stamped ignore false p)

-- Bytes as `import` reads them: the transaction they decode to, if they do, and their hash.
pub record TxBytes : Type 0 where
  pub decoded : Option Tx
  pub sha3 : ℕ

-- `import` of bytes.
unfoldable pub import_bytes : Chain → ℕ → TxBytes → IfDropped → Pool → Pool × ImportResult
import_bytes chain now bytes policy p = elim bytes.decoded [
  | none ↦ (p, malformed)
  | some tx ↦ if bytes.sha3 == tx.hash then import_tx chain now tx policy p else (p, malformed)
]

-- What `submit` returns or throws: the transaction's hash and the address that it may create a
-- contract at, which is the hash's image under `to_address`, or `TransactionRefused`.
pub data Submitted : Type 0 where
  created : ℕ → ℕ → Submitted
  refused : ImportResult → Submitted

unfoldable pub answer : (ℕ → ℕ → ℕ) → Tx → ImportResult → Submitted
answer to_address tx success = created tx.hash (to_address tx.sender tx.nonce)
answer to_address tx result = refused result

-- `submit`.
unfoldable pub submit : (ℕ → ℕ → ℕ) → Chain → ℕ → Tx → Pool → Pool × Submitted
submit to_address chain now tx p =
    let (q, result) = import_tx chain now tx ignore p in (q, answer to_address tx result)
