-- ===== src/TxPool/Top.antt =====
-- libtxpool/TxPool.cpp: which transactions the pool hands out.
pub mod Laws
pub mod Kept
use lab_bcos.Base.{ℕ, zero, suc, min, Bool, false, none, List, [], ◌∷◌}
use lab_bcos.Base.Tests.{if◌then◌else◌}
use lab_bcos.Base.Lists.{length, contains, add}
use lab_bcos.TxPool.Types.{Tx, Pool, Chain}
use lab_bcos.TxPool.Nonce.{generate_key, del_key}
use lab_bcos.TxPool.Queue.{remove_trans}
use lab_bcos.TxPool.Import.{is_block_limit_or_nonce_ok}

-- The local variables of `topTransactions`, with the hashes and the keys of what it found invalid.
pub record Scan : Type 0 where
  pub ret : List Tx
  pub invalid : List ℕ
  pub nonce_keys : List ℕ
  pub avoid : List ℕ

unfoldable pub take_tx : Tx → Scan → Scan
take_tx tx s = record s { ret = tx ∷ s.ret }

unfoldable pub reject_tx : Tx → Scan → Scan
reject_tx tx s = record s {
  invalid = add tx.hash s.invalid;
  nonce_keys = add (generate_key tx) s.nonce_keys;
}

-- `isBlockLimitOrNonceOk(tx, false)`, the test that each transaction passes again.
unfoldable pub still_ok : Chain → Pool → Tx → Bool
still_ok chain p tx = (is_block_limit_or_nonce_ok chain tx false p.tx_nonce_check).1

-- The loop of `topTransactions` while `room` more transactions may be taken.
unfoldable pub scan : (Tx → Bool) → Bool → List Tx → ℕ → List ℕ → Scan
scan good update_avoid [] room avoid = record {
  ret = [];
  invalid = [];
  nonce_keys = [];
  avoid = avoid;
}
scan good update_avoid (tx ∷ txs) zero avoid = record {
  ret = [];
  invalid = [];
  nonce_keys = [];
  avoid = avoid;
}
scan good update_avoid (tx ∷ txs) (suc room) avoid =
    let seen = if update_avoid then add tx.hash avoid else avoid in
    let skipped = scan good update_avoid txs (suc room) avoid in
    let taken = scan good update_avoid txs room seen in
    if good tx
    then if contains avoid tx.hash then skipped else take_tx tx taken
    else reject_tx tx skipped

-- The invalid transactions leave the queue and count as dropped.
unfoldable pub drop_invalid : List ℕ → Pool → Pool
drop_invalid [] p = p
drop_invalid (hash ∷ hashes) p =
    let q = (remove_trans hash false none p).0 in
    drop_invalid hashes (record q { dropped = add hash q.dropped })

unfoldable pub del_keys : List ℕ → List ℕ → List ℕ
del_keys [] cache = cache
del_keys (key ∷ keys) cache = del_keys keys (del_key key cache)

-- `topTransactions`: what it hands out, and the hashes to avoid next time.
unfoldable pub top_transactions : Chain → ℕ → List ℕ → Bool → Pool → Pool × (List Tx × List ℕ)
top_transactions chain max_count avoid update_avoid p =
    let s = scan (still_ok chain p) update_avoid p.txs_queue (min p.limit max_count) avoid in
    let q = drop_invalid s.invalid p in
    (record q { common_nonce_check = del_keys s.nonce_keys q.common_nonce_check }, (s.ret, s.avoid))

-- The loop of `topTransactionsCondition`.
unfoldable pub select : (Tx → Bool) → List Tx → ℕ → List Tx
select wanted [] room = []
select wanted (tx ∷ txs) zero = []
select wanted (tx ∷ txs) (suc room) =
    let skipped = select wanted txs (suc room) in
    let taken = select wanted txs room in if wanted tx then tx ∷ taken else skipped

unfoldable pub top_transactions_condition : ℕ → (Tx → Bool) → Pool → List Tx
top_transactions_condition max_count wanted p = select wanted p.txs_queue (min p.limit max_count)

unfoldable pub pending_list : Pool → List Tx
pending_list p = p.txs_queue

unfoldable pub pending_size : Pool → ℕ
pending_size p = length p.txs_queue

pub record TxPoolStatus : Type 0 where
  pub current : ℕ
  pub dropped_count : ℕ

unfoldable pub status : Pool → TxPoolStatus
status p = record { current = length p.txs_queue; dropped_count = length p.dropped }
