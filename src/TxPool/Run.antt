-- ===== src/TxPool/Run.antt =====
-- The pool over any sequence of its operations, each with the chain as it then is.
use lab_bcos.Base.{
  ℕ, suc, ◌≤◌, ◌≡◌, refl, ◌∙◌, inl, inr, Bool, true, false, Option, none, List, [], ◌∷◌, arith,
}
use lab_bcos.Base.Tests.{leb, ◌==◌, Bool-cases, Option-cases}
use lab_bcos.Base.Lists.{length, contains}
use lab_bcos.Base.Dict.{lookup}
use lab_bcos.TxPool.Types.{
  Tx, Pool, Chain, PoolBlock, LocalisedReceipt, ImportResult, success, IfDropped, malformed,
  unknown_parent, future_time_known, future_time_unknown, bad_chain, zero_signature, already_known,
  already_in_chain, transaction_nonce_check_fail, tx_pool_nonce_check_fail,
  transaction_pool_is_full,
}
use lab_bcos.TxPool.Nonce.{update_cache}
use lab_bcos.TxPool.Queue.{insert_tx, remove_trans, transaction_is_known_by}
use lab_bcos.TxPool.Queue.Order.{find_tx, length-emplace, length-erase_node-le}
use lab_bcos.TxPool.Import.{enqueue, finish_import, import_tx, import_bytes, TxBytes}
use lab_bcos.TxPool.Drop.{
  new_pool, drop_tx, drop_from, receipt_at, drop_transactions, drop_block_trans, clear,
}
use lab_bcos.TxPool.Top.{drop_invalid, top_transactions}
use lab_bcos.TxPool.Invariant.{
  IsValid, IsValid-frame, insert_tx-IsValid, remove_trans-IsValid, remove_trans_found,
  remove_trans_absent,
}
use lab_bcos.TxPool.Import.Outcome.{import_tx_full, import_tx_room}

pub data Op : Type 0 where
  import_op : ℕ → Tx → IfDropped → Op
  import_bytes_op : ℕ → TxBytes → IfDropped → Op
  drop_op : ℕ → Op
  drop_block_op : PoolBlock → Op
  top_op : ℕ → List ℕ → Bool → Op
  known_op : ℕ → ℕ → Op
  clear_op : Op

unfoldable pub step : Chain → Op → Pool → Pool
step chain (import_op now tx policy) p = (import_tx chain now tx policy p).0
step chain (import_bytes_op now bytes policy) p = (import_bytes chain now bytes policy p).0
step chain (drop_op hash) p = (drop_tx hash p).0
step chain (drop_block_op block) p = (drop_block_trans chain block p).0
step chain (top_op max_count avoid update) p = (top_transactions chain max_count avoid update p).0
step chain (known_op hash node) p = transaction_is_known_by hash node p
step chain clear_op p = clear p

unfoldable pub run : List (Chain × Op) → Pool → Pool
run [] p = p
run ((chain, op) ∷ ops) p = run ops (step chain op p)

-- A pool in agreement that is no larger than its limit.
pub record IsGood (n : ℕ) (p : Pool) : Type 0 where
  pub valid : IsValid p
  pub same_limit : p.limit ≡ n
  pub bounded : length p.txs_queue ≤ n

-- A pool whose queue, index, known hashes and limit are another's.
pub IsGood-frame :
    (n : ℕ) (p q : Pool)
    → q.txs_queue ≡ p.txs_queue
    → q.txs_hash ≡ p.txs_hash
    → q.known ≡ p.known
    → q.limit ≡ p.limit
    → IsGood n p
    → IsGood n q
IsGood-frame n p q e f g l good = record {
  valid = IsValid-frame p q e f g good.valid;
  same_limit = l ∙ good.same_limit;
  bounded = rw e good.bounded;
}

remove_trans-IsGood :
    (n h : ℕ) (b : Bool) (r : Option LocalisedReceipt) (p : Pool)
    → IsGood n p
    → IsGood n (remove_trans h b r p).0
remove_trans-IsGood n h b r p good = elim (Option-cases (lookup h p.txs_hash)) [
  | inl e ↦ rw (remove_trans_absent h b r p e) good
  | inr (tx, e) ↦ record {
    valid = remove_trans-IsValid h b r p good.valid;
    same_limit = rw (remove_trans_found h b r p tx good.valid e) good.same_limit;
    bounded =
        rw (remove_trans_found h b r p tx good.valid e)
          (omega (arith, length-erase_node-le h p.txs_queue, good.bounded));
  }
]

drop_from-IsGood :
    (n : ℕ) (block : PoolBlock) (txs : List Tx) (i : ℕ) (succ : Bool) (p : Pool)
    → IsGood n p
    → IsGood n (drop_from block txs i succ p).0
unfolding drop_from
drop_from-IsGood n block [] i succ p good = good
drop_from-IsGood n block (tx ∷ txs) i succ p good =
    drop_from-IsGood n block txs (suc i) _ _
      (remove_trans-IsGood n tx.hash true (receipt_at block tx i) p good)

drop_invalid-IsGood :
    (n : ℕ) (hashes : List ℕ) (p : Pool) → IsGood n p → IsGood n (drop_invalid hashes p)
unfolding drop_invalid
drop_invalid-IsGood n [] p good = good
drop_invalid-IsGood n (h ∷ hashes) p good =
    drop_invalid-IsGood n hashes _
      (IsGood-frame n _ _ refl refl refl refl (remove_trans-IsGood n h false none p good))

insert_tx-IsGood :
    (n : ℕ) (tx : Tx) (p : Pool)
    → suc (length p.txs_queue) ≤ n
    → IsGood n p
    → IsGood n (insert_tx tx p).0
unfolding insert_tx
insert_tx-IsGood n tx p room good = record {
  valid = insert_tx-IsValid tx p good.valid;
  same_limit = ground (arith, good.same_limit);
  bounded = ground (arith, length-emplace tx p.txs_queue, good.bounded);
}

enqueue-IsGood :
    (n : ℕ) (tx : Tx) (p : Pool)
    → suc (length p.txs_queue) ≤ n
    → IsGood n p
    → IsGood n (enqueue tx p)
unfolding enqueue
enqueue-IsGood n tx p room good = elim (Bool-cases (insert_tx tx p).1) [
  | inl e ↦ rw e (IsGood-frame n _ _ refl refl refl refl (insert_tx-IsGood n tx p room good))
  | inr e ↦ rw e (insert_tx-IsGood n tx p room good)
]

finish_import-IsGood :
    (n : ℕ) (tx : Tx) (p : Pool) (v : ImportResult)
    → suc (length p.txs_queue) ≤ n
    → IsGood n p
    → IsGood n (finish_import tx (p, v)).0
unfolding finish_import
finish_import-IsGood n tx p success room good = enqueue-IsGood n tx p room good
finish_import-IsGood n tx p malformed room good = good
finish_import-IsGood n tx p unknown_parent room good = good
finish_import-IsGood n tx p future_time_known room good = good
finish_import-IsGood n tx p future_time_unknown room good = good
finish_import-IsGood n tx p bad_chain room good = good
finish_import-IsGood n tx p zero_signature room good = good
finish_import-IsGood n tx p already_known room good = good
finish_import-IsGood n tx p already_in_chain room good = good
finish_import-IsGood n tx p transaction_nonce_check_fail room good = good
finish_import-IsGood n tx p tx_pool_nonce_check_fail room good = good
finish_import-IsGood n tx p transaction_pool_is_full room good = good

import_tx-IsGood :
    (n : ℕ) (chain : Chain) (now : ℕ) (tx : Tx) (policy : IfDropped) (p : Pool)
    → IsGood n p
    → IsGood n (import_tx chain now tx policy p).0
import_tx-IsGood n chain now tx policy p good =
    elim (Bool-cases (leb p.limit (length p.txs_queue))) [
      | inl full ↦ rw (import_tx_full chain now tx policy p (ground arith)) good
      | inr room ↦
          rw (import_tx_room chain now tx policy p (ground arith))
            (finish_import-IsGood n _ p _ (ground (arith, good.same_limit)) good)
    ]

import_bytes-IsGood :
    (n : ℕ) (chain : Chain) (now : ℕ) (bytes : TxBytes) (policy : IfDropped) (p : Pool)
    → IsGood n p
    → IsGood n (import_bytes chain now bytes policy p).0
unfolding import_bytes
import_bytes-IsGood n chain now bytes policy p good = elim (Option-cases bytes.decoded) [
  | inl e ↦ rw (e, import_bytes) good
  | inr (tx, e) ↦ elim (Bool-cases (bytes.sha3 == tx.hash)) [
    | inl f ↦ rw (e, import_bytes) (rw f (import_tx-IsGood n chain now tx policy p good))
    | inr f ↦ rw (e, import_bytes) (rw f good)
  ]
]

drop_tx-IsGood : (n hash : ℕ) (p : Pool) → IsGood n p → IsGood n (drop_tx hash p).0
unfolding drop_tx
drop_tx-IsGood n hash p good = elim (Bool-cases (contains p.known hash)) [
  | inl e ↦
      rw e (remove_trans-IsGood n hash false none _ (IsGood-frame n p _ refl refl refl refl good))
  | inr e ↦ rw e good
]

pub drop_block_trans-IsGood :
    (n : ℕ) (chain : Chain) (block : PoolBlock) (p : Pool)
    → IsGood n p
    → IsGood n (drop_block_trans chain block p).0
unfolding drop_block_trans drop_transactions
drop_block_trans-IsGood n chain block p good = IsGood-frame n _ _ refl refl refl refl (
    drop_from-IsGood n block block.transactions 0 true
      (record p { tx_nonce_check = update_cache chain false p.tx_nonce_check })
      (IsGood-frame n p _ refl refl refl refl good))

top_transactions-IsGood :
    (n : ℕ) (chain : Chain) (max_count : ℕ) (avoid : List ℕ) (update : Bool) (p : Pool)
    → IsGood n p
    → IsGood n (top_transactions chain max_count avoid update p).0
unfolding top_transactions
top_transactions-IsGood n chain max_count avoid update p good =
    IsGood-frame n _ _ refl refl refl refl (drop_invalid-IsGood n _ p good)

clear-IsGood : (n : ℕ) (p : Pool) → IsGood n p → IsGood n (clear p)
unfolding clear lookup contains find_tx
clear-IsGood n p good = record {
  valid = record {
    sorted = tt;
    differ = tt;
    index_map = tt;
    indexed = λ h. refl;
    known_same = λ h. refl;
  };
  same_limit = good.same_limit;
  bounded = omega arith;
}

pub new_pool-IsGood :
    (chain : Chain) (limit max_block_limit : ℕ)
    → IsGood limit (new_pool chain limit max_block_limit)
unfolding new_pool lookup contains find_tx
new_pool-IsGood chain limit max_block_limit = record {
  valid = record {
    sorted = tt;
    differ = tt;
    index_map = tt;
    indexed = λ h. refl;
    known_same = λ h. refl;
  };
  same_limit = refl;
  bounded = omega arith;
}

pub step-IsGood :
    (n : ℕ) (chain : Chain) (op : Op) (p : Pool) → IsGood n p → IsGood n (step chain op p)
unfolding step
step-IsGood n chain (import_op now tx policy) p good = import_tx-IsGood n chain now tx policy p good
step-IsGood n chain (import_bytes_op now bytes policy) p good =
    import_bytes-IsGood n chain now bytes policy p good
step-IsGood n chain (drop_op hash) p good = drop_tx-IsGood n hash p good
step-IsGood n chain (drop_block_op block) p good = drop_block_trans-IsGood n chain block p good
step-IsGood n chain (top_op max_count avoid update) p good =
    top_transactions-IsGood n chain max_count avoid update p good
step-IsGood n chain (known_op hash node) p good =
    unfold transaction_is_known_by in IsGood-frame n p _ refl refl refl refl good
step-IsGood n chain clear_op p good = clear-IsGood n p good

run-IsGood : (n : ℕ) (ops : List (Chain × Op)) (p : Pool) → IsGood n p → IsGood n (run ops p)
unfolding run
run-IsGood n [] p good = good
run-IsGood n ((chain, op) ∷ ops) p good =
    run-IsGood n ops (step chain op p) (step-IsGood n chain op p good)

-- From a new pool on, whatever is imported, dropped, committed in blocks and handed out, the queue is
-- in the order of arrival with each hash once, the index and the set of known hashes are those of
-- the queue, and the queue is no longer than the limit.
pub run-new_pool :
    (chain : Chain) (limit max_block_limit : ℕ) (ops : List (Chain × Op))
    → IsGood limit (run ops (new_pool chain limit max_block_limit))
run-new_pool chain limit max_block_limit ops =
    run-IsGood limit ops _ (new_pool-IsGood chain limit max_block_limit)
