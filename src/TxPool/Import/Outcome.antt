-- ===== src/TxPool/Import/Outcome.antt =====
-- What importing a transaction does, for each of its results.
use lab_bcos.Base.{
  ℕ, suc, ◌≤◌, ◌<◌, ◌≡◌, ◌⊎◌, refl, sym, ◌∙◌, ap, inl, inr, true, false, ◌||◌, not, none, some, ◌∷◌,
  arith,
}
use lab_bcos.Base.Tests.{leb, ◌==◌, if◌then◌else◌, Bool-cases}
use lab_bcos.Base.Lists.{length, contains, add, contains-add}
use lab_bcos.Base.Dict.{has, insert, is_some-none}
use lab_bcos.TxPool.Types.{
  Tx, Pool, Chain, TxNonceCheck, invalid256, on_ready, ImportResult, success, malformed,
  unknown_parent, future_time_known, future_time_unknown, bad_chain, zero_signature, already_known,
  already_in_chain, transaction_nonce_check_fail, tx_pool_nonce_check_fail,
  transaction_pool_is_full, IfDropped, ignore,
}
use lab_bcos.TxPool.Nonce.{generate_key, is_nonce_ok, ok, insert_cache}
use lab_bcos.TxPool.Nonce.Window.{ok-same}
use lab_bcos.TxPool.Queue.{emplace, insert_tx}
use lab_bcos.TxPool.Queue.Order.{find_tx, find_tx-emplace, length-emplace}
use lab_bcos.TxPool.Import.{
  is_block_limit_or_nonce_ok, tx_pool_nonce_check, verify_nonces, verify, enqueue, finish_import,
  import_tx,
}
use lab_bcos.TxPool.Invariant.{IsValid}

-- The transaction as `import` stamps it.
abbrev pub stamped : Tx → ℕ → Tx
stamped tx now = record tx { import_time = now }

check-same :
    (chain : Chain) (tx : Tx) (c : TxNonceCheck)
    → (is_block_limit_or_nonce_ok chain tx false c).0 ≡ c
unfolding is_block_limit_or_nonce_ok
check-same chain tx c = elim (Bool-cases (tx.nonce == invalid256)) [
  | inl e ↦ rw e refl
  | inr e ↦ rw e (ok-same chain c tx)
]

-- The verdict on a transaction that has room, from what the pool and the chain hold.
unfoldable pub verdict : Chain → Tx → Pool → ImportResult
verdict chain tx p =
    if contains p.known tx.hash
    then already_known
    else if contains p.dropped tx.hash
    then already_in_chain
    else if tx.nonce == invalid256 || not (ok chain tx false p.tx_nonce_check).1
    then transaction_nonce_check_fail
    else if contains p.common_nonce_check (generate_key tx)
    then tx_pool_nonce_check_fail
    else success

abbrev nonce_verdict : Chain → Tx → Pool → ImportResult
nonce_verdict chain tx p =
    if tx.nonce == invalid256 || not (ok chain tx false p.tx_nonce_check).1
    then transaction_nonce_check_fail
    else if contains p.common_nonce_check (generate_key tx)
    then tx_pool_nonce_check_fail
    else success

check_lem :
    (chain : Chain) (tx : Tx) (c : TxNonceCheck)
    → (is_block_limit_or_nonce_ok chain tx false c).1
      ≡ not (tx.nonce == invalid256 || not (ok chain tx false c).1)
unfolding is_block_limit_or_nonce_ok
check_lem chain tx c = ground arith

pool_check_lem :
    (tx : Tx) (p : Pool)
    → tx_pool_nonce_check tx p ≡ not (contains p.common_nonce_check (generate_key tx))
unfolding tx_pool_nonce_check is_nonce_ok
pool_check_lem tx p = ground arith

verify_nonces_lem :
    (chain : Chain) (tx : Tx) (p : Pool)
    → verify_nonces chain tx false p ≡ (p, nonce_verdict chain tx p)
unfolding verify_nonces
verify_nonces_lem chain tx p =
    rw (check-same chain tx p.tx_nonce_check, check_lem chain tx p.tx_nonce_check)
      (elim (Bool-cases (tx.nonce == invalid256 || not (ok chain tx false p.tx_nonce_check).1)) [
        | inl bad ↦ rw bad refl
        | inr good ↦
            rw (good, pool_check_lem tx p)
              (elim (Bool-cases (contains p.common_nonce_check (generate_key tx))) [
                | inl e ↦ rw e refl
                | inr e ↦ rw e refl
              ])
      ])

verify_lem :
    (chain : Chain) (tx : Tx) (p : Pool) → verify chain tx ignore false p ≡ (p, verdict chain tx p)
unfolding verify verdict
verify_lem chain tx p = ground (arith, verify_nonces_lem chain tx p)

pub finish_import_cases :
    (tx : Tx) (p : Pool) (v : ImportResult)
    → ((finish_import tx (p, v)).1 ≡ success) ⊎ ((finish_import tx (p, v)).0 ≡ p)
unfolding finish_import
finish_import_cases tx p success = inl refl
finish_import_cases tx p malformed = inr refl
finish_import_cases tx p unknown_parent = inr refl
finish_import_cases tx p future_time_known = inr refl
finish_import_cases tx p future_time_unknown = inr refl
finish_import_cases tx p bad_chain = inr refl
finish_import_cases tx p zero_signature = inr refl
finish_import_cases tx p already_known = inr refl
finish_import_cases tx p already_in_chain = inr refl
finish_import_cases tx p transaction_nonce_check_fail = inr refl
finish_import_cases tx p tx_pool_nonce_check_fail = inr refl
finish_import_cases tx p transaction_pool_is_full = inr refl

finish_import_result : (tx : Tx) (p : Pool) (v : ImportResult) → (finish_import tx (p, v)).1 ≡ v
unfolding finish_import
finish_import_result tx p success = refl
finish_import_result tx p malformed = refl
finish_import_result tx p unknown_parent = refl
finish_import_result tx p future_time_known = refl
finish_import_result tx p future_time_unknown = refl
finish_import_result tx p bad_chain = refl
finish_import_result tx p zero_signature = refl
finish_import_result tx p already_known = refl
finish_import_result tx p already_in_chain = refl
finish_import_result tx p transaction_nonce_check_fail = refl
finish_import_result tx p tx_pool_nonce_check_fail = refl
finish_import_result tx p transaction_pool_is_full = refl

pub import_tx_full :
    (chain : Chain) (now : ℕ) (tx : Tx) (policy : IfDropped) (p : Pool)
    → p.limit ≤ length p.txs_queue
    → import_tx chain now tx policy p ≡ (p, transaction_pool_is_full)
unfolding import_tx
import_tx_full chain now tx policy p h = ground arith

pub import_tx_room :
    (chain : Chain) (now : ℕ) (tx : Tx) (policy : IfDropped) (p : Pool)
    → length p.txs_queue < p.limit
    → import_tx chain now tx policy p
      ≡ finish_import (stamped tx now) (p, verdict chain (stamped tx now) p)
unfolding import_tx
import_tx_room chain now tx policy p h = ground (arith, verify_lem chain (stamped tx now) p)

-- The result of importing a transaction is that the pool is full, when it is, and else the verdict.
-- A policy of retrying dropped transactions changes nothing: one that was dropped is refused.
-- With any result but success the pool stays as it was.
pub import_tx_lem :
    (chain : Chain) (now : ℕ) (tx : Tx) (policy : IfDropped) (p : Pool)
    → ((import_tx chain now tx policy p).1 ≡ (
        if leb p.limit (length p.txs_queue)
        then transaction_pool_is_full
        else verdict chain (stamped tx now) p))
      × (((import_tx chain now tx policy p).1 ≡ success)
          ⊎ ((import_tx chain now tx policy p).0 ≡ p))
import_tx_lem chain now tx policy p = elim (Bool-cases (leb p.limit (length p.txs_queue))) [
  | inl full ↦ rw (full, import_tx_full chain now tx policy p (ground arith)) (refl, inr refl)
  | inr room ↦
      rw (room, import_tx_room chain now tx policy p (ground arith))
        (finish_import_result _ p _, finish_import_cases _ p (verdict chain (stamped tx now) p))
]

-- What changes when a transaction is stored.
pub record Stored (tx : Tx) (p q : Pool) : Type 0 where
  pub found :
      (h : ℕ) → find_tx h q.txs_queue ≡ (if tx.hash == h then some tx else find_tx h p.txs_queue)
  pub counted : length q.txs_queue ≡ suc (length p.txs_queue)
  pub keys :
      (k : ℕ)
      → contains q.common_nonce_check k
        ≡ (if generate_key tx == k then true else contains p.common_nonce_check k)
  pub signalled : q.out ≡ on_ready ∷ p.out

pub verdict-success :
    (chain : Chain) (tx : Tx) (p : Pool)
    → verdict chain tx p ≡ success
    → (contains p.known tx.hash ≡ false)
      × (contains p.common_nonce_check (generate_key tx) ≡ false)
      × ((ok chain tx false p.tx_nonce_check).1 ≡ true)
unfolding verdict
verdict-success chain tx p h = ground arith

pub find_tx_new :
    (tx : Tx) (p : Pool)
    → IsValid p
    → contains p.known tx.hash ≡ false
    → find_tx tx.hash p.txs_queue ≡ none
find_tx_new tx p v h = is_some-none _ (sym (v.known_same tx.hash) ∙ h)

pub enqueue_new :
    (tx : Tx) (p : Pool)
    → IsValid p
    → contains p.known tx.hash ≡ false
    → enqueue tx p ≡ record p {
      known = add tx.hash p.known;
      txs_queue = emplace tx p.txs_queue;
      txs_hash = insert tx.hash tx p.txs_hash;
      common_nonce_check = insert_cache tx p.common_nonce_check;
      out = on_ready ∷ p.out;
    }
unfolding enqueue insert_tx has
enqueue_new tx p v h = rw (v.indexed tx.hash) (rw (find_tx_new tx p v h) refl)

pub enqueue-Stored :
    (tx : Tx) (p : Pool) → IsValid p → contains p.known tx.hash ≡ false → Stored tx p (enqueue tx p)
unfolding insert_cache
enqueue-Stored tx p v h = rw (enqueue_new tx p v h) (record {
  found = λ k. find_tx-emplace k tx p.txs_queue (find_tx_new tx p v h);
  counted = length-emplace tx p.txs_queue;
  keys = λ k. contains-add (generate_key tx) k p.common_nonce_check;
  signalled = refl;
})

-- Success, taken apart: the transaction was new to the pool, and was put in.
pub import_tx-enqueue :
    (chain : Chain) (now : ℕ) (tx : Tx) (policy : IfDropped) (p : Pool)
    → (import_tx chain now tx policy p).1 ≡ success
    → (verdict chain (stamped tx now) p ≡ success)
      × ((import_tx chain now tx policy p).0 ≡ enqueue (stamped tx now) p)
unfolding finish_import
import_tx-enqueue chain now tx policy p s = elim (Bool-cases (leb p.limit (length p.txs_queue))) [
  | inl full ↦ absurd (ground (arith, import_tx_full chain now tx policy p (ground arith)))
  | inr room ↦
      let e = import_tx_room chain now tx policy p (ground arith) in
      let w = sym (finish_import_result _ p _) ∙ ap (λ r. r.1) (sym e) ∙ s in (w, rw e (rw w refl))
]

-- A transaction that a pool in agreement imports with success is found by its hash, with its time of
-- arrival, its nonce is taken, the rest of the queue and of the nonces is as before, and
-- `m_onReady` is called.
pub import_tx-Stored :
    (chain : Chain) (now : ℕ) (tx : Tx) (policy : IfDropped) (p : Pool)
    → IsValid p
    → (import_tx chain now tx policy p).1 ≡ success
    → Stored (stamped tx now) p (import_tx chain now tx policy p).0
import_tx-Stored chain now tx policy p v s =
    let (w, e) = import_tx-enqueue chain now tx policy p s in
    rw e (enqueue-Stored (stamped tx now) p v (verdict-success chain (stamped tx now) p w).0)
