-- ===== src/TxPool/Drop/Undo.antt =====
-- Dropping a transaction that was just imported.
use lab_bcos.Base.{
  ℕ, ◌≡◌, refl, sym, ◌∙◌, ap, inl, inr, true, false, none, some, List, [], ◌∷◌, arith,
}
use lab_bcos.Base.Tests.{leb, ltb, ◌==◌, ==_refl, if◌then◌else◌, Bool-cases}
use lab_bcos.Base.Lists.{length, contains, add}
use lab_bcos.Base.Dict.{lookup, is_some}
use lab_bcos.TxPool.Types.{Tx, Pool, Chain, success, IfDropped}
use lab_bcos.TxPool.Nonce.{generate_key}
use lab_bcos.TxPool.Queue.{emplace, erase_node, insert_tx}
use lab_bcos.TxPool.Queue.Order.{find_tx}
use lab_bcos.TxPool.Import.{import_tx, enqueue}
use lab_bcos.TxPool.Import.Outcome.{
  stamped, verdict-success, enqueue_new, find_tx_new, import_tx-enqueue, enqueue-Stored,
}
use lab_bcos.TxPool.Drop.{drop_tx}
use lab_bcos.TxPool.Invariant.{
  IsValid, without, without-IsValid, remove_trans_found, insert_tx-IsValid, IsValid-frame,
}

erase_node-emplace :
    (tx : Tx) (ts : List Tx) → find_tx tx.hash ts ≡ none → erase_node tx.hash (emplace tx ts) ≡ ts
unfolding erase_node emplace find_tx
erase_node-emplace tx [] e = ground (arith, ==_refl tx.hash)
erase_node-emplace tx (t ∷ ts) e = elim (Bool-cases (leb tx.import_time t.import_time)) [
  | inl f ↦ rw f (rw (==_refl tx.hash) refl)
  | inr f ↦ rw f (ground (arith, erase_node-emplace tx ts))
]

-- What is left of a transaction that was imported into `p` and dropped, in `q`.
pub record Undone (tx : Tx) (p q : Pool) : Type 0 where
  pub queue_back : q.txs_queue ≡ p.txs_queue
  pub index_back : (h : ℕ) → lookup h q.txs_hash ≡ lookup h p.txs_hash
  pub known_back : (h : ℕ) → contains q.known h ≡ contains p.known h
  pub key_taken : contains q.common_nonce_check (generate_key tx) ≡ true

drop_tx_known :
    (h : ℕ) (p : Pool) (tx : Tx)
    → IsValid p
    → find_tx h p.txs_queue ≡ some tx
    → drop_tx h p ≡ (
      without h false none
          (record p { dropped = if ltb (length p.dropped) p.limit then add h p.dropped else [] }),
      true,
    )
unfolding drop_tx
drop_tx_known h p tx v e =
    rw (v.known_same h, e)
      (remove_trans_found h false none _ tx (IsValid-frame p _ refl refl refl v) (v.indexed h ∙ e))

enqueue-IsValid : (tx : Tx) (p : Pool) → IsValid p → IsValid (enqueue tx p)
unfolding enqueue
enqueue-IsValid tx p v = elim (Bool-cases (insert_tx tx p).1) [
  | inl e ↦ rw e (IsValid-frame _ _ refl refl refl (insert_tx-IsValid tx p v))
  | inr e ↦ rw e (insert_tx-IsValid tx p v)
]

at_itself : {A : Type 0} (k : ℕ) (x y : A) → (if k == k then x else y) ≡ x
at_itself k x y = rw (==_refl k) refl

-- With the queue back, the index and the known hashes are back, if both pools are in agreement.
undone :
    (tx : Tx) (p q : Pool)
    → IsValid p
    → IsValid q
    → q.txs_queue ≡ p.txs_queue
    → contains q.common_nonce_check (generate_key tx) ≡ true
    → Undone tx p q
undone tx p q v w e k = record {
  queue_back = e;
  index_back = λ h. w.indexed h ∙ ap (find_tx h) e ∙ sym (v.indexed h);
  known_back = λ h. w.known_same h ∙ ap (λ ts. is_some (find_tx h ts)) e ∙ sym (v.known_same h);
  key_taken = k;
}

-- Dropping a transaction that was put into a pool without it.
drop_tx-enqueue :
    (tx : Tx) (p : Pool)
    → IsValid p
    → contains p.known tx.hash ≡ false
    → Undone tx p (drop_tx tx.hash (enqueue tx p)).0 × ((drop_tx tx.hash (enqueue tx p)).1 ≡ true)
drop_tx-enqueue tx p v new =
    let gone = find_tx_new tx p v new in
    let after = enqueue-Stored tx p v new in
    let q = enqueue-IsValid tx p v in
    let found = after.found tx.hash ∙ at_itself tx.hash _ _ in
    rw (drop_tx_known tx.hash (enqueue tx p) tx q found) (
      undone tx p _ v (without-IsValid tx.hash false none _ (IsValid-frame _ _ refl refl refl q))
          (rw (enqueue_new tx p v new) (erase_node-emplace tx p.txs_queue gone))
          (after.keys (generate_key tx) ∙ at_itself (generate_key tx) _ _),
      refl,
    )

-- A transaction imported with success into a pool in agreement and then dropped leaves the queue,
-- the index and the known hashes as they were, and `drop` returns true; but its nonce stays taken.
pub drop_tx-import_tx :
    (chain : Chain) (now : ℕ) (tx : Tx) (policy : IfDropped) (p : Pool)
    → IsValid p
    → (import_tx chain now tx policy p).1 ≡ success
    → Undone (stamped tx now) p (drop_tx tx.hash (import_tx chain now tx policy p).0).0
      × ((drop_tx tx.hash (import_tx chain now tx policy p).0).1 ≡ true)
drop_tx-import_tx chain now tx policy p v s =
    let (w, e) = import_tx-enqueue chain now tx policy p s in
    rw e (drop_tx-enqueue (stamped tx now) p v (verdict-success chain (stamped tx now) p w).0)
