-- ===== src/TxPool/Invariant.antt =====
-- The pool's queue, index and set of known hashes agree, whatever is done to the pool.
use lab_bcos.Base.{ℕ, ◌≡◌, refl, sym, ◌∙◌, inl, inr, Bool, true, false, Option, none, some, arith}
use lab_bcos.Base.Tests.{◌==◌, if◌then◌else◌, ==_iff, ==_comm, Bool-cases, Option-cases}
use lab_bcos.Base.Lists.{contains, remove, contains-add, contains-remove}
use lab_bcos.Base.Dict.{
  Dict, lookup, has, is_some, erase, IsMap, lookup-insert, insert-IsMap, lookup-retain,
  retain-IsMap, other_key,
}
use lab_bcos.TxPool.Types.{Tx, Pool, LocalisedReceipt}
use lab_bcos.TxPool.Queue.{erase_node, insert_tx, remove_trans, trigger, remove_transaction_know_by}
use lab_bcos.TxPool.Queue.Order.{
  find_tx, IsSorted, HashesDiffer, emplace-IsSorted, find_tx-emplace, emplace-HashesDiffer,
  find_tx-erase_node, erase_node-IsSorted, erase_node-HashesDiffer, find_tx-hash,
}

-- The queue is in the order of arrival, with each hash once; the index has an entry for each
-- transaction of the queue; and the known hashes are those of the queue.
pub record IsValid (p : Pool) : Type 0 where
  pub sorted : IsSorted p.txs_queue
  pub differ : HashesDiffer p.txs_queue
  pub index_map : IsMap p.txs_hash
  pub indexed : (h : ℕ) → lookup h p.txs_hash ≡ find_tx h p.txs_queue
  pub known_same : (h : ℕ) → contains p.known h ≡ is_some (find_tx h p.txs_queue)

-- The fields that the invariant reads, of a pool whose other fields have changed.
pub IsValid-frame :
    (p q : Pool)
    → q.txs_queue ≡ p.txs_queue
    → q.txs_hash ≡ p.txs_hash
    → q.known ≡ p.known
    → IsValid p
    → IsValid q
IsValid-frame p q e f g v = record {
  sorted = rw e v.sorted;
  differ = rw e v.differ;
  index_map = rw f v.index_map;
  indexed = λ h. rw (e, f) (v.indexed h);
  known_same = λ h. rw (e, g) (v.known_same h);
}

pub lookup-erase :
    {V : Type 0} (k a : ℕ) (m : Dict V)
    → IsMap m
    → lookup k (erase a m) ≡ (if a == k then none else lookup k m)
unfolding erase
lookup-erase k a m u = elim (Option-cases (lookup k m)) [
  | inl e ↦ rw (lookup-retain (other_key a) k m u, e) (ground arith)
  | inr (v, e) ↦ rw (lookup-retain (other_key a) k m u, e) (ground (arith, ==_comm k a))
]

-- A new transaction enters the queue, the index and the known hashes.
pub insert_tx-IsValid : (tx : Tx) (p : Pool) → IsValid p → IsValid (insert_tx tx p).0
unfolding insert_tx has
insert_tx-IsValid tx p v = elim (Option-cases (lookup tx.hash p.txs_hash)) [
  | inl new ↦ rw new (record {
    sorted = emplace-IsSorted tx p.txs_queue v.sorted;
    differ = emplace-HashesDiffer tx p.txs_queue (sym (v.indexed tx.hash) ∙ new) v.differ;
    index_map = insert-IsMap tx.hash tx p.txs_hash v.index_map;
    indexed = λ h.
        rw
          (
            lookup-insert tx.hash h tx p.txs_hash,
            find_tx-emplace h tx p.txs_queue (sym (v.indexed tx.hash) ∙ new),
            v.indexed h,
          )
          refl;
    known_same = λ h.
        rw
          (
            contains-add tx.hash h p.known,
            find_tx-emplace h tx p.txs_queue (sym (v.indexed tx.hash) ∙ new),
            v.known_same h,
          )
          (ground arith);
  })
  | inr (t, old) ↦ rw old v
]

-- The pool without a transaction that it had.
abbrev pub without : ℕ → Bool → Option LocalisedReceipt → Pool → Pool
without h b r p = record p {
  out = trigger h b r p.out;
  txs_queue = erase_node h p.txs_queue;
  txs_hash = erase h p.txs_hash;
  known = remove h p.known;
  known_by = remove_transaction_know_by h p.known_by;
}

pub remove_trans_absent :
    (h : ℕ) (b : Bool) (r : Option LocalisedReceipt) (p : Pool)
    → lookup h p.txs_hash ≡ none
    → remove_trans h b r p ≡ (p, false)
unfolding remove_trans
remove_trans_absent h b r p e = rw (e, remove_trans) refl

pub remove_trans_found :
    (h : ℕ) (b : Bool) (r : Option LocalisedReceipt) (p : Pool) (tx : Tx)
    → IsValid p
    → lookup h p.txs_hash ≡ some tx
    → remove_trans h b r p ≡ (without h b r p, true)
unfolding remove_trans
remove_trans_found h b r p tx v e =
    rw (e, remove_trans) (rw (find_tx-hash h p.txs_queue tx (sym (v.indexed h) ∙ e)) refl)

pub without-IsValid :
    (h : ℕ) (b : Bool) (r : Option LocalisedReceipt) (p : Pool)
    → IsValid p
    → IsValid (without h b r p)
without-IsValid h b r p v = record {
  sorted = erase_node-IsSorted h p.txs_queue v.sorted;
  differ = erase_node-HashesDiffer h p.txs_queue v.differ;
  index_map = unfold erase in retain-IsMap (other_key h) p.txs_hash v.index_map;
  indexed = λ k.
      rw
        (
          lookup-erase k h p.txs_hash v.index_map,
          find_tx-erase_node k h p.txs_queue v.differ,
          v.indexed k,
        )
        refl;
  known_same = λ k.
      rw (contains-remove h k p.known, find_tx-erase_node k h p.txs_queue v.differ, v.known_same k)
        (ground arith);
}

-- Removing a transaction, known or not, keeps them in agreement.
pub remove_trans-IsValid :
    (h : ℕ) (b : Bool) (r : Option LocalisedReceipt) (p : Pool)
    → IsValid p
    → IsValid (remove_trans h b r p).0
remove_trans-IsValid h b r p v = elim (Option-cases (lookup h p.txs_hash)) [
  | inl e ↦ rw (remove_trans_absent h b r p e) v
  | inr (tx, e) ↦ rw (remove_trans_found h b r p tx v e) (without-IsValid h b r p v)
]

-- A hash that was removed is gone, and the rest is found as before.
pub find_tx-remove_trans :
    (k h : ℕ) (b : Bool) (r : Option LocalisedReceipt) (p : Pool)
    → IsValid p
    → find_tx k (remove_trans h b r p).0.txs_queue
      ≡ (if h == k then none else find_tx k p.txs_queue)
find_tx-remove_trans k h b r p v = elim (Option-cases (lookup h p.txs_hash)) [
  | inl e ↦ rw (remove_trans_absent h b r p e) (elim (Bool-cases (h == k)) [
    | inl f ↦ rw (f, ← (==_iff h k).0 f) (sym (v.indexed h) ∙ e)
    | inr f ↦ rw f refl
  ])
  | inr (tx, e) ↦
      rw (remove_trans_found h b r p tx v e) (find_tx-erase_node k h p.txs_queue v.differ)
]
