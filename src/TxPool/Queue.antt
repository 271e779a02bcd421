-- ===== src/TxPool/Queue.antt =====
-- libtxpool/TxPool.cpp: the queue, its index by hash, and the records of who knows a transaction.
pub mod Order
use lab_bcos.Base.{ℕ, Bool, true, false, Option, none, some, List, [], ◌∷◌}
use lab_bcos.Base.Tests.{leb, ◌==◌, if◌then◌else◌}
use lab_bcos.Base.Lists.{contains, remove, add}
use lab_bcos.Base.Dict.{Dict, lookup, has, insert, erase}
use lab_bcos.TxPool.Types.{Tx, Pool, LocalisedReceipt, Call, rpc_callback}

-- `m_txsQueue.emplace`: `transactionCompare` is `<=` on import times, so no transaction counts as
-- present, and a new one goes in front of those that came at its time or later.
unfoldable pub emplace : Tx → List Tx → List Tx
emplace tx [] = tx ∷ []
emplace tx (t ∷ ts) = if leb tx.import_time t.import_time then tx ∷ t ∷ ts else t ∷ emplace tx ts

-- `m_txsQueue.erase`: the node of a transaction is the one with its hash.
unfoldable pub erase_node : ℕ → List Tx → List Tx
erase_node hash [] = []
erase_node hash (t ∷ ts) = if t.hash == hash then ts else t ∷ erase_node hash ts

-- `TxPool::insert`.
unfoldable pub insert_tx : Tx → Pool → Pool × Bool
insert_tx tx p = if has tx.hash p.txs_hash then (p, false) else (
  record p {
    known = add tx.hash p.known;
    txs_queue = emplace tx p.txs_queue;
    txs_hash = insert tx.hash tx p.txs_hash;
  },
  true,
)

unfoldable pub trigger : ℕ → Bool → Option LocalisedReceipt → List Call → List Call
trigger hash need_trigger none out = out
trigger hash need_trigger (some r) out = if need_trigger then rpc_callback hash r ∷ out else out

unfoldable pub remove_transaction_know_by : ℕ → Dict (List ℕ) → Dict (List ℕ)
remove_transaction_know_by hash known_by = erase hash known_by

-- `removeTrans`.
unfoldable pub remove_trans : ℕ → Bool → Option LocalisedReceipt → Pool → Pool × Bool
remove_trans hash need_trigger receipt p = elim (lookup hash p.txs_hash) [
  | none ↦ (p, false)
  | some tx ↦ (
    record p {
      out = trigger tx.hash need_trigger receipt p.out;
      txs_queue = erase_node tx.hash p.txs_queue;
      txs_hash = erase hash p.txs_hash;
      known = remove hash p.known;
      known_by = remove_transaction_know_by hash p.known_by;
    },
    true,
  )
]

-- `m_transactionKnownBy[hash]`, made if it is not there.
abbrev pub nodes_of : Option (List ℕ) → List ℕ
nodes_of none = []
nodes_of (some ids) = ids

unfoldable pub transaction_is_known_by : ℕ → ℕ → Pool → Pool
transaction_is_known_by hash node p = record p {
  known_by = insert hash (add node (nodes_of (lookup hash p.known_by))) p.known_by;
}

unfoldable pub is_transaction_known_by : ℕ → ℕ → Pool → Bool
is_transaction_known_by hash node p = contains (nodes_of (lookup hash p.known_by)) node

abbrev pub is_empty : List ℕ → Bool
is_empty [] = true
is_empty (x ∷ xs) = false

unfoldable pub is_transaction_known_by_someone : ℕ → Pool → Bool
is_transaction_known_by_someone hash p =
    if is_empty (nodes_of (lookup hash p.known_by)) then false else true
