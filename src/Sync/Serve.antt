-- ===== src/Sync/Serve.antt =====
-- What `SyncMaster` of libsync/SyncMaster.cpp does for other nodes when it is idle: it spreads
-- transactions and its status, and answers requests for blocks.
use lab_bcos.Base.{ℕ, suc, refl, Bool, not, ◌&&◌, Option, none, some, List, [], ◌∷◌, ◌++◌}
use lab_bcos.Base.Tests.{if◌then◌else◌}
use lab_bcos.Base.Dict.{Dict, lookup, insert}
use lab_bcos.TxPool.Types.{Tx, Pool}
use lab_bcos.TxPool.Queue.{
  transaction_is_known_by, is_transaction_known_by, is_transaction_known_by_someone,
}
use lab_bcos.TxPool.Top.{top_transactions_condition}
use lab_bcos.TxPool.Run.{IsGood, IsGood-frame}
use lab_bcos.Sync.Requests.{is_empty}
use lab_bcos.Sync.Blocks.{SyncBlock}
use lab_bcos.Sync.Answer.{answer_peer}
use lab_bcos.Sync.Peers.{SyncPeerStatus, SyncMasterStatus, random_selection}
use lab_bcos.Sync.Engine.{set_peer}

-- What is sent to a peer: the node's height, some transactions, or packets of blocks, newest first.
pub data Served : Type 0 where
  status_to : ℕ → ℕ → Served
  transactions_to : ℕ → List Tx → Served
  blocks_to : ℕ → List (List SyncBlock) → Served

-- `maintainBlocks`: the node's status goes to every peer.
unfoldable pub maintain_blocks : ℕ → Dict SyncPeerStatus → List Served
maintain_blocks number [] = []
maintain_blocks number ((id, peer) ∷ rest) =
    status_to peer.info.node_id number ∷ maintain_blocks number rest

abbrev pub max_send_transactions : ℕ
max_send_transactions = 128

-- `peerTransactions[p]`, made if it is not there.
abbrev pub txs_for : Option (List Tx) → List Tx
txs_for none = []
txs_for (some txs) = txs

-- The peers that one transaction goes to: the table of what goes to whom, and the pool's records.
unfoldable pub mark_peers : Tx → List ℕ → Dict (List Tx) → Pool → Dict (List Tx) × Pool
mark_peers tx [] table p = (table, p)
mark_peers tx (id ∷ ids) table p =
    mark_peers tx ids (insert id (txs_for (lookup id table) ++ tx ∷ []) table)
      (transaction_is_known_by tx.hash id p)

-- `0 != peers.size()`: the node counts as knowing what it has sent.
unfoldable pub mark_self : ℕ → Tx → List ℕ → Pool → Pool
mark_self node_id tx [] p = p
mark_self node_id tx (id ∷ ids) p = transaction_is_known_by tx.hash node_id p

-- May the transaction go to the peer?
unfoldable pub unsent_to : ℕ → Tx → Pool → SyncPeerStatus → Bool
unsent_to node_id tx p peer =
    not (is_transaction_known_by tx.hash node_id p)
    && not (is_transaction_known_by tx.hash peer.info.node_id p)

-- The loop over the transactions; `rand` gives the numbers drawn for each.
unfoldable pub spread :
    (ℕ → ℕ → ℕ) → ℕ → SyncMasterStatus → List Tx → ℕ → Dict (List Tx) → Pool → Dict (List Tx) × Pool
spread rand node_id s [] i table p = (table, p)
spread rand node_id s (tx ∷ txs) i table p =
    let percent = if is_transaction_known_by_someone tx.hash p then 25 else 100 in
    let chosen = random_selection (rand i) percent (unsent_to node_id tx p) s in
    let (table', p') = mark_peers tx chosen table p in
    spread rand node_id s txs (suc i) table' (mark_self node_id tx chosen p')

unfoldable pub add_packet : ℕ → List Tx → List Served → List Served
add_packet id [] rest = rest
add_packet id (tx ∷ txs) rest = transactions_to id (tx ∷ txs) ∷ rest

-- The last loop: each peer that gets some transactions gets them in one packet.
unfoldable pub send_table : Dict SyncPeerStatus → Dict (List Tx) → List Served
send_table [] table = []
send_table ((id, peer) ∷ rest) table =
    add_packet peer.info.node_id (txs_for (lookup peer.info.node_id table)) (send_table rest table)

-- `maintainTransactions`.
unfoldable pub maintain_transactions :
    (ℕ → ℕ → ℕ) → ℕ → SyncMasterStatus → Pool → List Served × Pool
maintain_transactions rand node_id s p =
    let txs =
      top_transactions_condition max_send_transactions
        (λ tx. not (is_transaction_known_by tx.hash node_id p)) p in
    let (table, p') = spread rand node_id s txs 0 [] p in (send_table s.peers_status table, p')

-- `maintainBlockRequest`: the peers in an order that `foreachPeerRandom` chose; the first that waits
-- for blocks is answered, no other.
unfoldable pub maintain_block_request :
    (ℕ → Option SyncBlock)
    → (ℕ → Bool)
    → List SyncPeerStatus
    → SyncMasterStatus
    → SyncMasterStatus × List Served
maintain_block_request block_at in_time [] s = (s, [])
maintain_block_request block_at in_time (peer ∷ rest) s =
    let others = maintain_block_request block_at in_time rest s in
    let (queue, sent) = answer_peer block_at in_time peer.req_queue in
    if is_empty peer.req_queue then others else (
      set_peer peer.info.node_id (record peer { req_queue = queue }) s,
      blocks_to peer.info.node_id sent ∷ [],
    )

mark_peers-IsGood :
    (n : ℕ) (tx : Tx) (ids : List ℕ) (table : Dict (List Tx)) (p : Pool)
    → IsGood n p
    → IsGood n (mark_peers tx ids table p).1
unfolding mark_peers transaction_is_known_by
mark_peers-IsGood n tx [] table p good = good
mark_peers-IsGood n tx (id ∷ ids) table p good =
    mark_peers-IsGood n tx ids _ _ (IsGood-frame n p _ refl refl refl refl good)

mark_self-IsGood :
    (n node_id : ℕ) (tx : Tx) (ids : List ℕ) (p : Pool)
    → IsGood n p
    → IsGood n (mark_self node_id tx ids p)
unfolding mark_self transaction_is_known_by
mark_self-IsGood n node_id tx [] p good = good
mark_self-IsGood n node_id tx (id ∷ ids) p good = IsGood-frame n p _ refl refl refl refl good

spread-IsGood :
    (rand : ℕ → ℕ → ℕ) (n node_id : ℕ) (s : SyncMasterStatus) (txs : List Tx) (i : ℕ)
    (table : Dict (List Tx)) (p : Pool)
    → IsGood n p
    → IsGood n (spread rand node_id s txs i table p).1
unfolding spread
spread-IsGood rand n node_id s [] i table p good = good
spread-IsGood rand n node_id s (tx ∷ txs) i table p good =
    spread-IsGood rand n node_id s txs (suc i) _ _
      (mark_self-IsGood n node_id tx _ _ (mark_peers-IsGood n tx _ table p good))

-- Spreading transactions keeps the pool in agreement and within its limit.
pub maintain_transactions-IsGood :
    (rand : ℕ → ℕ → ℕ) (n node_id : ℕ) (s : SyncMasterStatus) (p : Pool)
    → IsGood n p
    → IsGood n (maintain_transactions rand node_id s p).1
unfolding maintain_transactions
maintain_transactions-IsGood rand n node_id s p good = spread-IsGood rand n node_id s _ 0 [] p good
