-- ===== src/Sync/Engine.antt =====
-- `SyncMsgEngine` of libsync/SyncMsgEngine.cpp: what arrives from the peers.
pub mod Sound
use lab_bcos.Base.{ℕ, Bool, true, false, not, ◌||◌, Option, none, some, List, [], ◌∷◌}
use lab_bcos.Base.Tests.{◌==◌, if◌then◌else◌}
use lab_bcos.Base.Dict.{insert}
use lab_bcos.TxPool.Types.{Tx, Pool, Chain, ignore}
use lab_bcos.TxPool.Queue.{transaction_is_known_by}
use lab_bcos.TxPool.Import.{import_tx}
use lab_bcos.Sync.Requests.{push}
use lab_bcos.Sync.Blocks.{Shard, push_shard}
use lab_bcos.Sync.Peers.{
  SyncPeerInfo, SyncPeerStatus, idle, downloading, SyncMasterStatus, peer_status, update,
  new_sync_peer_status,
}

-- A packet's items: too few or too many, some that do not decode, or the decoded ones.
pub data Items (A : Type 0) : Type 0 where
  wrong_count broken : Items A
  fields : A → Items A

-- A decoded packet by its type. Of the status and of the request the items are read, of the
-- transactions each item by itself, of the blocks none.
pub data Packet : Type 0 where
  status_packet : Items SyncPeerInfo → Packet
  transactions_packet : List (Option Tx) → Packet
  blocks_packet : Shard → Packet
  req_blocks_packet : Items (ℕ × ℕ) → Packet
  unknown_packet : Packet

-- What the handler sees of a message: the session's node, whether `checkMessage` accepts the bytes,
-- and the packet that `decode` makes of them, if it does.
pub record Message : Type 0 where
  pub session_node : ℕ
  pub well_formed : Bool
  pub decoded : Option Packet

-- The state that the handlers share, and the sessions that were stopped.
pub record SyncWorld : Type 0 where
  pub sync_status : SyncMasterStatus
  pub tx_pool : Pool
  pub stopped : List ℕ

-- `m_syncStatus` with the status of a peer replaced; the table holds pointers.
unfoldable pub set_peer : ℕ → SyncPeerStatus → SyncMasterStatus → SyncMasterStatus
set_peer id peer s = record s { peers_status = insert id peer s.peers_status }

-- The last part of `onPeerStatus`.
unfoldable pub note_status : SyncPeerInfo → SyncMasterStatus → SyncMasterStatus
note_status info s = elim (peer_status info.node_id s) [
  | none ↦ (new_sync_peer_status info s).0
  | some peer ↦ set_peer info.node_id (update info peer) s
]

-- `onPeerStatus`; the second result is false when an exception leaves it.
unfoldable pub on_peer_status :
    ℕ → ℕ → Items SyncPeerInfo → SyncMasterStatus → SyncMasterStatus × Bool
on_peer_status genesis_hash from_node wrong_count s = (s, true)
on_peer_status genesis_hash from_node broken s = (s, false)
on_peer_status genesis_hash from_node (fields info) s =
    if info.genesis_hash == genesis_hash
    then (note_status (record info { node_id = from_node }) s, true)
    else (s, true)

-- The loop of `onPeerTransactions`: an item that does not decode is passed over.
unfoldable pub import_each : Chain → ℕ → ℕ → List (Option Tx) → Pool → Pool
import_each chain now from_node [] p = p
import_each chain now from_node (none ∷ items) p = import_each chain now from_node items p
import_each chain now from_node (some tx ∷ items) p =
    import_each chain now from_node items
      (transaction_is_known_by tx.hash from_node (import_tx chain now tx ignore p).0)

-- `onPeerTransactions`.
unfoldable pub on_peer_transactions :
    Chain → ℕ → ℕ → List (Option Tx) → SyncMasterStatus → Pool → Pool
on_peer_transactions chain now from_node items s p = elim s.state [
  | downloading ↦ p
  | idle ↦ import_each chain now from_node items p
]

-- `onPeerBlocks`.
unfoldable pub on_peer_blocks : Shard → SyncMasterStatus → SyncMasterStatus
on_peer_blocks shard s = record s { bq = push_shard shard s.bq }

-- `onPeerRequestBlocks`.
unfoldable pub request_from : ℕ → ℕ → ℕ → SyncMasterStatus → SyncMasterStatus
request_from from_node start size s = elim (peer_status from_node s) [
  | none ↦ s
  | some peer ↦ set_peer from_node (record peer { req_queue = push start size peer.req_queue }) s
]

unfoldable pub on_peer_request_blocks :
    ℕ → Items (ℕ × ℕ) → SyncMasterStatus → SyncMasterStatus × Bool
on_peer_request_blocks from_node wrong_count s = (s, true)
on_peer_request_blocks from_node broken s = (s, false)
on_peer_request_blocks from_node (fields (start, size)) s =
    (request_from from_node start size s, true)

-- `interpret`.
unfoldable pub interpret : Chain → ℕ → ℕ → ℕ → Packet → SyncWorld → SyncWorld × Bool
interpret chain now genesis_hash from_node (status_packet items) w =
    let (s, ok) = on_peer_status genesis_hash from_node items w.sync_status in
    (record w { sync_status = s }, ok)
interpret chain now genesis_hash from_node (transactions_packet items) w = (
  record w { tx_pool = on_peer_transactions chain now from_node items w.sync_status w.tx_pool },
  true,
)
interpret chain now genesis_hash from_node (blocks_packet shard) w =
    (record w { sync_status = on_peer_blocks shard w.sync_status }, true)
interpret chain now genesis_hash from_node (req_blocks_packet items) w =
    let (s, ok) = on_peer_request_blocks from_node items w.sync_status in
    (record w { sync_status = s }, ok)
interpret chain now genesis_hash from_node unknown_packet w = (w, false)

-- `checkSession`.
unfoldable pub check_session : ℕ → ℕ → Bool
check_session node_id session_node = if session_node == node_id then false else true

unfoldable pub stop_session : ℕ → SyncWorld → SyncWorld
stop_session node w = record w { stopped = node ∷ w.stopped }

-- `messageHandler`.
unfoldable pub message_handler : Chain → ℕ → ℕ → ℕ → Message → SyncWorld → SyncWorld
message_handler chain now node_id genesis_hash msg w =
    if not (check_session node_id msg.session_node) || not msg.well_formed
    then stop_session msg.session_node w
    else elim msg.decoded [
      | none ↦ stop_session msg.session_node w
      | some packet ↦ (interpret chain now genesis_hash msg.session_node packet w).0
    ]
