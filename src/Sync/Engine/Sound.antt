-- ===== src/Sync/Engine/Sound.antt =====
-- What holds of the shared state, whatever packets arrive.
use lab_bcos.Base.{ℕ, ◌≤◌, ◌≡◌, refl, inl, inr, not, ◌||◌, Option, none, some, List, [], ◌∷◌, arith}
use lab_bcos.Base.Tests.{leb, ◌==◌, Bool-cases, Option-cases}
use lab_bcos.Base.Lists.{length, length-append}
use lab_bcos.Base.Dict.{lookup, has, lookup-insert}
use lab_bcos.TxPool.Types.{Tx, Pool, Chain, ignore}
use lab_bcos.TxPool.Run.{IsGood, step-IsGood, import_op, known_op, step}
use lab_bcos.Sync.Requests.{ReqQueue, push, max_received_requests, no_requests}
use lab_bcos.Sync.Requests.Merge.{IsOrdered, enlist-IsOrdered, length-enlist}
use lab_bcos.Sync.Blocks.{Shard, push_shard, max_buffer_size}
use lab_bcos.Sync.Peers.{
  SyncPeerInfo, SyncPeerStatus, SyncState, idle, downloading, SyncMasterStatus, has_peer, new_peer,
  peer_status, update, new_sync_peer_status,
}
use lab_bcos.Sync.Engine.{
  Items, wrong_count, broken, fields, Packet, status_packet, transactions_packet, blocks_packet,
  req_blocks_packet, unknown_packet, Message, SyncWorld, set_peer, note_status, on_peer_status,
  import_each, on_peer_transactions, on_peer_blocks, request_from, on_peer_request_blocks,
  interpret, stop_session, message_handler, check_session,
}

-- The requests of a peer are in order, and no more than `push` lets in.
pub record Waits (q : ReqQueue) : Type 0 where
  pub ordered : IsOrdered q.reqs
  pub limited : length q.reqs ≤ max_received_requests

abbrev pub PeerWaits : Option SyncPeerStatus → Type 0
PeerWaits none = Unit
PeerWaits (some peer) = Waits peer.req_queue

-- The requests of each peer wait in order, and the buffer of packets is within its limit.
pub record StatusIsSound (s : SyncMasterStatus) : Type 0 where
  pub waits : (id : ℕ) → PeerWaits (lookup id s.peers_status)
  pub buffered : length s.bq.buffer ≤ max_buffer_size

-- And the pool is in agreement and within its limit.
pub record IsSound (n : ℕ) (w : SyncWorld) : Type 0 where
  pub status_sound : StatusIsSound w.sync_status
  pub pool_good : IsGood n w.tx_pool

push-Waits : (start size : ℕ) (q : ReqQueue) → Waits q → Waits (push start size q)
unfolding push
push-Waits start size q v = elim (Bool-cases q.can_push) [
  | inr shut ↦ rw shut (record { ordered = v.ordered; limited = v.limited })
  | inl can ↦ rw can (elim (Bool-cases (leb max_received_requests (length q.reqs))) [
    | inl full ↦ rw full (record { ordered = v.ordered; limited = v.limited })
    | inr room ↦ rw room (record {
      ordered = enlist-IsOrdered _ q.reqs v.ordered;
      limited =
          rw (length-enlist (record { from_number = start; size = size }) q.reqs) (ground arith);
    })
  ])
]

set_peer_sound :
    (id : ℕ) (peer : SyncPeerStatus) (s : SyncMasterStatus)
    → Waits peer.req_queue
    → StatusIsSound s
    → StatusIsSound (set_peer id peer s)
unfolding set_peer
set_peer_sound id peer s v sound = record {
  waits = λ k.
      rw (lookup-insert id k peer s.peers_status)
        (elim (Bool-cases (id == k)) [ inl e ↦ rw e v | inr e ↦ rw e (sound.waits k) ]);
  buffered = sound.buffered;
}

no_requests-Waits : Waits no_requests
unfolding no_requests
no_requests-Waits = record { ordered = tt; limited = omega arith }

new_sync_peer_status_absent :
    (info : SyncPeerInfo) (s : SyncMasterStatus)
    → lookup info.node_id s.peers_status ≡ none
    → (new_sync_peer_status info s).0 ≡ set_peer info.node_id (new_peer info) s
unfolding new_sync_peer_status has_peer has set_peer
new_sync_peer_status_absent info s e = rw e refl

note_status_sound :
    (info : SyncPeerInfo) (s : SyncMasterStatus)
    → StatusIsSound s
    → StatusIsSound (note_status info s)
unfolding note_status peer_status new_peer update
note_status_sound info s sound = elim (Option-cases (lookup info.node_id s.peers_status)) [
  | inl e ↦
      rw (e, note_status)
        (rw (new_sync_peer_status_absent info s e)
          (set_peer_sound info.node_id (new_peer info) s no_requests-Waits sound))
  | inr (peer, e) ↦
      rw (e, note_status)
        (set_peer_sound info.node_id (update info peer) s (rw e at (sound.waits info.node_id))
          sound)
]

request_from_sound :
    (node start size : ℕ) (s : SyncMasterStatus)
    → StatusIsSound s
    → StatusIsSound (request_from node start size s)
unfolding request_from peer_status
request_from_sound node start size s sound = elim (Option-cases (lookup node s.peers_status)) [
  | inl e ↦ rw (e, request_from) sound
  | inr (peer, e) ↦
      rw (e, request_from)
        (set_peer_sound node _ s (push-Waits start size peer.req_queue (rw e at (sound.waits node)))
          sound)
]

on_peer_blocks_sound :
    (shard : Shard) (s : SyncMasterStatus)
    → StatusIsSound s
    → StatusIsSound (on_peer_blocks shard s)
unfolding on_peer_blocks push_shard
on_peer_blocks_sound shard s sound = record {
  waits = sound.waits;
  buffered = ground (arith, length-append s.bq.buffer (shard ∷ []), sound.buffered);
}

import_each-IsGood :
    (n : ℕ) (chain : Chain) (now node : ℕ) (items : List (Option Tx)) (p : Pool)
    → IsGood n p
    → IsGood n (import_each chain now node items p)
unfolding import_each step
import_each-IsGood n chain now node [] p good = good
import_each-IsGood n chain now node (none ∷ items) p good =
    import_each-IsGood n chain now node items p good
import_each-IsGood n chain now node (some tx ∷ items) p good =
    import_each-IsGood n chain now node items _ (
      step-IsGood n chain (known_op tx.hash node) _
        (step-IsGood n chain (import_op now tx ignore) p good))

on_peer_transactions-IsGood :
    (n : ℕ) (chain : Chain) (now node : ℕ) (items : List (Option Tx)) (s : SyncMasterStatus)
    (p : Pool)
    → IsGood n p
    → IsGood n (on_peer_transactions chain now node items s p)
unfolding on_peer_transactions
on_peer_transactions-IsGood n chain now node items s p good = go s.state
  where
    go :
        (state : SyncState)
        → IsGood n (elim state [ downloading ↦ p | idle ↦ import_each chain now node items p ])
    go downloading = good
    go idle = import_each-IsGood n chain now node items p good

on_peer_status_sound :
    (genesis node : ℕ) (items : Items SyncPeerInfo) (s : SyncMasterStatus)
    → StatusIsSound s
    → StatusIsSound (on_peer_status genesis node items s).0
unfolding on_peer_status
on_peer_status_sound genesis node wrong_count s sound = sound
on_peer_status_sound genesis node broken s sound = sound
on_peer_status_sound genesis node (fields info) s sound =
    elim (Bool-cases (info.genesis_hash == genesis)) [
      | inl e ↦ rw e (note_status_sound (record info { node_id = node }) s sound)
      | inr e ↦ rw e sound
    ]

on_peer_request_blocks_sound :
    (node : ℕ) (items : Items (ℕ × ℕ)) (s : SyncMasterStatus)
    → StatusIsSound s
    → StatusIsSound (on_peer_request_blocks node items s).0
unfolding on_peer_request_blocks
on_peer_request_blocks_sound node wrong_count s sound = sound
on_peer_request_blocks_sound node broken s sound = sound
on_peer_request_blocks_sound node (fields (start, size)) s sound =
    request_from_sound node start size s sound

interpret-IsSound :
    (n : ℕ) (chain : Chain) (now genesis node : ℕ) (packet : Packet) (w : SyncWorld)
    → IsSound n w
    → IsSound n (interpret chain now genesis node packet w).0
unfolding interpret
interpret-IsSound n chain now genesis node (status_packet items) w v = record {
  status_sound = on_peer_status_sound genesis node items w.sync_status v.status_sound;
  pool_good = v.pool_good;
}
interpret-IsSound n chain now genesis node (transactions_packet items) w v = record {
  status_sound = v.status_sound;
  pool_good =
      on_peer_transactions-IsGood n chain now node items w.sync_status w.tx_pool v.pool_good;
}
interpret-IsSound n chain now genesis node (blocks_packet shard) w v = record {
  status_sound = on_peer_blocks_sound shard w.sync_status v.status_sound;
  pool_good = v.pool_good;
}
interpret-IsSound n chain now genesis node (req_blocks_packet items) w v = record {
  status_sound = on_peer_request_blocks_sound node items w.sync_status v.status_sound;
  pool_good = v.pool_good;
}
interpret-IsSound n chain now genesis node unknown_packet w v = v

stop_session-IsSound : (n node : ℕ) (w : SyncWorld) → IsSound n w → IsSound n (stop_session node w)
unfolding stop_session
stop_session-IsSound n node w v = record { status_sound = v.status_sound; pool_good = v.pool_good }

-- Whatever message arrives, the requests of each peer stay in order and no more than eight, the
-- buffer of packets stays within its limit, and the pool stays in agreement and within its own.
pub message_handler-IsSound :
    (n : ℕ) (chain : Chain) (now node_id genesis : ℕ) (msg : Message) (w : SyncWorld)
    → IsSound n w
    → IsSound n (message_handler chain now node_id genesis msg w)
unfolding message_handler
message_handler-IsSound n chain now node_id genesis msg w v =
    elim (Bool-cases (not (check_session node_id msg.session_node) || not msg.well_formed)) [
      | inl refused ↦ rw refused (stop_session-IsSound n msg.session_node w v)
      | inr taken ↦ rw taken (elim (Option-cases msg.decoded) [
        | inl e ↦ rw (e, message_handler) (stop_session-IsSound n msg.session_node w v)
        | inr (packet, e) ↦
            rw (e, message_handler)
              (interpret-IsSound n chain now genesis msg.session_node packet w v)
      ])
    ]
