-- ===== src/Sync/Master.antt =====
-- `SyncMaster` of libsync/SyncMaster.h and .cpp: one round of the synchronisation thread. Heights are
-- natural numbers, times 64-bit ones.
pub mod Shards
use lab_bcos.Base.{
  ℕ, zero, suc, ◌+◌, ◌-◌, ◌*◌, ◌/◌, ◌%◌, ◌^◌, min, max, Bool, true, false, ◌&&◌, Option, none, some,
  List, [], ◌∷◌, ◌++◌,
}
use lab_bcos.Base.Tests.{ltb, leb, ◌==◌, if◌then◌else◌}
use lab_bcos.Base.Dict.{Dict}
use lab_bcos.Sync.Blocks.{
  SyncBlock, max_request_blocks, max_request_shards, flush_buffer_to_queue,
  clear_full_queue_if_not_has, clear, head,
}
use lab_bcos.Sync.Peers.{
  SyncPeerStatus, SyncState, idle, downloading, SyncMasterStatus, has_peer, new_sync_peer_status,
  delete_peer, peers, note_downloading_begin,
}

-- A message to a peer: the node's status, or a request for some blocks.
pub data Sent : Type 0 where
  send_status : ℕ → ℕ → Sent
  send_request : ℕ → ℕ → ℕ → Sent

-- The fields of `SyncMaster`; `out` lists the messages, newest first.
pub record Master : Type 0 where
  pub status : SyncMasterStatus
  pub max_request_number : ℕ
  pub last_downloading_request_time : ℕ
  pub current_sealing_number : ℕ
  pub new_transactions : Bool
  pub new_blocks : Bool
  pub maintain_blocks_timeout : ℕ
  pub out : List Sent

abbrev pub downloading_request_timeout : ℕ
downloading_request_timeout = max_request_blocks * 1000

-- `noteSealingBlockNumber`.
unfoldable pub note_sealing_block_number : ℕ → Master → Master
note_sealing_block_number number m = record m { current_sealing_number = number }

-- `noteNewTransactions` and `noteNewBlocks`, the handlers of the pool's and of the chain's signal.
unfoldable pub note_new_transactions : Master → Master
note_new_transactions m = record m { new_transactions = true }

unfoldable pub note_new_blocks : Master → Master
note_new_blocks m = record m { new_blocks = true }

abbrev pub is_downloading : SyncState → Bool
is_downloading idle = false
is_downloading downloading = true

-- `isSyncing`.
unfoldable pub is_syncing : Master → Bool
is_syncing m = is_downloading m.status.state

-- `maintainDownloadingQueueBuffer`, at a height of the chain.
unfoldable pub maintain_downloading_queue_buffer : ℕ → Master → Master
maintain_downloading_queue_buffer height m = record m {
  status = record m.status {
    bq =
        if is_downloading m.status.state
        then flush_buffer_to_queue (some height)
            (clear_full_queue_if_not_has (suc height) m.status.bq)
        else clear m.status.bq;
  };
}

-- The first loop of `maintainPeersConnection`.
unfoldable pub delete_inactive : (ℕ → Bool) → List ℕ → SyncMasterStatus → SyncMasterStatus
delete_inactive is_connected [] s = s
delete_inactive is_connected (id ∷ ids) s =
    delete_inactive is_connected ids (if is_connected id then s else delete_peer id s)

-- The second loop: a session that is no peer yet becomes one and is told the node's height.
unfoldable pub add_new : ℕ → List ℕ → Master → Master
add_new height [] m = m
add_new height (id ∷ ids) m = add_new height ids (
    if has_peer id m.status then m else record m {
      status =
          (new_sync_peer_status
            (record {
              node_id = id;
              number = 0;
              genesis_hash = m.status.genesis;
              latest_hash = m.status.genesis;
            })
            m.status).0;
      out = send_status id height ∷ m.out;
    })

-- `maintainPeersConnection`.
unfoldable pub maintain_peers_connection : (ℕ → Bool) → List ℕ → ℕ → Master → Master
maintain_peers_connection is_connected sessions height m =
    add_new height sessions
      (record m { status = delete_inactive is_connected (peers m.status) m.status })

-- The highest block of the peers with its hash, among those above what is found so far.
unfoldable pub highest : Dict SyncPeerStatus → ℕ × ℕ → ℕ × ℕ
highest [] best = best
highest ((id, peer) ∷ rest) best =
    highest rest
      (if ltb best.0 peer.info.number then (peer.info.number, peer.info.latest_hash) else best)

-- The shards of a turn: how many, the first block before them, and the last block wanted.
pub record Turn : Type 0 where
  pub current_number : ℕ
  pub wanted : ℕ
  pub shard_number : ℕ

unfoldable pub shard_from : Turn → ℕ → ℕ
shard_from t shard = t.current_number + 1 + shard * max_request_blocks

unfoldable pub shard_to : Turn → ℕ → ℕ
shard_to t shard = min (shard_from t shard + max_request_blocks - 1) t.wanted

unfoldable pub more_shards : Turn → ℕ → Bool
more_shards t shard = ltb shard t.shard_number && ltb shard max_request_shards

-- The state of the loop: the next shard, `m_maxRequestNumber`, and the requests that were sent,
-- newest first.
pub record Requested : Type 0 where
  pub shard : ℕ
  pub max_number : ℕ
  pub requests : List Sent

-- One request, for a shard that is found at a peer.
unfoldable pub request_shard : Turn → ℕ → Requested → Requested
request_shard t id r = record {
  shard = suc r.shard;
  max_number = max r.max_number (shard_to t r.shard);
  requests =
      send_request id (shard_from t r.shard) (shard_to t r.shard - shard_from t r.shard + 1)
      ∷ r.requests;
}

-- One pass over the peers in an order that `foreachPeerRandom` chose.
unfoldable pub ask_peers : Turn → List SyncPeerStatus → Requested → Requested
ask_peers t [] r = r
ask_peers t (peer ∷ rest) r =
    let asked = request_shard t peer.info.node_id r in
    let skipped = ask_peers t rest r in
    let next = ask_peers t rest asked in
    if ltb peer.info.number (shard_to t r.shard)
    then skipped
    else if more_shards t asked.shard
    then next
    else asked

-- The loop over the passes, each with its own order of the peers. A pass that finds a peer moves to
-- another shard, so that `max_request_shards` passes are enough.
unfoldable pub ask_rounds : (ℕ → List SyncPeerStatus) → Turn → ℕ → Requested → Requested
ask_rounds order t zero r = r
ask_rounds order t (suc fuel) r =
    let asked = ask_peers t (order fuel) r in
    let next = ask_rounds order t fuel asked in
    if more_shards t r.shard then if asked.shard == r.shard then asked else next else r

-- The last block to ask for: up to the lowest block of the queue.
unfoldable pub request_limit : ℕ → Option SyncBlock → ℕ
request_limit max_peer_number none = max_peer_number
request_limit max_peer_number (some block) = min max_peer_number (block.number - 1)

-- The turn that fetches the blocks above a height up to the last one wanted.
unfoldable pub turn_of : ℕ → ℕ → Turn
turn_of current_number wanted = record {
  current_number = current_number;
  wanted = wanted;
  shard_number = (wanted - current_number + max_request_blocks - 1) / max_request_blocks;
}

-- The requests of one turn.
unfoldable pub request_blocks : (ℕ → List SyncPeerStatus) → ℕ → ℕ → Requested
request_blocks order current_number wanted =
    ask_rounds order (turn_of current_number wanted) max_request_shards
      (record { shard = 0; max_number = 0; requests = [] })

-- `maintainPeersStatus` from where the download starts on.
unfoldable pub start_download : (ℕ → List SyncPeerStatus) → ℕ → ℕ → ℕ → Master → Master
start_download order now current_number max_peer_number m =
    let wanted = request_limit max_peer_number (head m.status.bq.blocks) in
    let r = request_blocks order current_number wanted in
    let begun = record m {
      status = note_downloading_begin m.status;
      last_downloading_request_time = now;
    } in
    if leb wanted current_number
    then begun
    else record begun { max_request_number = r.max_number; out = r.requests ++ m.out }

unfoldable pub know_highest : ℕ → ℕ × ℕ → Master → Master
know_highest current_number (number, hash) m =
    if ltb current_number number
    then record m {
      status = record m.status { known_highest_number = number; known_latest_hash = hash };
    }
    else m

-- `maintainPeersStatus`.
unfoldable pub maintain_peers_status : (ℕ → List SyncPeerStatus) → ℕ → ℕ → Master → Master
maintain_peers_status order now current_number m =
    let best = highest m.status.peers_status (0, 0) in
    let known = know_highest current_number best m in
    if leb best.0 m.current_sealing_number
    then known
    else if ltb ((now + 2 ^ 64 - m.last_downloading_request_time) % 2 ^ 64)
        downloading_request_timeout
    then known
    else start_download order now current_number best.0 known
