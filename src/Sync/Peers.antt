-- ===== src/Sync/Peers.antt =====
-- libsync/SyncStatus.h and .cpp: what the node knows of its peers and of its own synchronisation.
use lab_bcos.Base.{ℕ, zero, suc, ◌+◌, ◌*◌, ◌/◌, ◌%◌, Bool, true, false, Option, List, [], ◌∷◌}
use lab_bcos.Base.Tests.{if◌then◌else◌}
use lab_bcos.Base.Lists.{length, get_or}
use lab_bcos.Base.Dict.{Dict, lookup, has, insert, erase}
use lab_bcos.Sync.Requests.{ReqQueue, no_requests}
use lab_bcos.Sync.Blocks.{BlockQueue, no_blocks}

-- `SyncPeerInfo`: what a peer says of itself.
pub record SyncPeerInfo : Type 0 where
  pub node_id : ℕ
  pub number : ℕ
  pub genesis_hash : ℕ
  pub latest_hash : ℕ

-- `SyncPeerStatus`.
pub record SyncPeerStatus : Type 0 where
  pub info : SyncPeerInfo
  pub req_queue : ReqQueue

unfoldable pub new_peer : SyncPeerInfo → SyncPeerStatus
new_peer info = record { info = info; req_queue = no_requests }

-- `SyncPeerStatus::update`.
unfoldable pub update : SyncPeerInfo → SyncPeerStatus → SyncPeerStatus
update info peer = record peer { info = info }

pub data SyncState : Type 0 where
  idle downloading : SyncState

-- `SyncMasterStatus`.
pub record SyncMasterStatus : Type 0 where
  pub genesis : ℕ
  pub known_highest_number : ℕ
  pub known_latest_hash : ℕ
  pub state : SyncState
  pub peers_status : Dict SyncPeerStatus
  pub bq : BlockQueue

unfoldable pub new_status : ℕ → SyncMasterStatus
new_status genesis = record {
  genesis = genesis;
  known_highest_number = 0;
  known_latest_hash = genesis;
  state = idle;
  peers_status = [];
  bq = no_blocks;
}

unfoldable pub has_peer : ℕ → SyncMasterStatus → Bool
has_peer id s = has id s.peers_status

unfoldable pub new_sync_peer_status : SyncPeerInfo → SyncMasterStatus → SyncMasterStatus × Bool
new_sync_peer_status info s =
    if has_peer info.node_id s
    then (s, false)
    else (record s { peers_status = insert info.node_id (new_peer info) s.peers_status }, true)

unfoldable pub delete_peer : ℕ → SyncMasterStatus → SyncMasterStatus
delete_peer id s = record s { peers_status = erase id s.peers_status }

unfoldable pub ids : Dict SyncPeerStatus → List ℕ
ids [] = []
ids ((id, peer) ∷ rest) = id ∷ ids rest

unfoldable pub peers : SyncMasterStatus → List ℕ
peers s = ids s.peers_status

unfoldable pub peer_status : ℕ → SyncMasterStatus → Option SyncPeerStatus
peer_status id s = lookup id s.peers_status

-- The peers that `randomSelection` may choose from.
unfoldable pub allowed_ids : (SyncPeerStatus → Bool) → Dict SyncPeerStatus → List ℕ
allowed_ids allow [] = []
allowed_ids allow ((id, peer) ∷ rest) =
    let others = allowed_ids allow rest in if allow peer then peer.info.node_id ∷ others else others

unfoldable pub remove_at : ℕ → List ℕ → List ℕ
remove_at n [] = []
remove_at zero (x ∷ xs) = xs
remove_at (suc n) (x ∷ xs) = x ∷ remove_at n xs

-- The loop that picks one allowed peer after another; `rand` gives the numbers that `rand()` returns.
unfoldable pub pick : (ℕ → ℕ) → ℕ → List ℕ → List ℕ
pick rand zero allowed = []
pick rand (suc n) [] = []
pick rand (suc n) (x ∷ xs) =
    let i = rand n % length (x ∷ xs) in get_or (x ∷ xs) i x ∷ pick rand n (remove_at i (x ∷ xs))

-- `randomSelection`.
unfoldable pub random_selection : (ℕ → ℕ) → ℕ → (SyncPeerStatus → Bool) → SyncMasterStatus → List ℕ
random_selection rand percent allow s =
    pick rand ((length s.peers_status * percent + 99) / 100) (allowed_ids allow s.peers_status)

-- `randomSelectionSize`.
unfoldable pub random_selection_size :
    (ℕ → ℕ) → ℕ → (SyncPeerStatus → Bool) → SyncMasterStatus → List ℕ
random_selection_size rand max_chosen_size allow s =
    pick rand max_chosen_size (allowed_ids allow s.peers_status)

abbrev pub begun : SyncState → SyncState
begun idle = downloading
begun downloading = downloading

abbrev pub finished : SyncState → SyncState
finished downloading = idle
finished idle = idle

-- `noteDownloadingBegin` and `noteDownloadingFinish` of `SyncMaster`.
unfoldable pub note_downloading_begin : SyncMasterStatus → SyncMasterStatus
note_downloading_begin s = record s { state = begun s.state }

unfoldable pub note_downloading_finish : SyncMasterStatus → SyncMasterStatus
note_downloading_finish s = record s { state = finished s.state }
