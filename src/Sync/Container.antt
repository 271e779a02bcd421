-- ===== src/Sync/Container.antt =====
-- libsync/SyncMsgEngine.cpp: `DownloadBlocksContainer`, which packs the blocks for one peer.
pub mod Bounds
use lab_bcos.Base.{ℕ, ◌+◌, ◌-◌, ◌*◌, List, [], ◌∷◌, ◌++◌}
use lab_bcos.Base.Tests.{ltb, if◌then◌else◌}
use lab_bcos.Sync.Blocks.{SyncBlock}

-- `c_maxPayload`: `P2PMessage::MAX_LENGTH` less 2048.
abbrev pub max_payload : ℕ
max_payload = 1024 * 1024 - 2048

-- The batch, and the packets that were sent, newest first.
pub record Container : Type 0 where
  pub block_rlps_batch : List SyncBlock
  pub current_batch_size : ℕ
  pub sent : List (List SyncBlock)

unfoldable pub new_container : Container
new_container = record { block_rlps_batch = []; current_batch_size = 0; sent = [] }

unfoldable pub send_batch : Container → List SyncBlock → Container
send_batch c [] = c
send_batch c (b ∷ bs) = record {
  block_rlps_batch = [];
  current_batch_size = 0;
  sent = (b ∷ bs) ∷ c.sent;
}

-- `clearBatchAndSend`, which is also what the destructor does.
unfoldable pub clear_batch_and_send : Container → Container
clear_batch_and_send c = send_batch c c.block_rlps_batch

unfoldable pub send_big_block : SyncBlock → Container → Container
send_big_block block c = record c { sent = (block ∷ []) ∷ c.sent }

unfoldable pub add_to_batch : SyncBlock → Container → Container
add_to_batch block c = record c {
  block_rlps_batch = c.block_rlps_batch ++ block ∷ [];
  current_batch_size = c.current_batch_size + block.rlp_size;
}

-- `batchAndSend`.
unfoldable pub batch_and_send : SyncBlock → Container → Container
batch_and_send block c =
    if ltb max_payload block.rlp_size
    then send_big_block block c
    else add_to_batch block (
        if ltb max_payload (c.current_batch_size + block.rlp_size)
        then clear_batch_and_send c
        else c)
