-- ===== src/Raft/Send.antt =====
-- The messages that `RaftEngine` sends.
pub mod Frame
use lab_bcos.Base.{ℕ, ◌+◌, ◌%◌, ◌^◌, Bool, true, false, ◌&&◌, some, List, [], ◌∷◌}
use lab_bcos.Base.Tests.{leb, ◌==◌, if◌then◌else◌}
use lab_bcos.Base.Lists.{contains}
use lab_bcos.Base.Dict.{is_some}
use lab_bcos.Base.Int.{ℤ, pos, inc64}
use lab_bcos.Raft.Types.{
  Engine, World, Effect, Payload, BlockBytes, RaftMsg, VoteReq, Heartbeat, emit, is_block,
  invalid_index,
}
use lab_bcos.Raft.Config.{get_index_by_miner}
use Effect.{sends}
use Payload.{vote_req, heartbeat}
use BlockBytes.{no_bytes, encoded}

-- The fields that every message starts with.
unfoldable pub own_msg : Engine → RaftMsg
own_msg s = record {
  idx = s.idx;
  term = s.term;
  height = s.highest.number;
  block_hash = s.highest.hash;
}

-- The loop of `broadcastMsg`: a session of a node that is no miner is passed over.
unfoldable pub broadcast_loop : Payload → List ℕ → Engine → Engine
broadcast_loop payload [] s = s
broadcast_loop payload (node ∷ rest) s =
    broadcast_loop payload rest
      (if is_some (get_index_by_miner s node) then emit (sends node payload) s else s)

unfoldable pub broadcast_msg : World → Payload → Engine → Engine
broadcast_msg w payload s = broadcast_loop payload w.sessions s

-- `sendResponse`: a node has one session at most.
unfoldable pub send_response : World → ℕ → Payload → Engine → Engine
send_response w node payload s =
    if contains w.sessions node && is_some (get_index_by_miner s node)
    then emit (sends node payload) s
    else s

-- The chain's height, with the block that waits for its commit counted in.
unfoldable pub last_number : World → Engine → ℤ
last_number w s = if is_block s.uncommitted then inc64 w.chain_number else w.chain_number

-- `generateVoteReq` and `broadcastVoteReq`.
unfoldable pub generate_vote_req : World → Engine → VoteReq
generate_vote_req w s = record {
  msg = own_msg s;
  candidate = s.idx;
  last_leader_term = s.last_leader_term;
  last_block_number = last_number w s;
}

unfoldable pub broadcast_vote_req : World → Engine → Engine
broadcast_vote_req w s = broadcast_msg w (vote_req (some (generate_vote_req w s))) s

-- `generateHeartbeat`.
unfoldable pub generate_heartbeat : Engine → Heartbeat
generate_heartbeat s = record {
  msg = own_msg s;
  leader = s.idx;
  uncommitted_block = if is_block s.uncommitted then encoded s.uncommitted else no_bytes;
  uncommitted_number = if is_block s.uncommitted then s.consensus_number else pos 0;
}

-- `clearFirstVoteCache`; the limit is `2 * s_heartBeatIntervalRatio`.
unfoldable pub clear_first_vote_cache : Engine → Engine
clear_first_vote_cache s =
    let count = (s.heartbeat_count + 1) % 2 ^ 32 in
    if s.first_vote == invalid_index
    then s
    else if leb 8 count
    then record s { heartbeat_count = 0; first_vote = invalid_index }
    else record s { heartbeat_count = count }

-- `broadcastHeartbeat`.
unfoldable pub broadcast_heartbeat : World → Engine → Engine
broadcast_heartbeat w s =
    let t = record s { last_heartbeat_time = w.now } in
    if leb (s.last_heartbeat_time + s.heartbeat_interval) w.now
    then clear_first_vote_cache (broadcast_msg w (heartbeat (some (generate_heartbeat t))) t)
    else s
