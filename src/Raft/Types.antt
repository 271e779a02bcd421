-- ===== src/Raft/Types.antt =====
-- libconsensus/raft/Common.h, and the state of `RaftEngine` with what it reads of its base class.
-- Node ids, hashes and times (in milliseconds) are numbers, and bytes are what they decode to.
use lab_bcos.Base.{ℕ, ◌-◌, ◌+◌, ◌^◌, Bool, not, Option, List, [], ◌∷◌}
use lab_bcos.Base.Tests.{◌==◌}
use lab_bcos.Base.Int.{ℤ, pos, negsuc}
use lab_bcos.Base.Dict.{Dict}
use lab_bcos.Pbft.Msg.{Header, Block}

-- `raft::NodeIndex(-1)`, which is also `Invalid256`.
abbrev pub invalid_index : ℕ
invalid_index = 2 ^ 256 - 1

-- `RaftRole`.
pub data Role : Type 0 where
  leader follower candidate : Role

-- `VoteRespFlag`; `unknown` is any other byte.
pub data VoteFlag : Type 0 where
  reject leader_reject last_term_error outdated first_vote discard granted unknown : VoteFlag

-- The bytes of a block in a heartbeat.
pub data BlockBytes : Type 0 where
  no_bytes : BlockBytes
  encoded : Block → BlockBytes
  garbage : BlockBytes

-- `RaftMsg`.
pub record RaftMsg : Type 0 where
  pub idx : ℕ
  pub term : ℕ
  pub height : ℤ
  pub block_hash : ℕ

pub record VoteReq : Type 0 where
  pub msg : RaftMsg
  pub open msg use *
  pub candidate : ℕ
  pub last_leader_term : ℕ
  pub last_block_number : ℤ

pub record VoteResp : Type 0 where
  pub msg : RaftMsg
  pub open msg use *
  pub vote_flag : VoteFlag
  pub last_leader_term : ℕ

pub record Heartbeat : Type 0 where
  pub msg : RaftMsg
  pub open msg use *
  pub leader : ℕ
  pub uncommitted_block : BlockBytes
  pub uncommitted_number : ℤ

pub record HeartbeatResp : Type 0 where
  pub msg : RaftMsg
  pub open msg use *
  pub uncommitted_hash : ℕ

-- A packet's data by its type; `none` where `populate` throws.
pub data Payload : Type 0 where
  vote_req : Option VoteReq → Payload
  vote_resp : Option VoteResp → Payload
  heartbeat : Option Heartbeat → Payload
  heartbeat_resp : Option HeartbeatResp → Payload

-- `RaftMsgPacket`, without the time of its arrival and the endpoint's name.
pub record Packet : Type 0 where
  pub node_idx : ℕ
  pub node_id : ℕ
  pub payload : Payload

-- `VoteState`.
pub record VoteState : Type 0 where
  pub vote : ℕ
  pub un_vote : ℕ
  pub last_term_err : ℕ
  pub first_vote : ℕ
  pub discarded_vote : ℕ
  pub outdated : ℕ

unfoldable pub no_votes : VoteState
no_votes = record {
  vote = 0;
  un_vote = 0;
  last_term_err = 0;
  first_vote = 0;
  discarded_vote = 0;
  outdated = 0;
}

-- `totalVoteCount`.
unfoldable pub total_vote_count : VoteState → ℕ
total_vote_count v =
    v.vote + v.un_vote + v.last_term_err + v.first_vote + v.discarded_vote + v.outdated

-- The conversion of an `int64_t` to `u256`.
unfoldable pub to_u256 : ℤ → ℕ
to_u256 (pos n) = n
to_u256 (negsuc n) = 2 ^ 256 - 1 - n

-- `BlockRef`.
pub record BlockRef : Type 0 where
  pub height : ℕ
  pub block_hash : ℕ

-- A call of another module.
pub data Effect : Type 0 where
  sends : (node : ℕ) → Payload → Effect
  notes_sealing : ℤ → Effect
  commits : Block → ℕ → Effect
  drops_transactions : Block → Effect
  reports_bad_block : Block → Effect

-- A row of the table `_sys_miners_`: whether its type is "miner" or "observer", and its other
-- fields as far as their texts convert.
pub record MinerRow : Type 0 where
  pub is_miner : Bool
  pub is_observer : Bool
  pub enable_num : Option ℤ
  pub node_id : Option ℕ

-- The answers of the other modules at the time of a call: the clock, `std::rand`, the sessions, the
-- chain and its head (before and after a call of `commitBlock`), the table of miners (`none` where
-- it cannot be read, and a row that is null likewise), the verifier (`none` where it throws) and
-- the result of `commitBlock`.
pub record World : Type 0 where
  pub now : ℕ
  pub rand : ℕ
  pub sessions : List ℕ
  pub chain_number : ℤ
  pub chain_head : Header
  pub committed_number : ℤ
  pub committed_head : Header
  pub block_exists : ℕ → Bool
  pub miner_rows : Option (List (Option MinerRow))
  pub execute_block : Block → Option (Block × ℕ)
  pub commit_block : Block → ℕ → Bool

-- `Block()`: its header carries the time stamp that `operator bool` takes for absent.
unfoldable pub no_block : Block
no_block = record {
  header = record {
    number = pos 0;
    hash = 0;
    parent_hash = 0;
    timestamp = 2 ^ 64 - 1;
    sealer = invalid_index;
    sealer_list = [];
  };
  transactions = [];
  sig_list = [];
}

unfoldable pub is_block : Block → Bool
is_block b = not (b.header.timestamp == (2 ^ 64 - 1))

-- `RaftEngine`. `elect_min` to `elect_max_boundary` are the source's `m_minElectTimeout` to
-- `m_maxElectTimeoutBoundary`; `out` lists the calls of other modules, the newest first.
pub record Engine : Type 0 where
  pub public_key : ℕ
  pub is_miner : Bool
  pub cfg_err : Bool
  pub miner_list : List ℕ
  pub last_obtain_miner_num : ℤ
  pub node_num : ℕ
  pub f : ℕ
  pub idx : ℕ
  pub highest : Header
  pub consensus_number : ℤ
  pub allow_future_blocks : Bool
  pub role : Role
  pub term : ℕ
  pub last_leader_term : ℕ
  pub leader : ℕ
  pub vote : ℕ
  pub first_vote : ℕ
  pub heartbeat_count : ℕ
  pub member_block : Dict BlockRef
  pub elect_timeout : ℕ
  pub elect_min : ℕ
  pub elect_max : ℕ
  pub elect_min_init : ℕ
  pub elect_max_init : ℕ
  pub elect_min_boundary : ℕ
  pub elect_max_boundary : ℕ
  pub increase_time : ℕ
  pub last_elect_time : ℕ
  pub heartbeat_timeout : ℕ
  pub heartbeat_interval : ℕ
  pub last_heartbeat_time : ℕ
  pub last_heartbeat_reset : ℕ
  pub last_block_time : ℕ
  pub uncommitted : Block
  pub uncommitted_number : ℤ
  pub commit_ready : Bool
  pub waiting : Bool
  pub finger_print : Dict (List ℕ)
  pub msg_queue : List Packet
  pub out : List Effect

-- How a call ends: it returns, an exception leaves it, or it waits for a mutex that its own thread
-- holds.
pub data Flow : Type 0 where
  returned thrown deadlocked : Flow

unfoldable pub emit : Effect → Engine → Engine
emit e s = record s { out = e ∷ s.out }

-- `isMajorityVote` and `wonElection`.
unfoldable pub quorum : Engine → ℕ
quorum s = s.node_num - s.f
