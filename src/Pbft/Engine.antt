-- ===== src/Pbft/Engine.antt =====
-- The state of `PBFTEngine` and of its base class, what it reads of the other modules, and what it
-- does to them. A handler takes the state and an `Env`, which holds the answers of the network, the
-- chain, the block verifier, the cryptography and the clock during the call, and returns the new
-- state; its calls of other modules are appended to `out`, the newest first.
pub mod Send
pub mod Check
pub mod Config
pub mod Commit
pub mod Handle
pub mod Loop
pub mod Frame
pub mod Safety
pub mod Views
pub mod Rounds
pub mod Report
pub mod Votes
pub mod Proposal
pub mod Blocks
pub mod Miners
use lab_bcos.Base.{
  ℕ, ◌+◌, ◌-◌, ◌/◌, ◌%◌, ◌^◌, Bool, true, false, ◌||◌, Option, none, some, List, [], ◌∷◌,
}
use lab_bcos.Base.Tests.{◌==◌, if◌then◌else◌}
use lab_bcos.Base.Lists.{get_or}
use lab_bcos.Base.Int.{ℤ, ◌+ℤ◌, rem, to_u16}
use lab_bcos.Broadcast.{BroadcastCache}
use lab_bcos.Pbft.Msg.{Header, Block, Msg, PrepareReq, Signer, max_idx, invalid256}
use lab_bcos.Pbft.ReqCache.{ReqCache}
use lab_bcos.Pbft.Time.{TimeManager}

pub data AccountType : Type 0 where
  observer miner : AccountType

-- The bytes of a packet, by what they decode to. A failed decoding leaves the fields that were read
-- before the failure in the request, and the defaults in the others.
pub data Body : Type 0 where
  prepare_body : PrepareReq → Body
  msg_body : Msg → Body
  malformed : Msg → Body

-- `PBFTMsgPacket`, without the time of its arrival and the endpoint's name.
pub record Packet : Type 0 where
  pub node_idx : ℕ
  pub node_id : ℕ
  pub packet_id : ℕ
  pub ttl : ℕ
  pub body : Body

-- A call of another module.
pub data Effect : Type 0 where
  sends : (node type ttl : ℕ) → Body → Effect
  notes_sealing : ℤ → Effect
  backs_up : PrepareReq → Effect
  commits : Block → Option ℕ → Effect
  drops_transactions : Block → Effect
  reports_bad_block : Block → Effect
  signals : Effect
  reports_view_change : Effect

-- The answers of the modules that the engine calls, at the time of a call.
pub record Env : Type 0 where
  pub signer : Signer
  pub verify : ℕ → ℕ → ℕ → Bool
  pub sessions : List ℕ
  pub is_connected : ℕ → Bool
  pub chain_number : ℤ
  pub block_exists : ℕ → Bool
  pub execute_block : Block → Option (Block × ℕ)
  pub commit_block : Block → Option ℕ → Bool
  pub chain_miners : List ℕ
  pub tx_count_limit : ℤ → ℕ
  pub saved_commit : Option PrepareReq

pub record Engine : Type 0 where
  pub public_key : ℕ
  pub view : ℤ
  pub to_view : ℤ
  pub connected_node : ℕ
  pub cfg_err : Bool
  pub leader_failed : Bool
  pub omit_empty_block : Bool
  pub empty_block_view_change : Bool
  pub max_ttl : ℕ
  pub consensus_number : ℤ
  pub highest : Header
  pub node_num : ℕ
  pub f : ℕ
  pub account_type : AccountType
  pub idx : ℕ
  pub miner_list : List ℕ
  pub allow_future_blocks : Bool
  pub broadcast_cache : BroadcastCache
  pub req_cache : ReqCache
  pub time : TimeManager
  pub msg_queue : List Packet
  pub out : List Effect

-- Did a function return, or did an exception leave it?
pub data Flow : Type 0 where
  returned thrown : Flow

unfoldable pub emit : Effect → Engine → Engine
emit e s = record s { out = e ∷ s.out }

abbrev pub next_index : Option ℕ → Option ℕ
next_index none = none
next_index (some i) = some (i + 1)

-- `getIndexByMiner`; the source's -1 is `none`.
unfoldable pub index_by_miner : List ℕ → ℕ → Option ℕ
index_by_miner [] node = none
index_by_miner (x ∷ xs) node = if x == node then some 0 else next_index (index_by_miner xs node)

-- `getMinerByIndex`: `h512()`, which is 0, beyond the end.
unfoldable pub miner_by_index : Engine → ℕ → ℕ
miner_by_index s i = get_or s.miner_list i 0

-- `minValidNodes`.
unfoldable pub min_valid_nodes : Engine → ℕ
min_valid_nodes s = (s.node_num + 2 ^ 16 - s.f) % 2 ^ 16

-- `getLeader`.
unfoldable pub get_leader : Engine → Bool × ℕ
get_leader s =
    if s.cfg_err || (s.leader_failed || s.highest.sealer == invalid256)
    then (false, max_idx)
    else (true, to_u16 (rem (s.view +ℤ s.highest.number) s.node_num))
