-- ===== src/Pbft/Examples/Data.antt =====
-- A group of four miners at block 5, for the examples.
use lab_bcos.Base.{ℕ, ◌+◌, true, false, none, some, List, [], ◌∷◌}
use lab_bcos.Base.Tests.{◌==◌}
use lab_bcos.Base.Int.{pos, pos_part}
use lab_bcos.Pbft.Msg.{Header, Block, Msg, Signer}
use lab_bcos.Pbft.ReqCache.{ReqCache}
use lab_bcos.Pbft.Time.{TimeManager}
use lab_bcos.Pbft.Engine.{Engine, Env, AccountType, Packet, Body}

abbrev pub four_miners : List ℕ
four_miners = 11 ∷ 12 ∷ 13 ∷ 14 ∷ []

-- A signature is the sum of the hash and the key.
abbrev pub signer_of : ℕ → Signer
signer_of key = record {
  sign_hash = λ h. h + key;
  fields_without_block = λ height view idx timestamp. pos_part height + idx + timestamp;
  now = 100000;
}

abbrev pub world : Env
world = record {
  signer = signer_of 11;
  verify = λ node sig hash. sig == (hash + node);
  sessions = 12 ∷ 13 ∷ 14 ∷ [];
  is_connected = λ node. true;
  chain_number = pos 5;
  block_exists = λ hash. hash == 50;
  execute_block = λ b. some (b, 7);
  commit_block = λ b context. true;
  chain_miners = four_miners;
  tx_count_limit = λ number. 1000;
  saved_commit = none;
}

abbrev pub header_5 : Header
header_5 = record {
  number = pos 5;
  hash = 50;
  parent_hash = 40;
  timestamp = 900;
  sealer = 2;
  sealer_list = four_miners;
}

abbrev pub block_6 : Block
block_6 = record {
  header = record {
    number = pos 6;
    hash = 60;
    parent_hash = 50;
    timestamp = 950;
    sealer = 1;
    sealer_list = four_miners;
  };
  transactions = 901 ∷ 902 ∷ [];
  sig_list = (0, 71) ∷ (1, 72) ∷ (2, 73) ∷ [];
}

abbrev pub vote_6 : ℕ → ℕ → Msg
vote_6 idx sig = record {
  height = pos 6;
  view = pos 0;
  idx = idx;
  timestamp = 1;
  block_hash = 60;
  sig = sig;
  sig2 = 0;
}

-- Nodes 1 and 2 ask for view 3.
abbrev pub view_request : ℕ → Msg
view_request idx = record {
  height = pos 5;
  view = pos 3;
  idx = idx;
  timestamp = 1;
  block_hash = 50;
  sig = 50 + idx;
  sig2 = 0;
}

abbrev pub quiet_cache : ReqCache
quiet_cache = record {
  prepare_cache = record { msg = vote_6 1 0; block = some block_6; exec_context = some 7 };
  raw_prepare_cache = record {
    msg = record (vote_6 1 0) { block_hash = 59 };
    block = none;
    exec_context = none;
  };
  sign_cache = (60, (71, vote_6 0 71) ∷ (72, vote_6 1 72) ∷ (73, vote_6 2 73) ∷ []) ∷ [];
  recv_view_change = (pos 3, (1, view_request 1) ∷ (2, view_request 2) ∷ []) ∷ [];
  commit_cache = (60, (71, vote_6 0 71) ∷ (72, vote_6 1 72) ∷ (73, vote_6 2 73) ∷ []) ∷ [];
  committed_prepare_cache = record {
    msg = record (vote_6 1 0) { height = pos 4 };
    block = none;
    exec_context = none;
  };
  future_prepare_cache = record {
    msg = record (vote_6 1 0) { block_hash = 58 };
    block = none;
    exec_context = none;
  };
}

abbrev pub clock : TimeManager
clock = record {
  last_exec_finish_time = 0;
  view_timeout = 3000;
  change_cycle = 0;
  last_sign_time = 0;
  last_consensus_time = 0;
  interval_block_time = 1000;
  last_garbage_collection = 0;
}

-- The node with key 11, which has index 0. Block 6 is prepared and has its votes.
abbrev pub node_0 : Engine
node_0 = record {
  public_key = 11;
  view = pos 0;
  to_view = pos 1;
  connected_node = 3;
  cfg_err = false;
  leader_failed = false;
  omit_empty_block = true;
  empty_block_view_change = false;
  max_ttl = 2;
  consensus_number = pos 6;
  highest = header_5;
  node_num = 4;
  f = 1;
  account_type = AccountType.miner;
  idx = 0;
  miner_list = four_miners;
  allow_future_blocks = true;
  broadcast_cache = [];
  req_cache = quiet_cache;
  time = clock;
  msg_queue = [];
  out = [];
}

-- A request for view 3 from node 3.
abbrev pub packet_3 : Packet
packet_3 = record {
  node_idx = 3;
  node_id = 14;
  packet_id = 3;
  ttl = 2;
  body = Body.msg_body (record (view_request 3) { sig = 64; sig2 = 23 });
}
