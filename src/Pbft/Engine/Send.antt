-- ===== src/Pbft/Engine/Send.antt =====
-- Sending: `broadcastMsg`, `sendMsg` and `transDataToMessage` of `PBFTEngine`.
use lab_bcos.Base.{ℕ, ◌%◌, ◌^◌, Bool, true, false, none, some, List, [], ◌∷◌}
use lab_bcos.Base.Tests.{◌==◌, if◌then◌else◌}
use lab_bcos.Base.Lists.{length, contains}
use lab_bcos.Broadcast.{broadcast_mark, key_exists}
use lab_bcos.Pbft.Engine.{Engine, Env, Effect, Body, emit, index_by_miner}
use Effect.{sends}

-- `packet.ttl = ttl == 0 ? maxTTL : ttl`, into a `uint8_t`.
unfoldable pub packet_ttl : Engine → ℕ → ℕ
packet_ttl s ttl = if ttl == 0 then s.max_ttl else ttl % 2 ^ 8

-- `broadcastMark` on the engine.
unfoldable pub mark : Engine → ℕ → ℕ → ℕ → Engine
mark s node type key = record s { broadcast_cache = broadcast_mark s.broadcast_cache node type key }

-- The message goes out to a node and is marked.
unfoldable pub send_to : Engine → ℕ → ℕ → ℕ → Body → ℕ → Engine
send_to s node type key body ttl =
    mark (emit (sends node type (packet_ttl s ttl) body) s) node type key

-- The loop of `broadcastMsg`, at one session of a miner.
unfoldable pub broadcast_one : Engine → ℕ → ℕ → ℕ → Body → List ℕ → ℕ → Engine
broadcast_one s node type key body filter ttl =
    if contains filter node
    then mark s node type key
    else if key_exists s.broadcast_cache node type key
    then s
    else send_to s node type key body ttl

-- One turn of the loop: a peer that is not a miner is passed over.
unfoldable pub broadcast_session : Engine → ℕ → ℕ → ℕ → Body → List ℕ → ℕ → Engine
broadcast_session s node type key body filter ttl = elim (index_by_miner s.miner_list node) [
  | none ↦ s
  | some i ↦ broadcast_one s node type key body filter ttl
]

unfoldable pub broadcast_loop : Engine → List ℕ → ℕ → ℕ → Body → List ℕ → ℕ → Engine
broadcast_loop s [] type key body filter ttl = s
broadcast_loop s (node ∷ rest) type key body filter ttl =
    broadcast_loop (broadcast_session s node type key body filter ttl) rest type key body filter ttl

-- `broadcastMsg`, whose result is always `true`.
unfoldable pub broadcast_msg : Env → Engine → ℕ → ℕ → Body → List ℕ → ℕ → Engine × Bool
broadcast_msg env s type key body filter ttl =
    let counted = record s { connected_node = length env.sessions % 2 ^ 16 } in
    (broadcast_loop counted env.sessions type key body filter ttl, true)

-- The last part of `sendMsg`: the node's session, if there is one.
unfoldable pub send_session : Env → Engine → ℕ → ℕ → ℕ → Body → ℕ → Engine × Bool
send_session env s node type key body ttl =
    if contains env.sessions node then (send_to s node type key body ttl, true) else (s, false)

-- `sendMsg`.
unfoldable pub send_msg : Env → Engine → ℕ → ℕ → ℕ → Body → ℕ → Engine × Bool
send_msg env s node type key body ttl = elim (index_by_miner s.miner_list node) [
  | none ↦ (s, true)
  | some i ↦
      if key_exists s.broadcast_cache node type key
      then (s, true)
      else send_session env s node type key body ttl
]
