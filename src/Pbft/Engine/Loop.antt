-- ===== src/Pbft/Engine/Loop.antt =====
-- Messages in and out of the queue, time-outs, and one round of the work loop.
pub mod Queue
use lab_bcos.Base.{
  ℕ, ◌+◌, ◌-◌, ◌*◌, ◌%◌, ◌^◌, Bool, true, false, ◌&&◌, ◌||◌, not, Option, none, some, List, [], ◌∷◌,
  ◌++◌,
}
use lab_bcos.Base.Tests.{ltb, leb, ◌==◌, if◌then◌else◌}
use lab_bcos.Base.Int.{ℤ, pos, ◌-ℤ◌, ltz, eqz, inc64}
use lab_bcos.Pbft.Msg.{Block, Msg, PrepareReq, empty_msg, max_idx, unique_key}
use lab_bcos.Pbft.ReqCache.{collect_garbage, remove_invalid_view_change, reset_future_prepare}
use lab_bcos.Pbft.Time.{TimeManager, update_change_cycle, is_timeout, collect_interval}
use lab_bcos.Pbft.Engine.{
  Engine, Env, Effect, Body, Flow, Packet, emit, index_by_miner, miner_by_index,
}
use lab_bcos.Pbft.Engine.Send.{broadcast_msg}
use lab_bcos.Pbft.Engine.Commit.{sign_packet, commit_packet}
use lab_bcos.Pbft.Engine.Handle.{
  prepare_packet, view_change_packet, own_view_change, handle_prepare, handle_sign, handle_commit,
  handle_view_change, check_and_change_view,
}
use Effect.{notes_sealing, reports_view_change}
use Body.{prepare_body, msg_body, malformed}
use Flow.{returned, thrown}

-- `broadcastViewChangeReq`.
unfoldable pub broadcast_view_change : Env → Engine → Engine × Bool
broadcast_view_change env s =
    let req = own_view_change env s in
    broadcast_msg env (record s { empty_block_view_change = false }) view_change_packet
      (unique_key req) (msg_body req) [] 0

-- `checkTimeout` up to the broadcast: the next view is asked for.
unfoldable pub ask_next_view : Env → Engine → Engine
ask_next_view env s =
    let next = inc64 s.to_view in
    emit (notes_sealing env.chain_number) (record s {
      to_view = next;
      leader_failed = true;
      time = record (update_change_cycle s.time) { last_consensus_time = env.signer.now };
      req_cache = remove_invalid_view_change s.req_cache next s.highest;
    })

-- `checkTimeout`. The broadcast always succeeds; the call-back counts as registered.
unfoldable pub check_timeout : Env → Engine → Engine
check_timeout env s =
    if is_timeout s.time env.signer.now
    then emit reports_view_change
        (check_and_change_view env (broadcast_view_change env (ask_next_view env s)).0)
    else s

-- Decoding a `PrepareReq`: the execution context does not travel.
abbrev pub received : PrepareReq → PrepareReq
received p = record p { exec_context = none }

-- The `switch` of `handleMsg` for each kind of packet: the state, the request as far as it was
-- decoded, and whether an exception left the handler. The bytes of a `PrepareReq` begin with those
-- of a `PBFTMsg`, so they decode as one.
unfoldable pub on_prepare_packet : Env → Engine → Body → Engine × Msg × Flow
on_prepare_packet env s (prepare_body p) =
    let (t, flow) = handle_prepare env s (received p) in (t, p.msg, flow)
on_prepare_packet env s (msg_body m) = (s, m, returned)
on_prepare_packet env s (malformed m) = (s, m, returned)

abbrev pub body_msg : Body → Option Msg
body_msg (prepare_body p) = some p.msg
body_msg (msg_body m) = some m
body_msg (malformed m) = none

abbrev pub decoded_part : Body → Msg
decoded_part (prepare_body p) = p.msg
decoded_part (msg_body m) = m
decoded_part (malformed m) = m

unfoldable pub on_msg_packet : (Engine → Msg → Engine × Flow) → Engine → Body → Engine × Msg × Flow
on_msg_packet handler s body = elim (body_msg body) [
  | none ↦ (s, decoded_part body, returned)
  | some m ↦ (let (t, flow) = handler s m in (t, m, flow))
]

-- The `switch`; `none` is its default case, which returns.
unfoldable pub dispatch : Env → Engine → Packet → Option (Engine × Msg × Flow)
dispatch env s p =
    if p.packet_id == prepare_packet
    then some (on_prepare_packet env s p.body)
    else if p.packet_id == sign_packet
    then some (on_msg_packet (handle_sign env) s p.body)
    else if p.packet_id == commit_packet
    then some (on_msg_packet (handle_commit env) s p.body)
    else if p.packet_id == view_change_packet
    then some (on_msg_packet (λ t m. handle_view_change env t m p.node_idx) s p.body)
    else none

-- The `height_flag` of `handleMsg`.
unfoldable pub is_recent : Engine → Msg → Bool
is_recent s req = ltz s.highest.number req.height || ltz (s.highest.number -ℤ req.height) (pos 10)

-- `unsigned current_ttl = pbftMsg.ttl - 1` wraps.
unfoldable pub next_ttl : ℕ → ℕ
next_ttl ttl = (ttl + 2 ^ 32 - 1) % 2 ^ 32

-- The end of `handleMsg`: a recent request goes on to the other miners, with one hop less to go.
unfoldable pub forward : Env → Engine → Packet → Msg → Engine
forward env s p req =
    let origin = miner_by_index s req.idx in
    let filter = if origin == 0 then p.node_id ∷ [] else p.node_id ∷ origin ∷ [] in
    if p.ttl == 1
    then s
    else if is_recent s req
    then (broadcast_msg env s p.packet_id (unique_key req) p.body filter (next_ttl p.ttl)).0
    else s

unfoldable pub after_dispatch : Env → Engine → Packet → Option (Engine × Msg × Flow) → Engine × Flow
after_dispatch env s p none = (s, returned)
after_dispatch env s p (some (t, req, returned)) = (forward env t p req, returned)
after_dispatch env s p (some (t, req, thrown)) = (t, thrown)

-- `handleMsg`.
unfoldable pub handle_msg : Env → Engine → Packet → Engine × Flow
handle_msg env s p = after_dispatch env s p (dispatch env s p)

-- `isValidReq`: the sender's index, where a message of `size` bytes from the node is let in.
unfoldable pub valid_sender : Engine → ℕ → ℕ → Option ℕ
valid_sender s node size =
    let self = miner_by_index s s.idx in
    if size == 0 || (self == 0 || node == self) then none else index_by_miner s.miner_list node

-- A packet of one of the four kinds joins the queue.
unfoldable pub enqueue : Engine → ℕ → Option ℕ → Option (ℕ × ℕ × Body) → Engine
enqueue s node none decoded = s
enqueue s node (some i) none = s
enqueue s node (some i) (some (id, ttl, body)) =
    let p : Packet = record {
      node_idx = i % 2 ^ 16;
      node_id = node;
      packet_id = id;
      ttl = ttl;
      body = body;
    } in
    if leb id view_change_packet then record s { msg_queue = s.msg_queue ++ p ∷ [] } else s

-- `onRecvPBFTMessage`, for a message of `size` bytes that decodes to a packet's id, hops and body.
unfoldable pub on_recv : Engine → ℕ → ℕ → Option (ℕ × ℕ × Body) → Engine
on_recv s node size decoded =
    if s.idx == max_idx then s else enqueue s node (valid_sender s node size) decoded

unfoldable pub after_future : Engine × Flow → Engine × Flow
after_future (s, returned) = (record s { req_cache = reset_future_prepare s.req_cache }, returned)
after_future (s, thrown) = (s, thrown)

-- `handleFutureBlock`.
unfoldable pub handle_future_block : Env → Engine → Engine × Flow
handle_future_block env s =
    let req = s.req_cache.future_prepare_cache in
    if eqz req.height s.consensus_number && eqz req.view s.view
    then after_future (handle_prepare env s req)
    else (s, returned)

-- `collectGarbage`, with times in milliseconds.
unfoldable pub collect : Env → Engine → Engine
collect env s =
    if not (s.highest.timestamp == 2 ^ 64 - 1)
      && ltb (collect_interval * 1000) (env.signer.now - s.time.last_garbage_collection)
    then record s {
      req_cache = collect_garbage s.req_cache s.highest;
      time = record s.time { last_garbage_collection = env.signer.now };
    }
    else s

unfoldable pub collect_after : Env → Engine × Flow → Engine
collect_after env (s, returned) = collect env s
collect_after env (s, thrown) = s

-- The rest of a round of `workLoop` after the message: an exception ends the round.
unfoldable pub finish_round : Env → Engine × Flow → Engine
finish_round env (s, thrown) = s
finish_round env (s, returned) = collect_after env (handle_future_block env (check_timeout env s))

-- `tryPop` and `handleMsg`.
unfoldable pub pop_and_handle : Env → Engine → List Packet → Engine × Flow
pop_and_handle env s [] = (s, returned)
pop_and_handle env s (p ∷ rest) = handle_msg env (record s { msg_queue = rest }) p

-- One round of `workLoop`: `env` answers during the message, `later` during the rest.
unfoldable pub work_round : Env → Env → Engine → Engine
work_round env later s = finish_round later (pop_and_handle env s s.msg_queue)
