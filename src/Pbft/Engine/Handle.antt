-- ===== src/Pbft/Engine/Handle.antt =====
-- The handlers of the four kinds of requests, and the entry points of the sealer.
use lab_bcos.Base.{ℕ, ◌-◌, ◌%◌, ◌^◌, Bool, true, false, ◌&&◌, ◌||◌, not, Option, none, some, []}
use lab_bcos.Base.Tests.{leb, ◌==◌, if◌then◌else◌}
use lab_bcos.Base.Lists.{length}
use lab_bcos.Base.Int.{ltz, eqz, inc64, dec64}
use lab_bcos.Broadcast
use lab_bcos.Pbft.Msg.{
  Block, Msg, PrepareReq, signed_msg, prepare_block, prepare_again, prepare_executed, unique_key,
}
use lab_bcos.Pbft.ReqCache.{
  is_exist_view_change, view_change_size, add_raw_prepare, add_prepare_req, add_sign_req,
  add_commit_req, add_view_change_req, trigger_view_change,
}
use lab_bcos.Pbft.ViewScan.{can_trigger_view_change}
use lab_bcos.Pbft.Time.{change_view}
use lab_bcos.Pbft.Engine.{
  Engine, Env, Effect, Body, Flow, AccountType, emit, miner_by_index, min_valid_nodes, get_leader,
}
use lab_bcos.Pbft.Engine.Send.{broadcast_msg, send_msg}
use lab_bcos.Pbft.Engine.Check.{
  is_valid_prepare, is_valid_sign_req, is_valid_commit_req, view_change_tests, check_block_valid,
}
use lab_bcos.Pbft.Engine.Commit.{broadcast_sign_req, check_and_commit, check_and_save}
use Effect.{notes_sealing, signals}
use Body.{prepare_body, msg_body}
use Flow.{returned, thrown}
use AccountType.{miner, observer}

abbrev pub prepare_packet : ℕ
prepare_packet = 0

abbrev pub view_change_packet : ℕ
view_change_packet = 3

unfoldable pub finish_exec : Env → Engine → Option (Block × ℕ) → Engine × Option (Block × ℕ)
finish_exec env s none = (s, none)
finish_exec env s (some executed) =
    (record s { time = record s.time { last_exec_finish_time = env.signer.now } }, some executed)

-- `execBlock`: the block as executed with its context, or `none` where an exception leaves it.
unfoldable pub exec_block : Env → Engine → PrepareReq → Engine × Option (Block × ℕ)
exec_block env s req = elim req.block [
  | none ↦ (s, none)
  | some b ↦
      if check_block_valid env s b
      then finish_exec env (emit (notes_sealing b.header.number) s) (env.execute_block b)
      else (s, none)
]

-- `needOmit`.
unfoldable pub need_omit : Engine → Block → Bool
need_omit s b = length b.transactions == 0 && s.omit_empty_block

-- What an empty block leads to in place of a vote.
unfoldable pub omit_block : Engine → Engine
omit_block s = emit signals (record s {
  time = record (change_view s.time) { change_cycle = 0 };
  empty_block_view_change = true;
})

-- The rest of `handlePrepareMsg` once the block is executed.
unfoldable pub vote_on : Env → Engine → PrepareReq → Block → ℕ → Engine × Flow
vote_on env s req b context =
    let p = prepare_executed env.signer req b context in
    let t = record s { req_cache = add_prepare_req s.req_cache p } in
    check_and_commit env (broadcast_sign_req env t p).0

unfoldable pub act_on : Env → Engine → PrepareReq → Option (Block × ℕ) → Engine × Flow
act_on env s req none = (s, returned)
act_on env s req (some (b, context)) =
    if need_omit s b then (omit_block s, returned) else vote_on env s req b context

-- `handlePrepareMsg` on a valid request that stands in the raw cache: execute, then vote.
unfoldable pub run_prepare : Env → Engine → PrepareReq → Engine × Flow
run_prepare env s req = let (t, executed) = exec_block env s req in act_on env t req executed

-- `handlePrepareMsg`, on a decoded request.
unfoldable pub handle_prepare : Env → Engine → PrepareReq → Engine × Flow
handle_prepare env s req =
    let (checked, is_valid) = is_valid_prepare env s req in
    if is_valid
    then run_prepare env (record s { req_cache = add_raw_prepare s.req_cache req }) req
    else (checked, returned)

-- `handleSignMsg` and `handleCommitMsg`, on a decoded request.
unfoldable pub handle_sign : Env → Engine → Msg → Engine × Flow
handle_sign env s req =
    let (checked, is_valid) = is_valid_sign_req env s req in
    if is_valid
    then check_and_commit env (record s { req_cache = add_sign_req s.req_cache req })
    else (checked, returned)

unfoldable pub handle_commit : Env → Engine → Msg → Engine × Flow
handle_commit env s req =
    let (checked, is_valid) = is_valid_commit_req env s req in
    if is_valid
    then check_and_save env (record s { req_cache = add_commit_req s.req_cache req })
    else (checked, returned)

-- The node's own view change request.
unfoldable pub own_view_change : Env → Engine → Msg
own_view_change env s = signed_msg env.signer s.highest.number s.to_view s.idx s.highest.hash

-- `sendViewChangeMsg`.
unfoldable pub send_view_change_msg : Env → Engine → ℕ → Engine
send_view_change_msg env s node =
    let req = own_view_change env s in
    (send_msg env s node view_change_packet (unique_key req) (msg_body req) 1).0

-- `catchupView`: a miner that is behind is sent the node's own request.
unfoldable pub catchup_view : Env → Engine → Msg → Engine
catchup_view env s req =
    let node = miner_by_index s req.idx in
    if ltz (inc64 req.view) s.to_view && not (node == 0) then send_view_change_msg env s node else s

-- `isValidViewChangeReq`.
unfoldable pub is_valid_view_change_req : Env → Engine → Msg → ℕ → Engine × Bool
is_valid_view_change_req env s req source =
    if is_exist_view_change s.req_cache req
    then (s, false)
    else if req.idx == s.idx
    then (s, false)
    else (
      if ltz (inc64 req.view) s.to_view && req.idx == source then catchup_view env s req else s,
      view_change_tests env s req,
    )

-- `checkAndChangeView`.
unfoldable pub check_and_change_view : Env → Engine → Engine
check_and_change_view env s =
    if leb (min_valid_nodes s - 1) (view_change_size s.req_cache s.to_view % 2 ^ 16)
    then emit (notes_sealing env.chain_number) (record s {
      leader_failed = false;
      time = record s.time { last_consensus_time = env.signer.now };
      view = s.to_view;
      req_cache = trigger_view_change s.req_cache s.to_view;
    })
    else s

-- The fast view change of `handleViewChangeMsg`.
unfoldable pub try_fast_view_change : Engine → Engine
try_fast_view_change s =
    let (min_view, should_trigger) =
      can_trigger_view_change s.req_cache s.f s.to_view s.highest s.consensus_number in
    if should_trigger
    then emit signals (record s { time = change_view s.time; to_view = dec64 min_view })
    else s

-- `handleViewChangeMsg`, on a decoded request.
unfoldable pub handle_view_change : Env → Engine → Msg → ℕ → Engine × Flow
handle_view_change env s req source =
    let (checked, is_valid) = is_valid_view_change_req env s req source in
    let added = record checked { req_cache = add_view_change_req checked.req_cache req } in
    (
      if is_valid
          then (if eqz req.view added.to_view
              then check_and_change_view env added
              else try_fast_view_change added)
          else checked,
      returned,
    )

-- `generatePrepare`, for the sealer's block.
unfoldable pub generate_prepare : Env → Engine → Block → Engine × Flow
generate_prepare env s b =
    let req = prepare_block env.signer b s.view s.idx in
    let t = (broadcast_msg env s prepare_packet (unique_key req.msg) (prepare_body req) [] 0).0 in
    handle_prepare env (if need_omit t b then record (omit_block t) { leader_failed = true } else t)
      req

unfoldable pub after_rehandle : Env → Engine → Flow → Engine
after_rehandle env s returned = emit (notes_sealing env.chain_number) s
after_rehandle env s thrown = s

-- `rehandleCommitedPrepareCache`.
unfoldable pub rehandle_committed : Env → Engine → PrepareReq → Engine × Flow
rehandle_committed env s saved =
    let req = prepare_again env.signer saved s.view s.idx in
    let t = record s { broadcast_cache = Broadcast.clear_all s.broadcast_cache } in
    let u = (broadcast_msg env t prepare_packet (unique_key req.msg) (prepare_body req) [] 0).0 in
    let (w, flow) = handle_prepare env u req in (after_rehandle env w flow, flow)

abbrev pub is_miner : AccountType → Bool
is_miner miner = true
is_miner observer = false

-- The leader is another node: a view change is sped up where it is not connected.
unfoldable pub watch_leader : Env → Engine → ℕ → Engine
watch_leader env s leader =
    let node = miner_by_index s leader in
    if not (node == 0) && not (env.is_connected node)
    then emit signals (record s { time = change_view s.time })
    else s

-- `shouldSeal`. An exception counts as `false`.
unfoldable pub should_seal : Env → Engine → Engine × Bool
should_seal env s =
    let (found, leader) = get_leader s in
    let committed = s.req_cache.committed_prepare_cache in
    if s.cfg_err || not (is_miner s.account_type)
    then (s, false)
    else if not found
    then (s, false)
    else if not (leader == s.idx)
    then (watch_leader env s leader, false)
    else if eqz committed.height s.consensus_number
    then (
      if eqz s.req_cache.raw_prepare_cache.height s.consensus_number
          then s
          else (rehandle_committed env s committed).0,
      false,
    )
    else (s, true)
