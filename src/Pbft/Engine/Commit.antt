-- ===== src/Pbft/Engine/Commit.antt =====
-- From votes to a committed block: `broadcastSignReq`, `broadcastCommitReq`, `checkAndCommit`,
-- `checkAndSave` and `reportBlock`.
use lab_bcos.Base.{ℕ, Bool, false, ◌&&◌, ◌||◌, Option, none, some, []}
use lab_bcos.Base.Tests.{leb, ◌==◌, if◌then◌else◌}
use lab_bcos.Base.Int.{pos, ltz, lez, eqz, inc64}
use lab_bcos.Pbft.Msg.{Block, PrepareReq, vote_for, unique_key}
use lab_bcos.Pbft.ReqCache.{
  ReqCache, sig_cache_size, commit_cache_size, add_sign_req, add_commit_req,
  update_committed_prepare, generate_and_set_sig_list, clear_all_except_commit, del_cache,
  del_invalid_view_change,
}
use lab_bcos.Pbft.Engine.{Engine, Env, Effect, Body, Flow, emit, min_valid_nodes}
use lab_bcos.Pbft.Engine.Send.{broadcast_msg}
use lab_bcos.Pbft.Engine.Config.{reset_config}
use Effect.{notes_sealing, backs_up, commits, drops_transactions, reports_bad_block}
use Body.{msg_body}
use Flow.{returned, thrown}

abbrev pub sign_packet : ℕ
sign_packet = 1

abbrev pub commit_packet : ℕ
commit_packet = 2

-- `broadcastSignReq`.
unfoldable pub broadcast_sign_req : Env → Engine → PrepareReq → Engine × Bool
broadcast_sign_req env s req =
    let vote = vote_for env.signer req s.idx in
    let (t, succ) = broadcast_msg env s sign_packet (unique_key vote) (msg_body vote) [] 0 in
    (if succ then record t { req_cache = add_sign_req t.req_cache vote } else t, succ)

-- `broadcastCommitReq`.
unfoldable pub broadcast_commit_req : Env → Engine → PrepareReq → Engine × Bool
broadcast_commit_req env s req =
    let vote = vote_for env.signer req s.idx in
    let (t, succ) = broadcast_msg env s commit_packet (unique_key vote) (msg_body vote) [] 0 in
    (if succ then record t { req_cache = add_commit_req t.req_cache vote } else t, succ)

-- The caches after a commit: `clearAllExceptCommitCache`, then `delCache` of the prepare cache's
-- hash.
unfoldable pub clear_after_commit : ReqCache → ReqCache
clear_after_commit c = let d = clear_all_except_commit c in del_cache d d.prepare_cache.block_hash

-- `commitBlock` on the block with its signature list, and what its result leads to.
unfoldable pub commit_prepared : Env → Engine → Block → Engine
commit_prepared env s b =
    let c = s.req_cache in
    let signed = (generate_and_set_sig_list c b).0 in
    let context = c.prepare_cache.exec_context in
    let t = emit (commits signed context) s in
    let u =
      if env.commit_block signed context
      then emit (drops_transactions signed) t
      else emit (reports_bad_block signed) (emit (notes_sealing env.chain_number) t) in
    record u { req_cache = clear_after_commit c }

-- Enough votes of both kinds for the block of the prepare cache?
unfoldable pub enough_votes : Engine → Bool
enough_votes s =
    let hash = s.req_cache.prepare_cache.block_hash in
    leb (min_valid_nodes s) (sig_cache_size s.req_cache hash)
    && leb (min_valid_nodes s) (commit_cache_size s.req_cache hash)

-- The decoding of the prepare cache's block throws where there is none.
unfoldable pub save_block : Env → Engine → Option Block → Engine × Flow
save_block env s none = (s, thrown)
save_block env s (some b) = (commit_prepared env s b, returned)

-- `checkAndSave`.
unfoldable pub check_and_save : Env → Engine → Engine × Flow
check_and_save env s =
    let prep = s.req_cache.prepare_cache in
    if enough_votes s && (eqz prep.view s.view && ltz s.highest.number prep.height)
    then save_block env s prep.block
    else (s, returned)

-- The part of `checkAndCommit` before its call of `checkAndSave`.
unfoldable pub commit_vote : Env → Engine → Engine
commit_vote env s =
    let c = update_committed_prepare s.req_cache in
    let t = emit (backs_up c.committed_prepare_cache) (record s { req_cache = c }) in
    let u = (broadcast_commit_req env t c.prepare_cache).0 in
    record u { time = record u.time { last_sign_time = env.signer.now } }

-- `checkAndCommit`.
unfoldable pub check_and_commit : Env → Engine → Engine × Flow
check_and_commit env s =
    let prep = s.req_cache.prepare_cache in
    if sig_cache_size s.req_cache prep.block_hash == min_valid_nodes s && eqz prep.view s.view
    then check_and_save env (commit_vote env s)
    else (s, returned)

-- The inner branch of `reportBlock`: the next block's number is now this one's plus 1.
unfoldable pub next_round : Env → Engine → Engine
next_round env s = record s {
  view = pos 0;
  to_view = pos 0;
  leader_failed = false;
  time = record s.time { last_consensus_time = env.signer.now; change_cycle = 0 };
  consensus_number = inc64 s.highest.number;
  req_cache = del_invalid_view_change s.req_cache s.highest;
}

-- What `reportBlock` does with a block that is newer.
unfoldable pub accept_block : Env → Engine → Block → Engine
accept_block env s b =
    let t = record s { highest = b.header } in
    let u = if lez t.consensus_number t.highest.number then next_round env t else t in
    let w = reset_config env u in
    record w { req_cache = del_cache (clear_all_except_commit w.req_cache) w.highest.hash }

-- `reportBlock`.
unfoldable pub report_block : Env → Engine → Block → Engine
report_block env s b =
    if eqz env.chain_number (pos 0) || ltz s.highest.number b.header.number
    then accept_block env s b
    else s
