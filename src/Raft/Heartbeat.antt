-- ===== src/Raft/Heartbeat.antt =====
-- Heartbeats: `handleHeartbeat` of `RaftEngine`, and the leader's answer-taking in
-- `runAsLeaderImp`.
pub mod Heeded
pub mod Acked
use lab_bcos.Base.{
  ℕ, suc, ◌+◌, ◌-◌, ◌%◌, ◌^◌, Bool, true, false, not, ◌&&◌, ◌||◌, Option, none, some, List, [], ◌∷◌,
}
use lab_bcos.Base.Tests.{ltb, leb, ◌==◌, if◌then◌else◌}
use lab_bcos.Base.Lists.{length, add}
use lab_bcos.Base.Dict.{Dict, lookup, insert}
use lab_bcos.Base.Int.{pos, eqz, dec64}
use lab_bcos.Pbft.Msg.{Block}
use lab_bcos.Raft.Types.{
  Engine, World, Role, Flow, Payload, BlockBytes, BlockRef, Heartbeat, HeartbeatResp, quorum,
  to_u256, is_block, no_block, invalid_index,
}
use lab_bcos.Raft.Roles.{reset_elect_timeout}
use lab_bcos.Raft.Save.{check_and_execute, report_block}
use lab_bcos.Raft.Send.{own_msg, send_response, clear_first_vote_cache}
use Role.{leader, follower, candidate}
use Flow.{returned, thrown, deadlocked}
use Payload.{heartbeat_resp}
use BlockBytes.{no_bytes, encoded, garbage}

-- What becomes of the block in a heartbeat: the state and the hash to acknowledge, or a height
-- that does not follow the node's, or bytes at which the decoding throws.
pub data Taken : Type 0 where
  took : Engine → ℕ → Taken
  wrong_height undecodable : Taken

unfoldable pub take_block : Engine → Heartbeat → BlockBytes → Taken
take_block s hb no_bytes = took s 0
take_block s hb (encoded b) =
    if eqz (dec64 hb.uncommitted_number) s.highest.number
    then took (record s { uncommitted = b; uncommitted_number = hb.uncommitted_number })
        b.header.hash
    else wrong_height
take_block s hb garbage =
    if eqz (dec64 hb.uncommitted_number) s.highest.number then undecodable else wrong_height

-- Each of the three tests of `handleHeartbeat` that make the node step down.
unfoldable pub step_down : Heartbeat → Bool → Engine × Bool → Engine × Bool
step_down hb false (s, down) = (s, down)
step_down hb true (s, down) = (record s { term = hb.term; vote = invalid_index }, true)

unfoldable pub is_candidate : Role → Bool
is_candidate leader = false
is_candidate follower = false
is_candidate candidate = true

unfoldable pub compare_terms : Heartbeat → Engine → Engine × Bool
compare_terms hb s =
    let first = step_down hb (ltb s.last_leader_term hb.term) (s, false) in
    let second = step_down hb (ltb first.0.term hb.term) first in
    step_down hb (is_candidate second.0.role && leb second.0.term hb.term) second

-- The part of `handleHeartbeat` after the answer.
unfoldable pub follow_heartbeat : World → Heartbeat → Engine → Engine × Bool
follow_heartbeat w hb s =
    let (t, down) = compare_terms hb s in
    (reset_elect_timeout w (record (clear_first_vote_cache t) { last_leader_term = hb.term }), down)

-- The answer, with the state's term and highest block.
unfoldable pub ack : Engine → ℕ → HeartbeatResp
ack s hash = record { msg = own_msg s; uncommitted_hash = hash }

unfoldable pub answer_heartbeat : World → ℕ → Heartbeat → Engine → Taken → Engine × Bool × Flow
answer_heartbeat w node hb s wrong_height = (s, false, returned)
answer_heartbeat w node hb s undecodable = (s, false, thrown)
answer_heartbeat w node hb s (took t hash) =
    let sent = send_response w node (heartbeat_resp (some (ack s hash))) t in
    let (u, down) = follow_heartbeat w hb sent in (u, down, returned)

unfoldable pub is_stale : Engine → Heartbeat → Bool
is_stale s hb = ltb hb.term s.term && leb hb.term s.last_leader_term

-- `handleHeartbeat`.
unfoldable pub handle_heartbeat : World → Engine → ℕ → Heartbeat → Engine × Bool × Flow
handle_heartbeat w s node hb =
    if is_stale s hb
    then (s, false, returned)
    else answer_heartbeat w node hb s (take_block s hb hb.uncommitted_block)

-- The count of a node in `memberHeartbeatLog`, one up.
abbrev pub count_up : Option ℕ → ℕ
count_up none = 1
count_up (some n) = (n + 1) % 2 ^ 32

-- The nodes that have answered since the last reset, and the step of `for_each`.
unfoldable pub count_alive : Dict ℕ → ℕ
count_alive [] = 0
count_alive ((node, n) ∷ log) = if n == 0 then count_alive log else suc (count_alive log)

unfoldable pub lower_counts : Dict ℕ → Dict ℕ
lower_counts [] = []
lower_counts ((node, n) ∷ log) = (node, n - 1) ∷ lower_counts log

-- The first part of taking a `RaftHeartBeatResp`: who is alive, and at which block.
unfoldable pub note_member : World → Engine → Dict ℕ → ℕ → HeartbeatResp → Engine × Dict ℕ
note_member w s log node resp =
    let t = record s {
      member_block =
          insert node (record { height = to_u256 resp.height; block_hash = resp.block_hash })
            s.member_block;
    } in
    let counted = insert node (count_up (lookup node log)) log in
    if leb (quorum s) (count_alive counted + 1)
    then (record t { last_heartbeat_reset = w.now }, lower_counts counted)
    else (t, counted)

abbrev pub or_nobody : Option (List ℕ) → List ℕ
or_nobody none = []
or_nobody (some nodes) = nodes

-- The nodes that have acknowledged the block of a hash.
unfoldable pub acks : Engine → ℕ → List ℕ
acks s hash = or_nobody (lookup hash s.finger_print)

-- The chain after a call of `commitBlock`.
unfoldable pub after_commit : World → World
after_commit w = record w { chain_number = w.committed_number; chain_head = w.committed_head }

-- The report follows whatever came of the execution.
unfoldable pub report_self : World → Engine × Bool × Flow → Engine × Flow
report_self w (t, done, returned) =
    (report_block (if done then after_commit w else w) t t.uncommitted, returned)
report_self w (t, done, thrown) = (t, thrown)
report_self w (t, done, deadlocked) = (t, deadlocked)

-- The leader's own thread commits, and holds `m_commitMutex` while it does.
unfoldable pub commit_self : World → Engine → Engine × Flow
commit_self w s = report_self w (check_and_execute true w s s.uncommitted)

-- The second part: an acknowledged block is committed as soon as a quorum has it.
unfoldable pub take_ack : World → Engine → ℕ → HeartbeatResp → Engine × Flow
take_ack w s node resp =
    let hash = s.uncommitted.header.hash in
    let nodes = add node (acks s hash) in
    let t = record s { finger_print = insert hash nodes s.finger_print } in
    if not (is_block s.uncommitted)
    then (s, returned)
    else if not (eqz s.uncommitted_number s.consensus_number)
    then (record s { uncommitted = no_block; uncommitted_number = pos 0 }, returned)
    else if not (resp.uncommitted_hash == hash)
    then (s, returned)
    else if not (leb (quorum s) (length nodes + 1))
    then (t, returned)
    else if s.waiting
    then (record t { commit_ready = true }, returned)
    else commit_self w t

-- The case of a `RaftHeartBeatRespPacket` in `runAsLeaderImp`.
unfoldable pub on_heartbeat_resp :
    World → Engine → Dict ℕ → ℕ → HeartbeatResp → Engine × Dict ℕ × Flow
on_heartbeat_resp w s log node resp =
    let (t, counted) = note_member w s log node resp in
    let (u, flow) = take_ack w t node resp in
    if resp.term == s.term then (u, counted, flow) else (s, log, returned)
