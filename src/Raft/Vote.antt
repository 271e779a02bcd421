-- ===== src/Raft/Vote.antt =====
-- Votes: `handleVoteRequest` and `handleVoteResponse` of `RaftEngine`.
pub mod Once
pub mod Twice
pub mod Election
pub mod Elected
use lab_bcos.Base.{ℕ, suc, ◌+◌, ◌-◌, ◌%◌, ◌^◌, Bool, true, false, not, ◌&&◌, some}
use lab_bcos.Base.Tests.{ltb, leb, ◌==◌, if◌then◌else◌}
use lab_bcos.Base.Int.{ltz}
use lab_bcos.Raft.Types.{
  Engine, World, Role, Payload, VoteReq, VoteResp, VoteFlag, VoteState, quorum, invalid_index,
}
use lab_bcos.Raft.Roles.{reset_elect_timeout, increase_elect_time}
use lab_bcos.Raft.Send.{own_msg, last_number, send_response}
use Role.{leader, follower, candidate}
use Payload.{vote_resp}
use VoteFlag.{
  reject, leader_reject, last_term_error, outdated, first_vote, discard, granted, unknown,
}

unfoldable pub is_leader : Role → Bool
is_leader leader = true
is_leader follower = false
is_leader candidate = false

-- The answer to a request, with a flag.
unfoldable pub vote_answer : Engine → VoteFlag → VoteResp
vote_answer s flag = record {
  msg = own_msg s;
  vote_flag = flag;
  last_leader_term = s.last_leader_term;
}

unfoldable pub answer : World → ℕ → VoteFlag → Engine → Engine
answer w node flag s = send_response w node (vote_resp (some (vote_answer s flag))) s

-- The state after a vote for a candidate.
unfoldable pub grant : VoteReq → Engine → Engine
grant req s = record s {
  term = req.term;
  leader = invalid_index;
  vote = req.candidate;
  first_vote = req.candidate;
}

-- `handleVoteRequest`. A leader that gets a request of no later term sets the flag
-- `VOTE_RESP_LEADER_REJECT` and goes on; the flag is set anew in each case below. The granted
-- answer has the new term, and the node's own last leader's term.
unfoldable pub handle_vote_request : World → Engine → ℕ → VoteReq → Engine × Bool
handle_vote_request w s node req =
    if leb req.term s.term && not (is_leader s.role)
    then (answer w node (if req.term == s.term then discard else reject) s, false)
    else if ltb req.last_leader_term s.last_leader_term
    then (answer w node last_term_error s, false)
    else if ltz req.last_block_number (last_number w s)
    then (answer w node outdated s, false)
    else if s.first_vote == invalid_index
    then (answer w node first_vote (record s { first_vote = req.candidate }), false)
    else (reset_elect_timeout w (answer w node granted (grant req s)), true)

-- `HandleVoteResult`.
pub data VoteResult : Type 0 where
  to_leader to_follower none_yet : VoteResult

-- `isMajorityVote`.
unfoldable pub is_majority_vote : Engine → ℕ → Bool
is_majority_vote s votes = leb (quorum s) votes

-- `m_term - 1` and `m_term--` on a `size_t`.
unfoldable pub pred_term : ℕ → ℕ
pred_term term = (term + 2 ^ 64 - 1) % 2 ^ 64

-- The `switch` of `handleVoteResponse`.
unfoldable pub count_vote :
    Engine → VoteResp → VoteState → VoteFlag → Engine × VoteState × VoteResult
count_vote s resp v reject =
    let u = record v { un_vote = suc v.un_vote } in
    if is_majority_vote s u.un_vote
    then (increase_elect_time s, u, to_follower)
    else (s, u, none_yet)
count_vote s resp v leader_reject = (
  increase_elect_time (record s { term = resp.term; last_leader_term = resp.last_leader_term }),
  v,
  to_follower,
)
count_vote s resp v last_term_error =
    let u = record v { last_term_err = suc v.last_term_err } in
    if is_majority_vote s u.last_term_err
    then (increase_elect_time s, u, to_follower)
    else (s, u, none_yet)
count_vote s resp v first_vote =
    let u = record v { first_vote = suc v.first_vote } in
    if is_majority_vote s u.first_vote
    then (record s { term = pred_term s.term }, u, to_follower)
    else (s, u, none_yet)
count_vote s resp v discard = (s, record v { discarded_vote = suc v.discarded_vote }, none_yet)
count_vote s resp v outdated = (s, record v { outdated = suc v.outdated }, none_yet)
count_vote s resp v granted =
    let u = record v { vote = suc v.vote } in
    (s, u, if is_majority_vote s u.vote then to_leader else none_yet)
count_vote s resp v unknown = (s, v, none_yet)

-- `handleVoteResponse`.
unfoldable pub handle_vote_response :
    Engine → VoteResp → VoteState → Engine × VoteState × VoteResult
handle_vote_response s resp v =
    if ltb resp.term (pred_term s.term)
    then (s, v, none_yet)
    else count_vote s resp v resp.vote_flag
