-- ===== src/Raft/Loop.antt =====
-- `onRecvRaftMessage`, and the rounds of `workLoop` with `runAsLeader`, `runAsFollower` and
-- `runAsCandidate`. Their loops are cut into rounds: `Place` says in which loop the thread is, with
-- its local variables. `World` has one time for the whole of a round, and one random number.
use lab_bcos.Base.{ℕ, Bool, true, false, not, ◌&&◌, ◌||◌, Option, none, some, List, [], ◌∷◌, ◌++◌}
use lab_bcos.Base.Tests.{ltb, ◌==◌, if◌then◌else◌}
use lab_bcos.Base.Dict.{Dict}
use lab_bcos.Raft.Types.{
  Engine, World, Role, Flow, Payload, Packet, VoteState, no_votes, total_vote_count, invalid_index,
}
use lab_bcos.Raft.Roles.{
  switch_to_leader, switch_to_follower, switch_to_candidate, check_elect_timeout,
  check_heartbeat_timeout, increase_elect_time,
}
use lab_bcos.Raft.Config.{get_index_by_miner, get_node_id_by_index}
use lab_bcos.Raft.Send.{broadcast_vote_req, broadcast_heartbeat}
use lab_bcos.Raft.Vote.{
  VoteResult, is_leader, is_majority_vote, pred_term, handle_vote_request, handle_vote_response,
}
use lab_bcos.Raft.Heartbeat.{is_candidate, handle_heartbeat, on_heartbeat_resp}
use Role.{leader, follower, candidate}
use Flow.{returned, thrown, deadlocked}
use Payload.{vote_req, vote_resp, heartbeat, heartbeat_resp}
use VoteResult.{to_leader, to_follower, none_yet}

-- `isValidReq`: the sender's index, where a message of `size` bytes from the node is let in.
unfoldable pub valid_sender : Engine → ℕ → ℕ → Option ℕ
valid_sender s node size = elim (get_node_id_by_index s s.idx) [
  | none ↦ none
  | some self ↦ if size == 0 || node == self then none else get_index_by_miner s node
]

-- The end of `onRecvRaftMessage`; a packet's type may be none of the four.
unfoldable pub enqueue : Engine → ℕ → Option ℕ → Option (Option Payload) → Engine
enqueue s node none decoded = s
enqueue s node (some i) none = s
enqueue s node (some i) (some none) = s
enqueue s node (some i) (some (some payload)) = record s {
  msg_queue = s.msg_queue ++ record { node_idx = i; node_id = node; payload = payload } ∷ [];
}

-- `onRecvRaftMessage`.
unfoldable pub on_recv : ℕ → ℕ → Option (Option Payload) → Engine → Engine
on_recv node size decoded s = enqueue s node (valid_sender s node size) decoded

-- Where the thread is: at the top of `workLoop`, or in the loop of a role.
pub data Place : Type 0 where
  top : Place
  leading : Dict ℕ → Place
  campaigning : VoteState → Place
  following : Place

-- `m_msgQueue.tryPop`, and what follows it in each of the three loops.
unfoldable pub pop_queue : Engine → Engine
pop_queue s = elim s.msg_queue [ [] ↦ s | p ∷ rest ↦ record s { msg_queue = rest } ]

unfoldable pub on_pop :
    List Packet → Engine × Place × Flow → (Packet → Engine × Place × Flow) → Engine × Place × Flow
on_pop [] idle handle = idle
on_pop (p ∷ rest) idle handle = handle p

-- A vote request, for a leader and a candidate: a vote granted ends their loop.
unfoldable pub vote_and_leave : World → Place → Engine × Bool → Engine × Place × Flow
vote_and_leave w here (s, true) = (switch_to_follower w invalid_index s, top, returned)
vote_and_leave w here (s, false) = (s, here, returned)

-- A heartbeat, likewise.
unfoldable pub heed_and_leave : World → Place → ℕ → Engine × Bool × Flow → Engine × Place × Flow
heed_and_leave w here chief (s, true, returned) = (switch_to_follower w chief s, top, returned)
heed_and_leave w here chief (s, false, returned) = (s, here, returned)
heed_and_leave w here chief (s, down, thrown) = (s, here, thrown)
heed_and_leave w here chief (s, down, deadlocked) = (s, here, deadlocked)

-- The cases of `runAsLeaderImp`; a `populate` that throws leaves the loop.
unfoldable pub lead : World → Engine → Dict ℕ → Packet → Payload → Engine × Place × Flow
lead w s log p (vote_req none) = (s, leading log, thrown)
lead w s log p (vote_req (some req)) =
    vote_and_leave w (leading log) (handle_vote_request w s p.node_id req)
lead w s log p (vote_resp resp) = (s, leading log, returned)
lead w s log p (heartbeat none) = (s, leading log, thrown)
lead w s log p (heartbeat (some hb)) =
    heed_and_leave w (leading log) hb.leader (handle_heartbeat w s p.node_id hb)
lead w s log p (heartbeat_resp none) = (s, leading log, thrown)
lead w s log p (heartbeat_resp (some resp)) =
    let (t, counted, flow) = on_heartbeat_resp w s log p.node_id resp in (t, leading counted, flow)

-- `runAsLeaderImp`.
unfoldable pub run_as_leader_imp : World → Engine → Dict ℕ → Engine × Place × Flow
run_as_leader_imp w s log =
    let sent = broadcast_heartbeat w s in
    if not (is_leader s.role)
    then (s, top, returned)
    else if ltb 1 s.node_num && check_heartbeat_timeout w s
    then (switch_to_candidate w s, top, returned)
    else on_pop sent.msg_queue (sent, leading log, returned)
        (λ p. lead w (pop_queue sent) log p p.payload)

-- `runAsLeader` up to its loop.
unfoldable pub start_leading : World → Engine → Engine
start_leading w s = record s {
  first_vote = invalid_index;
  last_leader_term = s.term;
  last_heartbeat_reset = w.now;
  last_heartbeat_time = w.now;
}

-- The end of an election that took too long.
unfoldable pub give_up : World → Engine → VoteState → Engine
give_up w s v =
    if is_majority_vote s (total_vote_count v)
    then switch_to_candidate w s
    else let slower = increase_elect_time s in
      switch_to_follower w invalid_index (record slower { term = pred_term slower.term })

unfoldable pub count_and_leave : World → Engine × VoteState × VoteResult → Engine × Place × Flow
count_and_leave w (s, v, to_leader) = (switch_to_leader s, top, returned)
count_and_leave w (s, v, to_follower) = (switch_to_follower w invalid_index s, top, returned)
count_and_leave w (s, v, none_yet) = (s, campaigning v, returned)

-- The cases of `runAsCandidateImp`.
unfoldable pub campaign : World → Engine → VoteState → Packet → Payload → Engine × Place × Flow
campaign w s v p (vote_req none) = (s, campaigning v, thrown)
campaign w s v p (vote_req (some req)) =
    vote_and_leave w (campaigning v) (handle_vote_request w s p.node_id req)
campaign w s v p (vote_resp none) = (s, campaigning v, thrown)
campaign w s v p (vote_resp (some resp)) = count_and_leave w (handle_vote_response s resp v)
campaign w s v p (heartbeat none) = (s, campaigning v, thrown)
campaign w s v p (heartbeat (some hb)) =
    heed_and_leave w (campaigning v) hb.leader (handle_heartbeat w s p.node_id hb)
campaign w s v p (heartbeat_resp resp) = (s, campaigning v, returned)

-- `runAsCandidateImp`.
unfoldable pub run_as_candidate_imp : World → Engine → VoteState → Engine × Place × Flow
run_as_candidate_imp w s v =
    if check_elect_timeout w s
    then (give_up w s v, top, returned)
    else on_pop s.msg_queue (s, campaigning v, returned)
        (λ p. campaign w (pop_queue s) v p p.payload)

-- `runAsCandidate` up to its loop; the node votes for itself.
unfoldable pub start_campaign : World → Engine → Engine × Place
start_campaign w s =
    let asked = broadcast_vote_req w s in
    let voted = record asked { vote = asked.idx; first_vote = asked.idx } in
    if not (is_candidate s.role)
    then (s, top)
    else if is_majority_vote voted 1
    then (switch_to_leader voted, top)
    else (voted, campaigning (record no_votes { vote = 1 }))

-- A follower takes the leader that a heartbeat names where it knows of none, and where the
-- heartbeat moved it on.
unfoldable pub heed : ℕ → Engine × Bool × Flow → Engine × Place × Flow
heed chief (s, true, flow) = (record s { leader = chief }, following, flow)
heed chief (s, false, flow) = (s, following, flow)

unfoldable pub note_leader : ℕ → Engine → Engine
note_leader chief s = if s.leader == invalid_index then record s { leader = chief } else s

-- The cases of `runAsFollowerImp`.
unfoldable pub follow : World → Engine → Packet → Payload → Engine × Place × Flow
follow w s p (vote_req none) = (s, following, thrown)
follow w s p (vote_req (some req)) =
    let (t, voted) = handle_vote_request w s p.node_id req in
    (t, if voted then top else following, returned)
follow w s p (vote_resp resp) = (s, following, returned)
follow w s p (heartbeat none) = (s, following, thrown)
follow w s p (heartbeat (some hb)) =
    heed hb.leader (handle_heartbeat w (note_leader hb.leader s) p.node_id hb)
follow w s p (heartbeat_resp resp) = (s, following, returned)

unfoldable pub is_follower : Role → Bool
is_follower leader = false
is_follower follower = true
is_follower candidate = false

-- `runAsFollowerImp`.
unfoldable pub run_as_follower_imp : World → Engine → Engine × Place × Flow
run_as_follower_imp w s =
    if not (is_follower s.role)
    then (s, top, returned)
    else if check_elect_timeout w s
    then (switch_to_candidate w s, top, returned)
    else on_pop s.msg_queue (s, following, returned) (λ p. follow w (pop_queue s) p p.payload)

-- The `switch` of `workLoop`.
unfoldable pub enter_role : World → Engine → Role → Engine × Place
enter_role w s leader = (start_leading w s, leading [])
enter_role w s follower = (s, following)
enter_role w s candidate = start_campaign w s

-- A round of the engine's thread.
unfoldable pub work : World → Engine → Place → Engine × Place × Flow
work w s top =
    let (t, place) = enter_role w s s.role in
    if s.cfg_err || not s.is_miner then (s, top, returned) else (t, place, returned)
work w s (leading log) = run_as_leader_imp w s log
work w s (campaigning v) = run_as_candidate_imp w s v
work w s following = run_as_follower_imp w s
