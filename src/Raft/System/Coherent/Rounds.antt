-- ===== src/Raft/System/Coherent/Rounds.antt =====
-- The rounds of the engine's thread keep a node coherent.
use lab_bcos.Base.{ℕ, Bool, true, false, none, some, List, [], ◌∷◌, inl, inr, arith}
use lab_bcos.Base.Tests.{◌==◌, if◌then◌else◌, Bool-cases}
use lab_bcos.Base.Lists.{add}
use lab_bcos.Base.Dict.{Dict, insert}
use lab_bcos.Raft.Types.{
  Engine, World, Flow, Payload, Packet, VoteResp, VoteState, HeartbeatResp, invalid_index,
  total_vote_count,
}
use lab_bcos.Raft.Roles.{increase_elect_time, check_elect_timeout}
use lab_bcos.Raft.Save.{check_and_execute}
use lab_bcos.Raft.Send.{broadcast_heartbeat, generate_heartbeat, clear_first_vote_cache}
use lab_bcos.Raft.Send.Frame.{broadcast_msg_frame}
use lab_bcos.Raft.Vote.{VoteResult, count_vote, handle_vote_response, is_majority_vote, pred_term}
use lab_bcos.Raft.Heartbeat.{
  on_heartbeat_resp, note_member, take_ack, commit_self, report_self, acks,
}
use lab_bcos.Raft.Loop.{
  Place, pop_queue, on_pop, lead, run_as_leader_imp, give_up, count_and_leave, campaign,
  run_as_candidate_imp,
}
use lab_bcos.Raft.System.Coherent.{
  IsWoken, IsCoherent, woken, SameSeat, SameSeat-IsCoherent, switch_to_leader-IsCoherent,
  switch_to_follower-IsCoherent, switch_to_candidate-IsCoherent, check_and_execute-IsCoherent,
  report_block-IsCoherent,
}
use lab_bcos.Raft.System.Coherent.Packets.{vote_req-IsCoherent, heartbeat-IsCoherent}
use Flow.{returned, thrown, deadlocked}
use Payload.{vote_req, vote_resp, heartbeat, heartbeat_resp}
use Place.{top}
use VoteResult.{to_leader, to_follower, none_yet}

report_self-IsCoherent :
    {p : Bool} (w : World) (r : Engine × Bool × Flow)
    → IsCoherent p r.0
    → IsCoherent p (report_self w r).0
unfolding report_self
report_self-IsCoherent w (t, done, returned) c = report_block-IsCoherent _ _ c
report_self-IsCoherent w (t, done, thrown) c = c
report_self-IsCoherent w (t, done, deadlocked) c = c

commit_self-IsCoherent :
    {p : Bool} {s : Engine} (w : World) → IsCoherent p s → IsCoherent p (commit_self w s).0
unfolding commit_self
commit_self-IsCoherent {s} w c =
    report_self-IsCoherent w (check_and_execute true w s s.uncommitted)
      (check_and_execute-IsCoherent true w s.uncommitted c)

note_member-IsCoherent :
    {p : Bool} {s : Engine} (w : World) (log : Dict ℕ) (node : ℕ) (resp : HeartbeatResp)
    → IsCoherent p s
    → IsCoherent p (note_member w s log node resp).0
unfolding note_member
note_member-IsCoherent w log node resp c = ground arith

take_ack-IsCoherent :
    {p : Bool} {s : Engine} (w : World) (node : ℕ) (resp : HeartbeatResp)
    → IsCoherent p s
    → IsCoherent p (take_ack w s node resp).0
unfolding take_ack
take_ack-IsCoherent {p} {s} w node resp c =
    let hash = s.uncommitted.header.hash in
    let t : Engine = record s {
      finger_print = insert hash (add node (acks s hash)) s.finger_print;
    } in
    let d : IsCoherent p t = record {
      waiting = c.waiting;
      ready = c.ready;
      leads = c.leads;
      stands = c.stands;
    } in
    ground (arith, commit_self-IsCoherent w d)

on_heartbeat_resp-IsCoherent :
    {p : Bool} {s : Engine} (w : World) (log : Dict ℕ) (node : ℕ) (resp : HeartbeatResp)
    → IsCoherent p s
    → IsCoherent p (on_heartbeat_resp w s log node resp).0
unfolding on_heartbeat_resp
on_heartbeat_resp-IsCoherent {s} w log node resp c = elim (Bool-cases (resp.term == s.term)) [
  | inl same ↦ rw same (take_ack-IsCoherent w node resp (note_member-IsCoherent w log node resp c))
  | inr strange ↦ rw strange c
]

lead-IsCoherent :
    {p : Bool} {s : Engine} (w : World) (log : Dict ℕ) (q : Packet) (body : Payload)
    → IsCoherent p s
    → IsCoherent p (lead w s log q body).0
unfolding lead
lead-IsCoherent w log q (vote_req none) c = c
lead-IsCoherent w log q (vote_req (some req)) c = vote_req-IsCoherent w _ q.node_id req c
lead-IsCoherent w log q (vote_resp resp) c = c
lead-IsCoherent w log q (heartbeat none) c = c
lead-IsCoherent w log q (heartbeat (some hb)) c = heartbeat-IsCoherent w _ q.node_id hb c
lead-IsCoherent w log q (heartbeat_resp none) c = c
lead-IsCoherent w log q (heartbeat_resp (some resp)) c =
    on_heartbeat_resp-IsCoherent w log q.node_id resp c

pub pop_queue-IsCoherent : {p : Bool} {s : Engine} → IsCoherent p s → IsCoherent p (pop_queue s)
unfolding pop_queue
pop_queue-IsCoherent c = ground arith

broadcast_heartbeat-IsCoherent :
    {p : Bool} {s : Engine} (w : World) → IsCoherent p s → IsCoherent p (broadcast_heartbeat w s)
unfolding broadcast_heartbeat clear_first_vote_cache
broadcast_heartbeat-IsCoherent {s} w c =
    let t : Engine = record s { last_heartbeat_time = w.now } in
    rw (broadcast_msg_frame w (heartbeat (some (generate_heartbeat t))) t) (ground arith)

pub on_pop-IsCoherent :
    {p : Bool} (queue : List Packet) (idle : Engine × Place × Flow)
    (handle : Packet → Engine × Place × Flow)
    → IsCoherent p idle.0
    → ((q : Packet) → IsCoherent p (handle q).0)
    → IsCoherent p (on_pop queue idle handle).0
unfolding on_pop
on_pop-IsCoherent [] idle handle c h = c
on_pop-IsCoherent (q ∷ rest) idle handle c h = h q

-- The step of a loop that leaves it, waits, or takes a packet.
pub three_ways :
    {p : Bool} (stale late : Bool) (x y z : Engine × Place × Flow)
    → IsCoherent p x.0
    → IsCoherent p y.0
    → IsCoherent p z.0
    → IsCoherent p (if stale then x else if late then y else z).0
three_ways true late x y z a b c = a
three_ways false true x y z a b c = b
three_ways false false x y z a b c = c

pub run_as_leader_imp-IsCoherent :
    {p : Bool} {s : Engine} (w : World) (log : Dict ℕ)
    → IsCoherent p s
    → IsCoherent p (run_as_leader_imp w s log).0
unfolding run_as_leader_imp
run_as_leader_imp-IsCoherent w log c =
    let sent = broadcast_heartbeat-IsCoherent w c in
    three_ways _ _ _ _ _ c (switch_to_candidate-IsCoherent w (woken c)) (
      on_pop-IsCoherent _ _ _ sent
        (λ q. lead-IsCoherent w log q q.payload (pop_queue-IsCoherent sent)))

slower_IsWoken :
    {p : Bool} {s : Engine}
    → IsWoken p s
    → IsWoken p
        (let slower = increase_elect_time s in record slower { term = pred_term slower.term })
unfolding increase_elect_time
slower_IsWoken c = ground arith

give_up-IsCoherent :
    {p : Bool} {s : Engine} (w : World) (v : VoteState)
    → IsCoherent p s
    → IsCoherent p (give_up w s v)
unfolding give_up
give_up-IsCoherent {p} {s} w v c = elim (Bool-cases (is_majority_vote s (total_vote_count v))) [
  | inl many ↦ rw many (switch_to_candidate-IsCoherent w (woken c))
  | inr few ↦ rw few (switch_to_follower-IsCoherent w invalid_index (slower_IsWoken (woken c)))
]

handle_vote_response-SameSeat :
    (s : Engine) (resp : VoteResp) (v : VoteState) → SameSeat s (handle_vote_response s resp v).0
unfolding handle_vote_response count_vote increase_elect_time
handle_vote_response-SameSeat s resp v = ground arith

count_and_leave-IsCoherent :
    {p : Bool} (w : World) (r : Engine × VoteState × VoteResult)
    → IsCoherent p r.0
    → IsCoherent p (count_and_leave w r).0
unfolding count_and_leave
count_and_leave-IsCoherent w (t, v, to_leader) c = switch_to_leader-IsCoherent (woken c)
count_and_leave-IsCoherent w (t, v, to_follower) c =
    switch_to_follower-IsCoherent w invalid_index (woken c)
count_and_leave-IsCoherent w (t, v, none_yet) c = c

campaign-IsCoherent :
    {p : Bool} {s : Engine} (w : World) (v : VoteState) (q : Packet) (body : Payload)
    → IsCoherent p s
    → IsCoherent p (campaign w s v q body).0
unfolding campaign
campaign-IsCoherent w v q (vote_req none) c = c
campaign-IsCoherent w v q (vote_req (some req)) c = vote_req-IsCoherent w _ q.node_id req c
campaign-IsCoherent w v q (vote_resp none) c = c
campaign-IsCoherent {s} w v q (vote_resp (some resp)) c =
    count_and_leave-IsCoherent w (handle_vote_response s resp v)
      (SameSeat-IsCoherent (handle_vote_response-SameSeat s resp v) c)
campaign-IsCoherent w v q (heartbeat none) c = c
campaign-IsCoherent w v q (heartbeat (some hb)) c = heartbeat-IsCoherent w _ q.node_id hb c
campaign-IsCoherent w v q (heartbeat_resp resp) c = c

pub run_as_candidate_imp-IsCoherent :
    {p : Bool} {s : Engine} (w : World) (v : VoteState)
    → IsCoherent p s
    → IsCoherent p (run_as_candidate_imp w s v).0
unfolding run_as_candidate_imp
run_as_candidate_imp-IsCoherent {s} w v c =
    three_ways false (check_elect_timeout w s) (s, top, returned) _ _ c (give_up-IsCoherent w v c)
      (on_pop-IsCoherent _ _ _ c
        (λ q. campaign-IsCoherent w v q q.payload (pop_queue-IsCoherent c)))
