-- ===== src/Raft/System/Coherent/Always.antt =====
-- Whatever steps the threads take, the node is coherent.
use lab_bcos.Base.{
  ℕ, ◌≡◌, refl, ap, ◌∙◌, Bool, true, false, not, ◌||◌, Option, none, some, inl, inr, arith,
}
use lab_bcos.Base.Tests.{Bool-cases}
use lab_bcos.Base.Dict.{is_some}
use lab_bcos.Base.Int.{pos}
use lab_bcos.Pbft.Msg.{Block}
use lab_bcos.Raft.Types.{Engine, World, Role, Flow, Payload, Packet, VoteReq, no_block, is_block}
use lab_bcos.Raft.Roles.{check_elect_timeout, switch_to_leader, recover_elect_time}
use lab_bcos.Raft.Send.{broadcast_vote_req, generate_vote_req}
use lab_bcos.Raft.Send.Frame.{broadcast_msg_frame}
use lab_bcos.Raft.Vote.{is_leader}
use lab_bcos.Raft.Vote.Once.{Voted, votes, keeps, Ballot, handle_vote_request-Voted}
use lab_bcos.Raft.Heartbeat.{is_candidate, handle_heartbeat}
use lab_bcos.Raft.Heartbeat.Heeded.{Beaten-SameRole, handle_heartbeat-Beaten}
use lab_bcos.Raft.Loop.{
  Place, pop_queue, start_leading, start_campaign, heed, note_leader, follow, enqueue, on_recv,
  run_as_follower_imp, is_follower, enter_role, work,
}
use lab_bcos.Raft.Commit.{commit_start, commit_finish}
use lab_bcos.Raft.System.{Node, Step, Reach, round, wake}
use lab_bcos.Raft.System.Coherent.{
  IsWoken, IsCoherent, woken, switch_to_candidate-IsCoherent, check_and_execute-IsCoherent,
  report_block-IsCoherent,
}
use lab_bcos.Raft.System.Coherent.Packets.{
  SameFlags-IsWoken, handle_vote_request-SameFlags, handle_heartbeat-SameFlags,
}
use lab_bcos.Raft.System.Coherent.Rounds.{
  pop_queue-IsCoherent, on_pop-IsCoherent, three_ways, run_as_leader_imp-IsCoherent,
  run_as_candidate_imp-IsCoherent,
}
use Flow.{returned}
use Payload.{vote_req, vote_resp, heartbeat, heartbeat_resp}
use Place.{top, leading, campaigning, following}
use Role.{leader, follower, candidate}
use Step.{works, receives, reports, seals, wakes}
use Reach.{here, next}

-- A follower may name any leader.
follower-IsCoherent :
    {p : Bool} {s : Engine} → is_follower s.role ≡ true → IsWoken p s → IsCoherent p s
unfolding is_follower is_leader is_candidate
follower-IsCoherent f c = ground arith

role_of_votes :
    {w : World} {s : Engine} {req : VoteReq} {r : Engine × Bool}
    → Voted w s req r
    → r.0.role ≡ s.role
role_of_votes (votes t v changed first) = ap (λ (b : Ballot). b.role) changed
role_of_votes (keeps t n same) = ap (λ (b : Ballot). b.role) same

note_leader-IsWoken :
    {p : Bool} {s : Engine} (chief : ℕ) → IsWoken p s → IsWoken p (note_leader chief s)
unfolding note_leader
note_leader-IsWoken chief c = ground arith

role_of_note_leader : (chief : ℕ) (s : Engine) → (note_leader chief s).role ≡ s.role
unfolding note_leader
role_of_note_leader chief s = ground arith

heed-IsCoherent :
    {p : Bool} (chief : ℕ) (r : Engine × Bool × Flow)
    → is_follower r.0.role ≡ true
    → IsWoken p r.0
    → IsCoherent p (heed chief r).0
unfolding heed
heed-IsCoherent chief (t, true, flow) f c =
    follower-IsCoherent f (record { waiting = c.waiting; ready = c.ready })
heed-IsCoherent chief (t, false, flow) f c = follower-IsCoherent f c

follow-IsCoherent :
    {p : Bool} {s : Engine} (w : World) (q : Packet) (body : Payload)
    → is_follower s.role ≡ true
    → IsCoherent p s
    → IsCoherent p (follow w s q body).0
unfolding follow
follow-IsCoherent w q (vote_req none) f c = c
follow-IsCoherent {s} w q (vote_req (some req)) f c =
    follower-IsCoherent
      (ap is_follower (role_of_votes (handle_vote_request-Voted w s q.node_id req)) ∙ f)
      (SameFlags-IsWoken (handle_vote_request-SameFlags w s q.node_id req) (woken c))
follow-IsCoherent w q (vote_resp resp) f c = c
follow-IsCoherent w q (heartbeat none) f c = c
follow-IsCoherent {s} w q (heartbeat (some hb)) f c =
    let t = note_leader hb.leader s in
    heed-IsCoherent hb.leader (handle_heartbeat w t q.node_id hb)
      (ap is_follower (
          (Beaten-SameRole (handle_heartbeat-Beaten w t q.node_id hb)).role
          ∙ role_of_note_leader hb.leader s)
        ∙ f)
      (SameFlags-IsWoken (handle_heartbeat-SameFlags w t q.node_id hb)
        (note_leader-IsWoken hb.leader (woken c)))
follow-IsCoherent w q (heartbeat_resp resp) f c = c

role_of_pop : (s : Engine) → (pop_queue s).role ≡ s.role
unfolding pop_queue
role_of_pop s = ground arith

run_as_follower_imp-IsCoherent :
    {p : Bool} {s : Engine} (w : World) → IsCoherent p s → IsCoherent p (run_as_follower_imp w s).0
unfolding run_as_follower_imp
run_as_follower_imp-IsCoherent {p} {s} w c = elim (Bool-cases (is_follower s.role)) [
  | inr other ↦ rw other c
  | inl f ↦ rw f (
      three_ways false (check_elect_timeout w s) (s, top, returned) _ _ c
        (switch_to_candidate-IsCoherent w (woken c))
        (on_pop-IsCoherent _ _ _ c (λ q.
          follow-IsCoherent w q q.payload (ap is_follower (role_of_pop s) ∙ f)
            (pop_queue-IsCoherent c))))
]

start_leading-IsCoherent :
    {p : Bool} {s : Engine} (w : World) → IsCoherent p s → IsCoherent p (start_leading w s)
unfolding start_leading
start_leading-IsCoherent w c = record {
  waiting = c.waiting;
  ready = c.ready;
  leads = c.leads;
  stands = c.stands;
}

start_campaign-IsCoherent :
    {p : Bool} {s : Engine} (w : World) → IsCoherent p s → IsCoherent p (start_campaign w s).0
unfolding start_campaign broadcast_vote_req switch_to_leader recover_elect_time is_leader
    is_candidate
start_campaign-IsCoherent {p} {s} w c =
    rw (broadcast_msg_frame w (vote_req (some (generate_vote_req w s))) s) (ground arith)

enter_role-IsCoherent :
    {p : Bool} {s : Engine} (w : World) (r : Role)
    → IsCoherent p s
    → IsCoherent p (enter_role w s r).0
unfolding enter_role
enter_role-IsCoherent w leader c = start_leading-IsCoherent w c
enter_role-IsCoherent w follower c = c
enter_role-IsCoherent w candidate c = start_campaign-IsCoherent w c

work-IsCoherent :
    {p : Bool} {s : Engine} (w : World) (place : Place)
    → IsCoherent p s
    → IsCoherent p (work w s place).0
unfolding work
work-IsCoherent {p} {s} w top c = elim (Bool-cases (s.cfg_err || not s.is_miner)) [
  | inl idle ↦ rw idle c
  | inr able ↦ rw able (enter_role-IsCoherent w s.role c)
]
work-IsCoherent w (leading log) c = run_as_leader_imp-IsCoherent w log c
work-IsCoherent w (campaigning v) c = run_as_candidate_imp-IsCoherent w v c
work-IsCoherent w following c = run_as_follower_imp-IsCoherent w c

enqueue-IsCoherent :
    {p : Bool} {s : Engine} (node : ℕ) (sender : Option ℕ) (decoded : Option (Option Payload))
    → IsCoherent p s
    → IsCoherent p (enqueue s node sender decoded)
unfolding enqueue
enqueue-IsCoherent node none decoded c = c
enqueue-IsCoherent node (some i) none c = c
enqueue-IsCoherent node (some i) (some none) c = c
enqueue-IsCoherent node (some i) (some (some body)) c = record {
  waiting = c.waiting;
  ready = c.ready;
  leads = c.leads;
  stands = c.stands;
}

commit_finish-IsCoherent :
    {s : Engine} (w : World) (b : Block)
    → IsCoherent true s
    → IsCoherent false (commit_finish w b s).0
unfolding commit_finish
commit_finish-IsCoherent {s} w b c =
    let woken : IsCoherent false (record s { commit_ready = false; waiting = false }) = record {
      waiting = refl;
      ready = λ h. h;
      leads = c.leads;
      stands = c.stands;
    } in
    let cleared : IsCoherent false (record s {
      commit_ready = false;
      waiting = false;
      uncommitted = no_block;
      uncommitted_number = pos 0;
    }) =
      record { waiting = refl; ready = λ h. h; leads = c.leads; stands = c.stands } in
    elim (Bool-cases (is_block s.uncommitted)) [
      | inr gone ↦ rw gone woken
      | inl kept ↦ rw kept (elim (Bool-cases (is_leader s.role)) [
        | inr lost ↦ rw lost cleared
        | inl leads ↦ rw leads (check_and_execute-IsCoherent false w b cleared)
      ])
    ]

-- Each step keeps a node coherent: a leader names itself as the leader and a candidate nobody, the
-- engine knows whether the sealer's thread waits, and that thread is called only while it waits.
pub Step-IsCoherent :
    {n m : Node}
    → Step n m
    → IsCoherent (is_some n.sealing) n.engine
    → IsCoherent (is_some m.sealing) m.engine
unfolding round on_recv commit_start wake
Step-IsCoherent (works w place runs) c = work-IsCoherent w place c
Step-IsCoherent (receives node size decoded) c = enqueue-IsCoherent node _ decoded c
Step-IsCoherent (reports w b) c = report_block-IsCoherent w b c
Step-IsCoherent (seals b free) c = record {
  waiting = refl;
  ready = λ h. refl;
  leads = c.leads;
  stands = c.stands;
}
Step-IsCoherent (wakes w b held ready) c = commit_finish-IsCoherent w b (rw (ap is_some held) at c)

-- From a node that starts as a follower with no block to seal, whatever the threads do and in
-- whatever order: a leader names itself as the leader and a candidate nobody, `m_waitingForCommitting`
-- holds exactly while the sealer's thread waits, and that thread is woken only while it waits.
pub Reach-IsCoherent :
    {n m : Node}
    → Reach n m
    → n.sealing ≡ none
    → n.engine.role ≡ follower
    → n.engine.waiting ≡ false
    → n.engine.commit_ready ≡ false
    → IsCoherent (is_some m.sealing) m.engine
unfolding is_leader is_candidate
Reach-IsCoherent here free f idle unready = ground arith
Reach-IsCoherent (next r st) free f idle unready =
    Step-IsCoherent st (Reach-IsCoherent r free f idle unready)
