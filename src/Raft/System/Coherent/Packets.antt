-- ===== src/Raft/System/Coherent/Packets.antt =====
-- Vote requests and heartbeats keep a node coherent.
use lab_bcos.Base.{ℕ, ◌≡◌, refl, ap, Bool, true, false, some, inl, inr, arith}
use lab_bcos.Base.Tests.{Bool-cases}
use lab_bcos.Base.Int.{eqz, dec64}
use lab_bcos.Raft.Types.{
  Engine, World, Flow, Payload, VoteReq, Heartbeat, emit, invalid_index, BlockBytes,
}
use lab_bcos.Raft.Roles.{reset_elect_timeout}
use lab_bcos.Raft.Send.{clear_first_vote_cache, send_response}
use lab_bcos.Raft.Vote.{answer, grant, handle_vote_request}
use lab_bcos.Raft.Vote.Once.{Voted, votes, keeps, Ballot, handle_vote_request-Voted}
use lab_bcos.Raft.Heartbeat.{
  Taken, ack, is_stale, handle_heartbeat, take_block, answer_heartbeat, follow_heartbeat,
  compare_terms, step_down,
}
use lab_bcos.Raft.Heartbeat.Heeded.{SameRole, Beaten-SameRole, handle_heartbeat-Beaten}
use lab_bcos.Raft.Loop.{Place, vote_and_leave, heed_and_leave}
use lab_bcos.Raft.System.Coherent.{
  IsWoken, IsCoherent, woken, SameSeat-IsCoherent, switch_to_follower-IsCoherent,
}
use Flow.{returned, thrown, deadlocked}
use Taken.{took}
use Payload.{heartbeat_resp}
use BlockBytes.{no_bytes, encoded, garbage}

-- The two flags and the index stay at a vote request and at a heartbeat.
pub record SameFlags (s t : Engine) : Type 0 where
  pub waiting : t.waiting ≡ s.waiting
  pub ready : t.commit_ready ≡ s.commit_ready
  pub idx : t.idx ≡ s.idx

pub SameFlags-IsWoken : {p : Bool} {s t : Engine} → SameFlags s t → IsWoken p s → IsWoken p t
SameFlags-IsWoken e c = ground (arith, e.waiting, e.ready, c.waiting, c.ready)

pub handle_vote_request-SameFlags :
    (w : World) (s : Engine) (node : ℕ) (req : VoteReq)
    → SameFlags s (handle_vote_request w s node req).0
unfolding handle_vote_request answer send_response emit grant reset_elect_timeout
handle_vote_request-SameFlags w s node req = ground arith

follow_heartbeat-SameFlags :
    (w : World) (hb : Heartbeat) (s : Engine) → SameFlags s (follow_heartbeat w hb s).0
unfolding follow_heartbeat compare_terms step_down clear_first_vote_cache reset_elect_timeout
follow_heartbeat-SameFlags w hb s = ground arith

answer_heartbeat-SameFlags :
    (w : World) (node : ℕ) (hb : Heartbeat) (s : Engine) (hash : ℕ) (t : Engine)
    → SameFlags s t
    → SameFlags s (answer_heartbeat w node hb s (took t hash)).0
unfolding answer_heartbeat send_response emit
answer_heartbeat-SameFlags w node hb s hash t same =
    let sent = send_response w node (heartbeat_resp (some (ack s hash))) t in
    ground (arith, follow_heartbeat-SameFlags w hb sent)

same_flags : (s : Engine) → SameFlags s s
same_flags s = record { waiting = refl; ready = refl; idx = refl }

take_block-SameFlags :
    (w : World) (node : ℕ) (s : Engine) (hb : Heartbeat) (bytes : BlockBytes)
    → SameFlags s (answer_heartbeat w node hb s (take_block s hb bytes)).0
unfolding take_block answer_heartbeat
take_block-SameFlags w node s hb no_bytes =
    answer_heartbeat-SameFlags w node hb s 0 s (same_flags s)
take_block-SameFlags w node s hb (encoded b) =
    elim (Bool-cases (eqz (dec64 hb.uncommitted_number) s.highest.number)) [
      | inl fit ↦ rw fit (
          answer_heartbeat-SameFlags w node hb s b.header.hash _
            (record { waiting = refl; ready = refl; idx = refl }))
      | inr unfit ↦ rw unfit (same_flags s)
    ]
take_block-SameFlags w node s hb garbage =
    elim (Bool-cases (eqz (dec64 hb.uncommitted_number) s.highest.number)) [
      | inl fit ↦ rw fit (same_flags s)
      | inr unfit ↦ rw unfit (same_flags s)
    ]

pub handle_heartbeat-SameFlags :
    (w : World) (s : Engine) (node : ℕ) (hb : Heartbeat)
    → SameFlags s (handle_heartbeat w s node hb).0
unfolding handle_heartbeat
handle_heartbeat-SameFlags w s node hb = elim (Bool-cases (is_stale s hb)) [
  | inl old ↦ rw old (same_flags s)
  | inr fresh ↦ rw fresh (take_block-SameFlags w node s hb hb.uncommitted_block)
]

vote_and_leave-IsCoherent :
    {p : Bool} {s : Engine} (w : World) (here : Place) (req : VoteReq) (r : Engine × Bool)
    → Voted w s req r
    → SameFlags s r.0
    → IsCoherent p s
    → IsCoherent p (vote_and_leave w here r).0
unfolding vote_and_leave
vote_and_leave-IsCoherent w here req r (votes t v changed first) f c =
    switch_to_follower-IsCoherent w invalid_index (SameFlags-IsWoken f (woken c))
vote_and_leave-IsCoherent w here req r (keeps t n same) f c =
    SameSeat-IsCoherent
      (record {
        waiting = f.waiting;
        ready = f.ready;
        role = ap (λ (b : Ballot). b.role) same;
        leader = ap (λ (b : Ballot). b.leader) same;
        idx = f.idx;
      })
      c

pub same_seat :
    {p : Bool} {s t : Engine} → SameRole s t → SameFlags s t → IsCoherent p s → IsCoherent p t
same_seat e f =
    SameSeat-IsCoherent (record {
      waiting = f.waiting;
      ready = f.ready;
      role = e.role;
      leader = e.leader;
      idx = e.idx;
    })

heed_and_leave-IsCoherent :
    {p : Bool} {s : Engine} (w : World) (here : Place) (chief : ℕ) (r : Engine × Bool × Flow)
    → SameRole s r.0
    → SameFlags s r.0
    → IsCoherent p s
    → IsCoherent p (heed_and_leave w here chief r).0
unfolding heed_and_leave
heed_and_leave-IsCoherent w here chief (t, true, returned) e f c =
    switch_to_follower-IsCoherent w chief (SameFlags-IsWoken f (woken c))
heed_and_leave-IsCoherent w here chief (t, false, returned) e f c = same_seat e f c
heed_and_leave-IsCoherent w here chief (t, down, thrown) e f c = same_seat e f c
heed_and_leave-IsCoherent w here chief (t, down, deadlocked) e f c = same_seat e f c

-- The two packets that every role takes.
pub vote_req-IsCoherent :
    {p : Bool} {s : Engine} (w : World) (here : Place) (node : ℕ) (req : VoteReq)
    → IsCoherent p s
    → IsCoherent p (vote_and_leave w here (handle_vote_request w s node req)).0
vote_req-IsCoherent {s} w here node req c =
    vote_and_leave-IsCoherent w here req _ (handle_vote_request-Voted w s node req)
      (handle_vote_request-SameFlags w s node req) c

pub heartbeat-IsCoherent :
    {p : Bool} {s : Engine} (w : World) (here : Place) (node : ℕ) (hb : Heartbeat)
    → IsCoherent p s
    → IsCoherent p (heed_and_leave w here hb.leader (handle_heartbeat w s node hb)).0
heartbeat-IsCoherent {s} w here node hb c =
    heed_and_leave-IsCoherent w here hb.leader _
      (Beaten-SameRole (handle_heartbeat-Beaten w s node hb))
      (handle_heartbeat-SameFlags w s node hb) c
