-- ===== src/Raft/Vote/Twice.antt =====
-- A candidate that gives up takes its term back, and can vote again in it.
use lab_bcos.Base.{
  ℕ, ◌^◌, ◌≤◌, ◌<◌, ◌≡◌, ◌≢◌, refl, sym, ap, ◌∙◌, some, Bool, true, false, inl, arith,
}
use lab_bcos.Base.Int.{◌≤ℤ◌}
use lab_bcos.Raft.Types.{
  Engine, World, Role, Payload, VoteReq, VoteState, total_vote_count, quorum, invalid_index,
}
use lab_bcos.Raft.Roles.{
  switch_to_follower, become_follower, release_waiter, reset_elect_timeout, increase_elect_time,
}
use lab_bcos.Raft.Send.{last_number, generate_vote_req, broadcast_vote_req}
use lab_bcos.Raft.Send.Frame.{broadcast_msg_frame}
use lab_bcos.Raft.Vote.{is_majority_vote, pred_term, handle_vote_request}
use lab_bcos.Raft.Vote.Once.{IsVotable, Voted, votes, keeps, Ballot, handle_vote_request-Voted}
use lab_bcos.Raft.Heartbeat.{is_candidate}
use lab_bcos.Raft.Loop.{start_campaign, give_up}
use Role.{follower}
use Payload.{vote_req}

-- What a candidate keeps when it asks for votes and when it gives up.
pub record Kept (s t : Engine) : Type 0 where
  pub last_leader_term : t.last_leader_term ≡ s.last_leader_term
  pub first_vote : t.first_vote ≡ s.first_vote
  pub uncommitted : t.uncommitted ≡ s.uncommitted
  pub role : t.role ≡ follower
  pub term : t.term ≡ pred_term s.term

gave_up :
    (w : World) (s : Engine) (v : VoteState)
    → s.waiting ≡ false
    → total_vote_count v < quorum s
    → Kept s (give_up w s v)
unfolding give_up is_majority_vote switch_to_follower become_follower release_waiter
    reset_elect_timeout increase_elect_time
gave_up w s v idle few = ground arith

granted_fields :
    {w : World} {s : Engine} {req : VoteReq} {r : Engine × Bool}
    → Voted w s req r
    → IsVotable w s req
    → (r.1 ≡ true) × (r.0.term ≡ req.term) × (r.0.vote ≡ req.candidate)
granted_fields (votes t v changed first) u =
    (refl, ap (λ (b : Ballot). b.term) changed, ap (λ (b : Ballot). b.vote) changed)
granted_fields (keeps t n same) u = absurd (n u)

-- A candidate that has asked for votes has voted for itself, in its term.
pub record HasVoted (s t : Engine) : Type 0 where
  pub vote : t.vote ≡ s.idx
  pub first_vote : t.first_vote ≡ s.idx
  pub term : t.term ≡ s.term
  pub last_leader_term : t.last_leader_term ≡ s.last_leader_term
  pub uncommitted : t.uncommitted ≡ s.uncommitted
  pub waiting : t.waiting ≡ s.waiting
  pub quorum_eq : quorum t ≡ quorum s

start_campaign-HasVoted :
    (w : World) (s : Engine)
    → is_candidate s.role ≡ true
    → 1 < quorum s
    → HasVoted s (start_campaign w s).0
unfolding start_campaign broadcast_vote_req is_majority_vote quorum
start_campaign-HasVoted w s stands many =
    rw (broadcast_msg_frame w (vote_req (some (generate_vote_req w s))) s) (ground arith)

pred_below : (n : ℕ) → 0 < n → n < 2 ^ 64 → pred_term n < n
unfolding pred_term
pred_below n some_term fits = omega arith

-- A candidate that voted for itself, gets too few answers and gives up takes its term back. In the
-- term of its own vote it then votes for another candidate, whose last leader is as recent and
-- whose chain is as long as its own: two votes in one term.
pub votes_twice :
    (start wait again : World) (s : Engine) (v : VoteState) (node : ℕ) (req : VoteReq)
    → is_candidate s.role ≡ true
    → 1 < quorum s
    → s.waiting ≡ false
    → s.idx ≢ invalid_index
    → 0 < s.term
    → s.term < 2 ^ 64
    → total_vote_count v < quorum s
    → req.term ≡ s.term
    → s.last_leader_term ≤ req.last_leader_term
    → last_number again s ≤ℤ req.last_block_number
    → let own = (start_campaign start s).0 in
      let other = handle_vote_request again (give_up wait own v) node req in
      (own.vote ≡ s.idx)
      × (own.term ≡ s.term)
      × (other.1 ≡ true)
      × (other.0.vote ≡ req.candidate)
      × (other.0.term ≡ s.term)
unfolding last_number
votes_twice start wait again s v node req stands many idle named some_term fits few same informed
      long =
    let own = (start_campaign start s).0 in
    let h = start_campaign-HasVoted start s stands many in
    let k = gave_up wait own v (h.waiting ∙ idle) (omega (arith, h.quorum_eq)) in
    let votable : IsVotable again (give_up wait own v) req = record {
      later = inl (omega (arith, k.term, ap pred_term h.term, pred_below s.term some_term fits));
      informed = omega (arith, k.last_leader_term, h.last_leader_term);
      as_long = rw (k.uncommitted ∙ h.uncommitted) long;
      again = λ e. named (sym h.first_vote ∙ sym k.first_vote ∙ e);
    } in
    let f =
      granted_fields (handle_vote_request-Voted again (give_up wait own v) node req) votable in
    (h.vote, h.term, f.0, f.2, f.1 ∙ same)
