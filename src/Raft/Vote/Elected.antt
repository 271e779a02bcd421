-- ===== src/Raft/Vote/Elected.antt =====
-- A candidate that becomes the leader has the votes of a quorum.
use lab_bcos.Base.{ℕ, ◌+◌, ◌≤◌, ◌≡◌, refl, subst, List, [], ◌∷◌, arith}
use lab_bcos.Base.Tests.{ltb, if◌then◌else◌}
use lab_bcos.Raft.Types.{Engine, VoteResp, VoteFlag, VoteState, quorum}
use lab_bcos.Raft.Vote.{VoteResult, count_vote, handle_vote_response, is_majority_vote, pred_term}
use VoteFlag.{granted}
use VoteResult.{to_leader, to_follower, none_yet}

-- The answers that a candidate takes, one after another, until one of them decides.
unfoldable pub take_votes : List VoteResp → Engine → VoteState → VoteResult
take_votes [] s v = none_yet
take_votes (resp ∷ rest) s v =
    let (t, u, result) = handle_vote_response s resp v in
    let later = take_votes rest t u in
    elim result [ none_yet ↦ later | to_leader ↦ to_leader | to_follower ↦ to_follower ]

-- Does an answer grant a vote?
abbrev pub grants : VoteFlag → ℕ
grants granted = 1
grants _ = 0

-- The votes granted by a list of answers whose terms are recent enough.
abbrev pub votes_for : ℕ → List VoteResp → ℕ
votes_for term [] = 0
votes_for term (resp ∷ rest) =
    (if ltb resp.term (pred_term term) then 0 else grants resp.vote_flag) + votes_for term rest

-- An answer that decides nothing changes the count only.
pub record Undecided (s : Engine) (resp : VoteResp) (v : VoteState) (t : Engine) (u : VoteState)
    : Type 0 where
  pub same : t ≡ s
  pub counted :
      u.vote ≡ v.vote + (if ltb resp.term (pred_term s.term) then 0 else grants resp.vote_flag)

one_answer :
    (s : Engine) (resp : VoteResp) (v : VoteState)
    → (handle_vote_response s resp v).2 ≡ none_yet
    → Undecided s resp v (handle_vote_response s resp v).0 (handle_vote_response s resp v).1
unfolding handle_vote_response count_vote
one_answer s resp v h = ground arith

winning_answer :
    (s : Engine) (resp : VoteResp) (v : VoteState)
    → (handle_vote_response s resp v).2 ≡ to_leader
    → quorum s ≤ v.vote + (if ltb resp.term (pred_term s.term) then 0 else grants resp.vote_flag)
unfolding handle_vote_response count_vote is_majority_vote
winning_answer s resp v h = ground arith

-- The case of one answer, given the claim for the answers after it.
first_answer :
    (resp : VoteResp) (rest : List VoteResp) (s : Engine) (v : VoteState) (result : VoteResult)
    → (handle_vote_response s resp v).2 ≡ result
    → ((t : Engine) (u : VoteState)
        → take_votes rest t u ≡ to_leader
        → quorum t ≤ u.vote + votes_for t.term rest)
    → take_votes (resp ∷ rest) s v ≡ to_leader
    → quorum s ≤ v.vote + votes_for s.term (resp ∷ rest)
unfolding take_votes
first_answer resp rest s v to_leader e ih h = omega (arith, winning_answer s resp v e)
first_answer resp rest s v to_follower e ih h = absurd (ground arith)
first_answer resp rest s v none_yet e ih h =
    let r = handle_vote_response s resp v in
    let k = one_answer s resp v e in
    let won : take_votes rest r.0 r.1 ≡ to_leader = ground arith in
    let enough = ih r.0 r.1 won in
    omega (
      arith,
      subst (λ (t : Engine). quorum t ≤ r.1.vote + votes_for t.term rest) k.same enough,
      k.counted,
    )

-- A candidate that the answers to its request make the leader, however they are ordered, has
-- `m_nodeNum - m_f` votes, its own included: as many answers granted it a vote, and had a term that
-- is recent enough.
pub take_votes-quorum :
    (resps : List VoteResp) (s : Engine) (v : VoteState)
    → take_votes resps s v ≡ to_leader
    → quorum s ≤ v.vote + votes_for s.term resps
unfolding take_votes
take_votes-quorum [] s v h = absurd (ground arith)
take_votes-quorum (resp ∷ rest) s v h =
    first_answer resp rest s v _ refl (λ t u. take_votes-quorum rest t u) h
