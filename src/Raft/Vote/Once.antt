-- ===== src/Raft/Vote/Once.antt =====
-- When a node votes, and that it votes once in a term while its term does not go down.
use lab_bcos.Base.{
  ℕ, ◌≤◌, ◌<◌, ◌≡◌, ◌≢◌, refl, ap, ◌∙◌, Bool, true, false, not, ◌&&◌, List, [], ◌∷◌, ◌⊎◌, inl, inr,
  arith,
}
use lab_bcos.Base.Tests.{ltb, leb, ◌==◌, if◌then◌else◌, Bool-cases}
use lab_bcos.Base.Int.{◌≤ℤ◌, ltz}
use lab_bcos.Raft.Types.{Engine, World, Role, VoteReq, VoteFlag, Heartbeat, invalid_index, emit}
use lab_bcos.Raft.Roles.{reset_elect_timeout}
use lab_bcos.Raft.Send.{last_number, send_response}
use lab_bcos.Raft.Vote.{is_leader, grant, answer, handle_vote_request}
use lab_bcos.Raft.Heartbeat.{handle_heartbeat}
use lab_bcos.Raft.Heartbeat.Heeded.{Beaten-SameRole, handle_heartbeat-Beaten}
use VoteFlag.{granted}

-- What a vote request has to meet: a later term (of a node that is no leader), a last leader as
-- recent and a chain as long as the node's own, and a first request before it.
pub record IsVotable (w : World) (s : Engine) (req : VoteReq) : Type 0 where
  pub later : (s.term < req.term) ⊎ (is_leader s.role ≡ true)
  pub informed : s.last_leader_term ≤ req.last_leader_term
  pub as_long : last_number w s ≤ℤ req.last_block_number
  pub again : s.first_vote ≢ invalid_index

-- The fields of the state that a vote changes, and that everything else leaves.
pub record Ballot : Type 0 where
  pub term : ℕ
  pub vote : ℕ
  pub leader : ℕ
  pub last_leader_term : ℕ
  pub role : Role

abbrev pub ballot : Engine → Ballot
ballot s = record {
  term = s.term;
  vote = s.vote;
  leader = s.leader;
  last_leader_term = s.last_leader_term;
  role = s.role;
}

pub ballot-answer :
    (w : World) (node : ℕ) (flag : VoteFlag) (s : Engine) → ballot (answer w node flag s) ≡ ballot s
unfolding answer send_response emit
ballot-answer w node flag s = ground arith

pub first_vote-answer :
    (w : World) (node : ℕ) (flag : VoteFlag) (s : Engine)
    → (answer w node flag s).first_vote ≡ s.first_vote
unfolding answer send_response emit
first_vote-answer w node flag s = ground arith

-- The outcomes of a vote request: whether a vote is given.
pub data Voted (w : World) (s : Engine) (req : VoteReq) : Engine × Bool → Type 0 where
  votes :
      (t : Engine)
      → IsVotable w s req
      → ballot t
        ≡ record (ballot s) { term = req.term; vote = req.candidate; leader = invalid_index }
      → t.first_vote ≡ req.candidate
      → Voted w s req (t, true)
  keeps : (t : Engine) → ¬ IsVotable w s req → ballot t ≡ ballot s → Voted w s req (t, false)

granted_ballot :
    (w : World) (node : ℕ) (req : VoteReq) (s : Engine)
    → ballot (reset_elect_timeout w (answer w node granted (grant req s)))
      ≡ record (ballot s) { term = req.term; vote = req.candidate; leader = invalid_index }
unfolding grant reset_elect_timeout
granted_ballot w node req s = ballot-answer w node granted (grant req s)

granted_first_vote :
    (w : World) (node : ℕ) (req : VoteReq) (s : Engine)
    → (reset_elect_timeout w (answer w node granted (grant req s))).first_vote ≡ req.candidate
unfolding grant reset_elect_timeout
granted_first_vote w node req s = first_vote-answer w node granted (grant req s)

not_late : (a b : ℕ) (l : Bool) → (leb a b && not l) ≡ false → (b < a) ⊎ (l ≡ true)
not_late a b true h = inr refl
not_late a b false h = inl (ground arith)

-- A vote request is granted exactly when it can be voted for. Then the node has the request's
-- term and has voted for its candidate, and knows no leader; otherwise its term, vote and leader
-- stay.
pub handle_vote_request-Voted :
    (w : World) (s : Engine) (node : ℕ) (req : VoteReq)
    → Voted w s req (handle_vote_request w s node req)
unfolding handle_vote_request
handle_vote_request-Voted w s node req =
    elim (Bool-cases (leb req.term s.term && not (is_leader s.role))) [
      | inl late ↦ rw late (keeps _ (λ v. ground (arith, v.later)) (ballot-answer w node _ s))
      | inr later ↦ rw later (elim (Bool-cases (ltb req.last_leader_term s.last_leader_term)) [
        | inl old ↦ rw old (keeps _ (λ v. ground (arith, v.informed)) (ballot-answer w node _ s))
        | inr informed ↦
            rw informed (elim (Bool-cases (ltz req.last_block_number (last_number w s))) [
              | inl short ↦
                  rw short (keeps _ (λ v. ground (arith, v.as_long)) (ballot-answer w node _ s))
              | inr long ↦ rw long (elim (Bool-cases (s.first_vote == invalid_index)) [
                | inl first ↦
                    rw first (keeps _ (λ v. ground (arith, v.again)) (ballot-answer w node _ _))
                | inr again ↦ rw again (
                    votes _
                      (record {
                        later = not_late _ _ _ later;
                        informed = ground arith;
                        as_long = ground arith;
                        again = λ e. ground arith;
                      })
                      (granted_ballot w node req s) (granted_first_vote w node req s))
              ])
            ])
      ])
    ]

-- A packet as a node that is no leader takes it: a vote request, or a heartbeat.
pub data Heard : Type 0 where
  asks : World → ℕ → VoteReq → Heard
  beats : World → ℕ → Heartbeat → Heard

-- The state after a packet.
unfoldable pub hear : Heard → Engine → Engine
hear (asks w node req) s = (handle_vote_request w s node req).0
hear (beats w node hb) s = (handle_heartbeat w s node hb).0

-- The terms and candidates of the votes that a node gives to a sequence of packets.
unfoldable pub votes_given : List Heard → Engine → List (ℕ × ℕ)
votes_given [] s = []
votes_given (asks w node req ∷ rest) s =
    let (t, voted) = handle_vote_request w s node req in
    let later = votes_given rest t in if voted then (req.term, req.candidate) ∷ later else later
votes_given (beats w node hb ∷ rest) s = votes_given rest (handle_heartbeat w s node hb).0

-- No heartbeat of the sequence takes the node's term down.
abbrev pub TermsKeep : List Heard → Engine → Type 0
TermsKeep [] s = Unit
TermsKeep (e ∷ rest) s = (s.term ≤ (hear e s).term) × TermsKeep rest (hear e s)

-- The terms of a list of votes rise, from above a term on.
abbrev pub AreRising : ℕ → List (ℕ × ℕ) → Type 0
AreRising low [] = Unit
AreRising low ((term, candidate) ∷ later) = (low < term) × AreRising term later

module _ (rest : List Heard) where
  abbrev Rises : Type 0
  Rises =
      (low : ℕ) (t : Engine)
      → is_leader t.role ≡ false
      → low ≤ t.term
      → TermsKeep rest t
      → AreRising low (votes_given rest t)

  asks-AreRising :
      (w : World) (s : Engine) (req : VoteReq) (r : Engine × Bool)
      → Voted w s req r
      → Rises
      → (low : ℕ) → is_leader s.role ≡ false
      → low ≤ s.term
      → TermsKeep rest r.0
      → AreRising low
          (if r.1 then (req.term, req.candidate) ∷ votes_given rest r.0 else votes_given rest r.0)
  asks-AreRising w s req r (votes t v changed first) ih low plain bound keep =
      let later : s.term < req.term = ground (arith, v.later) in
      (
        omega arith,
        ih req.term t (ap (λ (b : Ballot). is_leader b.role) changed ∙ plain)
            (omega (arith, ap (λ (b : Ballot). b.term) changed)) keep,
      )
  asks-AreRising w s req r (keeps t n same) ih low plain bound keep =
      ih low t (ap (λ (b : Ballot). is_leader b.role) same ∙ plain)
        (omega (arith, ap (λ (b : Ballot). b.term) same)) keep

-- A node that is no leader gives at most one vote in each term, and none in a term below its own,
-- whatever vote requests and heartbeats it gets, as long as no heartbeat takes its term down: the
-- terms of its votes rise from above its own.
pub votes_given-AreRising :
    (heard : List Heard) (low : ℕ) (s : Engine)
    → is_leader s.role ≡ false
    → low ≤ s.term
    → TermsKeep heard s
    → AreRising low (votes_given heard s)
unfolding votes_given hear
votes_given-AreRising [] low s plain bound keep = tt
votes_given-AreRising (asks w node req ∷ rest) low s plain bound keep =
    asks-AreRising rest w s req _ (handle_vote_request-Voted w s node req)
      (votes_given-AreRising rest) low plain bound keep.1
votes_given-AreRising (beats w node hb ∷ rest) low s plain bound keep =
    votes_given-AreRising rest low _
      (ap is_leader (Beaten-SameRole (handle_heartbeat-Beaten w s node hb)).role ∙ plain)
      (omega (arith, keep.0)) keep.1
