-- ===== src/Raft/Heartbeat/Heeded.antt =====
-- What a heartbeat does to a node: `handleHeartbeat` on every branch.
use lab_bcos.Base.{
  ℕ, ◌≤◌, ◌<◌, ◌≡◌, ◌≢◌, refl, sym, subst, ◌∙◌, Bool, true, false, ◌⊎◌, ◌↔◌, List, inl, inr, arith,
}
use lab_bcos.Base.Tests.{if◌then◌else◌, Bool-cases}
use lab_bcos.Base.Int.{eqz, dec64}
use lab_bcos.Pbft.Msg.{Block}
use lab_bcos.Raft.Types.{Engine, World, Flow, Payload, Effect, Heartbeat, BlockBytes, invalid_index}
use lab_bcos.Raft.Roles.{reset_elect_timeout}
use lab_bcos.Raft.Send.{send_response, clear_first_vote_cache}
use lab_bcos.Raft.Send.Frame.{with_out, send_response_frame}
use lab_bcos.Raft.Heartbeat.{
  take_block, step_down, compare_terms, follow_heartbeat, answer_heartbeat, is_stale, is_candidate,
  handle_heartbeat,
}
use Flow.{returned, thrown}
use BlockBytes.{no_bytes, encoded, garbage}

-- The term, role and leader after a heartbeat was heeded; the node steps down where its last
-- leader's term or its own was lower, or where it was a candidate.
pub record IsHeeded (s : Engine) (hb : Heartbeat) (t : Engine) (down : Bool) : Type 0 where
  pub term : t.term ≡ hb.term
  pub last_leader_term : t.last_leader_term ≡ hb.term
  pub role : t.role ≡ s.role
  pub leader : t.leader ≡ s.leader
  pub idx : t.idx ≡ s.idx
  pub down_iff :
      (down ≡ true)
      ↔ ((s.last_leader_term < hb.term) ⊎ (s.term < hb.term) ⊎ (is_candidate s.role ≡ true))
  pub vote : t.vote ≡ (if down then invalid_index else s.vote)
  pub uncommitted : t.uncommitted ≡ s.uncommitted

follow_heartbeat-IsHeeded :
    (w : World) (hb : Heartbeat) (s : Engine)
    → is_stale s hb ≡ false
    → IsHeeded s hb (follow_heartbeat w hb s).0 (follow_heartbeat w hb s).1
unfolding is_stale follow_heartbeat compare_terms step_down clear_first_vote_cache
    reset_elect_timeout is_candidate
follow_heartbeat-IsHeeded w hb s h = ground arith

-- A heartbeat's bytes hold a block whose height does not follow the node's highest block.
abbrev pub IsUnfit : Engine → Heartbeat → Type 0
IsUnfit s hb =
    (hb.uncommitted_block ≢ no_bytes) × (eqz (dec64 hb.uncommitted_number) s.highest.number ≡ false)

-- The state with a heartbeat's block taken over.
abbrev pub taken_block : Block → Engine → Heartbeat → Engine
taken_block b s hb = record s { uncommitted = b; uncommitted_number = hb.uncommitted_number }

abbrev pub with_block : BlockBytes → Engine → Heartbeat → Engine
with_block no_bytes s hb = s
with_block (encoded b) s hb = taken_block b s hb
with_block garbage s hb = s

-- The outcomes of a heartbeat.
pub data Beaten (s : Engine) (hb : Heartbeat) : Engine × Bool × Flow → Type 0 where
  stale : hb.term < s.term → hb.term ≤ s.last_leader_term → Beaten s hb (s, false, returned)
  refused : is_stale s hb ≡ false → IsUnfit s hb → Beaten s hb (s, false, returned)
  broken :
      is_stale s hb ≡ false
      → hb.uncommitted_block ≡ garbage
      → ¬ IsUnfit s hb
      → Beaten s hb (s, false, thrown)
  heeded :
      (t : Engine) (down : Bool)
      → is_stale s hb ≡ false
      → ¬ IsUnfit s hb
      → IsHeeded (with_block hb.uncommitted_block s hb) hb t down
      → Beaten s hb (t, down, returned)

IsHeeded-with_out :
    (calls : List Effect) (s : Engine) (hb : Heartbeat) (t : Engine) (down : Bool)
    → IsHeeded (with_out calls s) hb t down
    → IsHeeded s hb t down
IsHeeded-with_out calls s hb t down h = record {
  term = h.term;
  last_leader_term = h.last_leader_term;
  role = h.role;
  leader = h.leader;
  idx = h.idx;
  down_iff = h.down_iff;
  vote = h.vote;
  uncommitted = h.uncommitted;
}

stale_lower :
    (s : Engine) (hb : Heartbeat)
    → is_stale s hb ≡ true
    → (hb.term < s.term) × (hb.term ≤ s.last_leader_term)
unfolding is_stale
stale_lower s hb h = ground arith

answered-IsHeeded :
    (w : World) (node : ℕ) (p : Payload) (s : Engine) (hb : Heartbeat)
    → is_stale s hb ≡ false
    → let after = follow_heartbeat w hb (send_response w node p s) in IsHeeded s hb after.0 after.1
unfolding is_stale
answered-IsHeeded w node p s hb h =
    rw (send_response_frame w node p s)
      (IsHeeded-with_out _ s hb _ _ (follow_heartbeat-IsHeeded w hb (with_out _ s) h))

IsHeeded-with_block :
    (s : Engine) (hb : Heartbeat) (bytes : BlockBytes)
    → hb.uncommitted_block ≡ bytes
    → (t : Engine) (down : Bool) → IsHeeded (with_block bytes s hb) hb t down
    → IsHeeded (with_block hb.uncommitted_block s hb) hb t down
IsHeeded-with_block s hb bytes e t down h =
    subst (λ y. IsHeeded (with_block y s hb) hb t down) (sym e) h

block_cases :
    (w : World) (node : ℕ) (s : Engine) (hb : Heartbeat) (bytes : BlockBytes)
    → hb.uncommitted_block ≡ bytes
    → is_stale s hb ≡ false
    → Beaten s hb (answer_heartbeat w node hb s (take_block s hb bytes))
unfolding answer_heartbeat take_block is_stale
block_cases w node s hb no_bytes e fresh =
    heeded _ _ fresh (λ u. u.0 e)
      (IsHeeded-with_block s hb no_bytes e _ _ (answered-IsHeeded w node _ s hb fresh))
block_cases w node s hb (encoded b) e fresh =
    elim (Bool-cases (eqz (dec64 hb.uncommitted_number) s.highest.number)) [
      | inl fit ↦ rw fit (
          heeded _ _ fresh (λ u. cc)
            (IsHeeded-with_block s hb (encoded b) e _ _
              (answered-IsHeeded w node _ (taken_block b s hb) hb fresh)))
      | inr unfit ↦ rw unfit (refused fresh (λ n. cc, unfit))
    ]
block_cases w node s hb garbage e fresh =
    elim (Bool-cases (eqz (dec64 hb.uncommitted_number) s.highest.number)) [
      | inl fit ↦ rw fit (broken fresh e (λ u. cc))
      | inr unfit ↦ rw unfit (refused fresh (λ n. cc, unfit))
    ]

pub handle_heartbeat-Beaten :
    (w : World) (s : Engine) (node : ℕ) (hb : Heartbeat)
    → Beaten s hb (handle_heartbeat w s node hb)
unfolding handle_heartbeat
handle_heartbeat-Beaten w s node hb = elim (Bool-cases (is_stale s hb)) [
  | inl old ↦ rw old (stale (stale_lower s hb old).0 (stale_lower s hb old).1)
  | inr fresh ↦ rw fresh (block_cases w node s hb hb.uncommitted_block refl fresh)
]

-- A heartbeat leaves the role, the leader and the index to the caller.
pub record SameRole (s t : Engine) : Type 0 where
  pub role : t.role ≡ s.role
  pub leader : t.leader ≡ s.leader
  pub idx : t.idx ≡ s.idx

with_block-SameRole :
    (bytes : BlockBytes) (s : Engine) (hb : Heartbeat) → SameRole s (with_block bytes s hb)
with_block-SameRole no_bytes s hb = record { role = refl; leader = refl; idx = refl }
with_block-SameRole (encoded b) s hb = record { role = refl; leader = refl; idx = refl }
with_block-SameRole garbage s hb = record { role = refl; leader = refl; idx = refl }

pub Beaten-SameRole :
    {s : Engine} {hb : Heartbeat} {r : Engine × Bool × Flow} → Beaten s hb r → SameRole s r.0
Beaten-SameRole (stale a b) = record { role = refl; leader = refl; idx = refl }
Beaten-SameRole (refused a b) = record { role = refl; leader = refl; idx = refl }
Beaten-SameRole (broken a b c) = record { role = refl; leader = refl; idx = refl }
Beaten-SameRole {s} {hb} (heeded t down fresh fit h) =
    let k = with_block-SameRole hb.uncommitted_block s hb in
    record { role = h.role ∙ k.role; leader = h.leader ∙ k.leader; idx = h.idx ∙ k.idx }
