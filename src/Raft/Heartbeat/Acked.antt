-- ===== src/Raft/Heartbeat/Acked.antt =====
-- Whose acknowledgements the leader counts, and that it commits with those of a quorum.
use lab_bcos.Base.{
  ℕ, suc, ◌+◌, ◌≤◌, ◌≡◌, refl, sym, ap, subst, Bool, true, false, not, ◌&&◌, ◌||◌, List, [], ◌∷◌,
  inl, inr, arith,
}
use lab_bcos.Base.Tests.{leb, leb→le, ◌==◌, ==_iff, if◌then◌else◌, Bool-cases}
use lab_bcos.Base.Lists.{length, contains, add, IsUnique, contains-add}
use lab_bcos.Base.Int.{eqz}
use lab_bcos.Base.Dict.{insert, lookup-insert}
use lab_bcos.Raft.Types.{Engine, World, Flow, HeartbeatResp, quorum, is_block}
use lab_bcos.Raft.Heartbeat.{acks, commit_self, take_ack}
use Flow.{returned}

-- The answers heard: each is the node that sent it and the hash that it acknowledged.
abbrev pub has_acked : ℕ → ℕ → List (ℕ × ℕ) → Bool
has_acked node hash [] = false
has_acked node hash ((n, h) ∷ heard) = (n == node && h == hash) || has_acked node hash heard

-- The nodes filed under each hash are distinct, and each has acknowledged it.
pub record IsBacked (heard : List (ℕ × ℕ)) (s : Engine) : Type 0 where
  pub distinct : (hash : ℕ) → IsUnique (acks s hash)
  pub sent : (hash node : ℕ) → contains (acks s hash) node ≡ true → has_acked node hash heard ≡ true

-- A quorum has the block that waits for its commit: the leader, and distinct nodes that have
-- acknowledged the block's hash.
pub record HasQuorum (heard : List (ℕ × ℕ)) (s : Engine) : Type 0 where
  pub nodes : List ℕ
  pub distinct : IsUnique nodes
  pub sent :
      (node : ℕ)
      → contains nodes node ≡ true
      → has_acked node s.uncommitted.header.hash heard ≡ true
  pub enough : quorum s ≤ suc (length nodes)

-- The state with an acknowledgement filed.
abbrev pub filed : Engine → ℕ → Engine
filed s node =
    let hash = s.uncommitted.header.hash in
    record s { finger_print = insert hash (add node (acks s hash)) s.finger_print }

-- The outcomes of an acknowledgement.
pub data Acked (heard : List (ℕ × ℕ)) (w : World) (s : Engine) (node : ℕ)
    : Engine × Flow → Type 0 where
  lets_sealer :
      HasQuorum heard s
      → s.waiting ≡ true
      → Acked heard w s node (record (filed s node) { commit_ready = true }, returned)
  commits_itself :
      HasQuorum heard s → s.waiting ≡ false → Acked heard w s node (commit_self w (filed s node))
  waits :
      (t : Engine)
      → t.out ≡ s.out
      → t.commit_ready ≡ s.commit_ready
      → IsBacked heard t
      → Acked heard w s node (t, returned)

add-IsUnique : (a : ℕ) (xs : List ℕ) → IsUnique xs → IsUnique (add a xs)
unfolding add
add-IsUnique a xs u = ground arith

acks-filed :
    (s : Engine) (node hash : ℕ)
    → acks (filed s node) hash ≡ (
        if s.uncommitted.header.hash == hash
        then add node (acks s s.uncommitted.header.hash)
        else acks s hash)
unfolding acks
acks-filed s node hash = ground (
  arith,
  lookup-insert s.uncommitted.header.hash hash (add node (acks s s.uncommitted.header.hash))
      s.finger_print,
)

module _ (heard : List (ℕ × ℕ)) (s : Engine) (node : ℕ) (b : IsBacked heard s) where
  abbrev now : List (ℕ × ℕ)
  now = (node, s.uncommitted.header.hash) ∷ heard

  acked_nodes :
      (n : ℕ)
      → contains (add node (acks s s.uncommitted.header.hash)) n ≡ true
      → has_acked n s.uncommitted.header.hash now ≡ true
  acked_nodes n h = ground (
    arith,
    contains-add node n (acks s s.uncommitted.header.hash),
    b.sent s.uncommitted.header.hash n,
    ==_iff node n,
  )

  quorum_of_acks :
      leb (quorum s) (length (add node (acks s s.uncommitted.header.hash)) + 1) ≡ true
      → HasQuorum now s
  quorum_of_acks h = record {
    nodes = add node (acks s s.uncommitted.header.hash);
    distinct = add-IsUnique node _ (b.distinct s.uncommitted.header.hash);
    sent = acked_nodes;
    enough = omega (arith, leb→le _ _ h);
  }

  filed_distinct : (hash : ℕ) → IsUnique (acks (filed s node) hash)
  filed_distinct hash =
      rw (acks-filed s node hash) (elim (Bool-cases (s.uncommitted.header.hash == hash)) [
        | inl same ↦ rw same (add-IsUnique node _ (b.distinct s.uncommitted.header.hash))
        | inr other ↦ rw other (b.distinct hash)
      ])

  filed_sent :
      (hash n : ℕ) → contains (acks (filed s node) hash) n ≡ true → has_acked n hash now ≡ true
  filed_sent hash n h = ground (
    arith,
    ap (λ (l : List ℕ). contains l n) (acks-filed s node hash),
    contains-add node n (acks s s.uncommitted.header.hash),
    b.sent hash n,
    ==_iff node n,
    ==_iff s.uncommitted.header.hash hash,
  )

  filed-IsBacked : IsBacked now (filed s node)
  filed-IsBacked = record { distinct = filed_distinct; sent = filed_sent }

  handed :
      (w : World)
      → HasQuorum now s
      → (sealer : Bool) → s.waiting ≡ sealer
      → Acked now w s node (
          if sealer
          then (record (filed s node) { commit_ready = true }, returned)
          else commit_self w (filed s node))
  handed w q true e = lets_sealer q e
  handed w q false e = commits_itself q e

  filed-Acked :
      (w : World)
      → Acked now w s node (
          if not (leb (quorum s) (length (add node (acks s s.uncommitted.header.hash)) + 1))
          then (filed s node, returned)
          else if s.waiting
          then (record (filed s node) { commit_ready = true }, returned)
          else commit_self w (filed s node))
  filed-Acked w =
      elim (Bool-cases
        (leb (quorum s) (length (add node (acks s s.uncommitted.header.hash)) + 1))) [
          | inr few ↦ rw few (waits _ refl refl filed-IsBacked)
          | inl many ↦ rw many (handed w (quorum_of_acks many) s.waiting refl)
        ]

Acked-hash :
    (heard : List (ℕ × ℕ)) (w : World) (s : Engine) (node : ℕ) {h h' : ℕ}
    → h ≡ h'
    → {r : Engine × Flow} → Acked ((node, h') ∷ heard) w s node r
    → Acked ((node, h) ∷ heard) w s node r
Acked-hash heard w s node e {r} a =
    subst (λ (k : ℕ). Acked ((node, k) ∷ heard) w s node r) (sym e) a

-- What is heard besides does no harm.
IsBacked-heard :
    (e : ℕ × ℕ) (heard : List (ℕ × ℕ)) (s t : Engine)
    → t.finger_print ≡ s.finger_print
    → IsBacked heard s
    → IsBacked (e ∷ heard) t
unfolding acks
IsBacked-heard e heard s t same b = record {
  distinct = λ hash. rw same (b.distinct hash);
  sent = λ hash n h. ground (arith, b.sent hash n, same);
}

-- An acknowledgement leads to a commit only where the leader and distinct nodes that have
-- acknowledged the waiting block's hash make up `m_nodeNum - m_f`: the sealer's thread is then let
-- go if it waits, and otherwise the leader commits itself. In all other cases nothing is handed out,
-- and what is filed under each hash is distinct nodes that have acknowledged it, as before.
pub take_ack-Acked :
    (heard : List (ℕ × ℕ)) (w : World) (s : Engine) (node : ℕ) (resp : HeartbeatResp)
    → IsBacked heard s
    → Acked ((node, resp.uncommitted_hash) ∷ heard) w s node (take_ack w s node resp)
unfolding take_ack
take_ack-Acked heard w s node resp b = elim (Bool-cases (is_block s.uncommitted)) [
  | inr none_waits ↦ rw none_waits (waits _ refl refl (IsBacked-heard _ heard s s refl b))
  | inl block ↦ rw block (elim (Bool-cases (eqz s.uncommitted_number s.consensus_number)) [
    | inr old ↦ rw old (waits _ refl refl (IsBacked-heard _ heard s _ refl b))
    | inl due ↦ rw due (elim (Bool-cases (resp.uncommitted_hash == s.uncommitted.header.hash)) [
      | inr other ↦ rw other (waits _ refl refl (IsBacked-heard _ heard s s refl b))
      | inl same ↦ rw same (
          Acked-hash heard w s node
            ((==_iff resp.uncommitted_hash s.uncommitted.header.hash).0 same)
            (filed-Acked heard s node b w))
    ])
  ])
]
