-- ===== src/Sync/Master/Shards.antt =====
-- The requests of a turn are for its first shards.
pub mod Tiles
use lab_bcos.Base.{
  ℕ, zero, suc, ◌+◌, ◌-◌, ◌*◌, min, ◌≤◌, ◌<◌, ◌≡◌, ◌⊎◌, refl, sym, ap, subst, ◌∙◌, inl, inr, true,
  false, List, [], ◌∷◌, arith,
}
use lab_bcos.Base.Tests.{ltb, ◌==◌, ==_refl, Bool-cases}
use lab_bcos.Sync.Blocks.{max_request_shards, max_request_blocks}
use lab_bcos.Base.Lists.{length}
use lab_bcos.Sync.Peers.{SyncPeerStatus}
use lab_bcos.Sync.Master.{
  Sent, send_status, send_request, Turn, shard_from, shard_to, more_shards, Requested,
  request_shard, ask_peers, ask_rounds, turn_of, request_blocks,
}

-- Just the requests for the first `n` shards, the last one first.
abbrev pub AreShards : Turn → ℕ → List Sent → Type 0
AreShards t zero [] = Unit
AreShards t zero (x ∷ xs) = ⊥
AreShards t (suc n) [] = ⊥
AreShards t (suc n) (send_status id number ∷ rest) = ⊥
AreShards t (suc n) (send_request id start size ∷ rest) =
    (start ≡ shard_from t n) × (size ≡ shard_to t n - shard_from t n + 1) × AreShards t n rest

-- The requests so far are those of the first shards, within the bounds.
pub record IsTurn (t : Turn) (r : Requested) : Type 0 where
  pub shards : AreShards t r.shard r.requests
  pub in_number : r.shard ≤ t.shard_number
  pub in_bound : r.shard ≤ max_request_shards

request_shard-IsTurn :
    (t : Turn) (id : ℕ) (r : Requested)
    → more_shards t r.shard ≡ true
    → IsTurn t r
    → IsTurn t (request_shard t id r)
unfolding request_shard more_shards
request_shard-IsTurn t id r e v = record {
  shards = (refl, refl, v.shards);
  in_number = ground arith;
  in_bound = ground arith;
}

-- No peer of the list has the shard's last block.
abbrev pub NoneHas : ℕ → List SyncPeerStatus → Type 0
NoneHas to [] = Unit
NoneHas to (peer ∷ rest) = (peer.info.number < to) × NoneHas to rest

-- One pass keeps to the shards, and moves on or finds that no peer has the next one.
record Passed (t : Turn) (peers : List SyncPeerStatus) (r : Requested) (s : Requested)
    : Type 0 where
  turn : IsTurn t s
  moved : (r.shard < s.shard) ⊎ ((s ≡ r) × NoneHas (shard_to t r.shard) peers)

next_shard : (t : Turn) (id : ℕ) (r : Requested) → r.shard < (request_shard t id r).shard
unfolding request_shard
next_shard t id r = omega arith

further :
    (t : Turn) (id : ℕ) (rest : List SyncPeerStatus) (r s : Requested)
    → ((request_shard t id r).shard < s.shard)
      ⊎ ((s ≡ request_shard t id r) × NoneHas (shard_to t (request_shard t id r).shard) rest)
    → r.shard < s.shard
further t id rest r s (inl m) = omega (arith, m, next_shard t id r)
further t id rest r s (inr (e, n)) = rw e (next_shard t id r)

ask_peers-Passed :
    (t : Turn) (peers : List SyncPeerStatus) (r : Requested)
    → more_shards t r.shard ≡ true
    → IsTurn t r
    → Passed t peers r (ask_peers t peers r)
unfolding ask_peers
ask_peers-Passed t [] r e v = record { turn = v; moved = inr (refl, tt) }
ask_peers-Passed t (peer ∷ rest) r e v =
    elim (Bool-cases (ltb peer.info.number (shard_to t r.shard))) [
      | inl low ↦ rw low (
          let p = ask_peers-Passed t rest r e v in
          record {
            turn = p.turn;
            moved = elim p.moved [ inl m ↦ inl m | inr (s, n) ↦ inr (s, (ground arith, n)) ];
          })
      | inr high ↦ rw high (
          let asked = request_shard-IsTurn t peer.info.node_id r e v in
          elim (Bool-cases (more_shards t (request_shard t peer.info.node_id r).shard)) [
            | inr last ↦ rw last (record { turn = asked; moved = inl (next_shard t _ r) })
            | inl going ↦ rw going (
                let p = ask_peers-Passed t rest (request_shard t peer.info.node_id r) going asked in
                record { turn = p.turn; moved = inl (further t _ rest r _ p.moved) })
          ])
    ]

-- All shards of the turn were asked for, or a pass found no peer for the next one.
pub record AskedAll (order : ℕ → List SyncPeerStatus) (t : Turn) (s : Requested) : Type 0 where
  turn : IsTurn t s
  done : (more_shards t s.shard ≡ false) ⊎ ((pass : ℕ) × NoneHas (shard_to t s.shard) (order pass))

full_turn :
    (t : Turn) (r : Requested) → max_request_shards ≤ r.shard → more_shards t r.shard ≡ false
unfolding more_shards
full_turn t r h = ground arith

pub ask_rounds-AskedAll :
    (order : ℕ → List SyncPeerStatus) (t : Turn) (fuel : ℕ) (r : Requested)
    → max_request_shards ≤ r.shard + fuel
    → IsTurn t r
    → AskedAll order t (ask_rounds order t fuel r)
unfolding ask_rounds
ask_rounds-AskedAll order t zero r h v = record {
  turn = v;
  done = inl (full_turn t r (omega (arith, h)));
}
ask_rounds-AskedAll order t (suc fuel) r h v = elim (Bool-cases (more_shards t r.shard)) [
  | inr ended ↦ rw ended (record { turn = v; done = inl ended })
  | inl going ↦ rw going (
      let p = ask_peers-Passed t (order fuel) r going v in
      elim p.moved [
        | inl m ↦
            rw (moved_on r.shard (ask_peers t (order fuel) r).shard m)
              (ask_rounds-AskedAll order t fuel (ask_peers t (order fuel) r) (omega arith) p.turn)
        | inr (s, n) ↦ rw s (rw (==_refl r.shard) (record { turn = v; done = inr (fuel, n) }))
      ])
]
  where
    moved_on : (m n : ℕ) → m < n → (n == m) ≡ false
    moved_on m n e = ground arith
