-- ===== src/Pbft/Engine/Loop/Queue.antt =====
-- What `onRecvPBFTMessage` lets into the queue, and how far a packet travels.
use lab_bcos.Base.{
  ℕ, ◌-◌, ◌%◌, ◌^◌, ◌≤◌, ◌<◌, ◌≡◌, ◌≢◌, refl, Option, none, some, List, [], ◌∷◌, ◌++◌, arith, inl,
  inr,
}
use lab_bcos.Base.Tests.{if◌then◌else◌, ◌==◌, leb, Bool-cases}
use lab_bcos.Base.Lists.{length}
use lab_bcos.Pbft.Msg.{max_idx}
use lab_bcos.Pbft.Engine.{Engine, Packet, Body, index_by_miner, miner_by_index}
use lab_bcos.Pbft.Engine.Send.{packet_ttl}
use lab_bcos.Pbft.Engine.Miners.{get_or-index_by_miner}
use lab_bcos.Pbft.Engine.Loop.{next_ttl, valid_sender, enqueue, on_recv}

-- A packet from another miner, under that miner's index, of one of the four kinds.
pub record IsFromMiner (s : Engine) (p : Packet) : Type 0 where
  pub indexed : miner_by_index s p.node_idx ≡ p.node_id
  pub other : p.node_id ≢ miner_by_index s s.idx
  pub of_kind : p.packet_id ≤ 3

abbrev pub AllFromMiners : Engine → List Packet → Type 0
AllFromMiners s [] = Unit
AllFromMiners s (p ∷ ps) = IsFromMiner s p × AllFromMiners s ps

append-AllFromMiners :
    (s : Engine) (ps : List Packet) (p : Packet)
    → AllFromMiners s ps
    → IsFromMiner s p
    → AllFromMiners s (ps ++ p ∷ [])
append-AllFromMiners s [] p a b = (b, tt)
append-AllFromMiners s (q ∷ ps) p a b = (a.0, append-AllFromMiners s ps p a.1 b)

same_miners :
    (s t : Engine) (ps : List Packet)
    → t.miner_list ≡ s.miner_list
    → t.idx ≡ s.idx
    → AllFromMiners s ps
    → AllFromMiners t ps
unfolding miner_by_index
same_miners s t [] m i a = tt
same_miners s t (p ∷ ps) m i a = (
  record { indexed = rw m a.0.indexed; other = rw (m, i) a.0.other; of_kind = a.0.of_kind },
  same_miners s t ps m i a.1,
)

valid_sender_lem :
    (s : Engine) (node size i : ℕ)
    → valid_sender s node size ≡ some i
    → (node ≢ miner_by_index s s.idx) × (index_by_miner s.miner_list node ≡ some i)
unfolding valid_sender
valid_sender_lem s node size i e = ground (arith, e)

enqueue-AllFromMiners :
    (s : Engine) (node : ℕ) (sender : Option ℕ) (decoded : Option (ℕ × ℕ × Body))
    → length s.miner_list ≤ 2 ^ 16
    → ((i : ℕ)
        → sender ≡ some i
        → (node ≢ miner_by_index s s.idx) × (index_by_miner s.miner_list node ≡ some i))
    → AllFromMiners s s.msg_queue
    → AllFromMiners (enqueue s node sender decoded) (enqueue s node sender decoded).msg_queue
unfolding enqueue miner_by_index
enqueue-AllFromMiners s node none decoded few from a = a
enqueue-AllFromMiners s node (some i) none few from a = a
enqueue-AllFromMiners s node (some i) (some (id, ttl, body)) few from a =
    elim (Bool-cases (leb id 3)) [
      | inl kind ↦
          let (other, found) = from i refl in
          let (lt, at) = get_or-index_by_miner s.miner_list node i found in
          let small : i % 65536 ≡ i = omega (arith, lt, few) in
          rw kind (
            same_miners s _ _ refl refl (
              append-AllFromMiners s s.msg_queue _ a (record {
                indexed = unfold miner_by_index in rw small at;
                other = other;
                of_kind = ground (arith, kind);
              })))
      | inr kind ↦ rw kind a
    ]

-- Every packet of the queue is of another miner, under that miner's index, and of one of the four
-- kinds: `onRecvPBFTMessage` keeps this, whatever arrives, where there are at most 2 ^ 16 miners.
pub on_recv-AllFromMiners :
    (s : Engine) (node size : ℕ) (decoded : Option (ℕ × ℕ × Body))
    → length s.miner_list ≤ 2 ^ 16
    → AllFromMiners s s.msg_queue
    → AllFromMiners (on_recv s node size decoded) (on_recv s node size decoded).msg_queue
unfolding on_recv
on_recv-AllFromMiners s node size decoded few a = elim (Bool-cases (s.idx == max_idx)) [
  | inl e ↦ rw e a
  | inr e ↦ rw e (
      enqueue-AllFromMiners s node (valid_sender s node size) decoded few
        (valid_sender_lem s node size) a)
]

-- A packet with `ttl` hops to go, 2 at least, goes on with one hop less; one with none goes on
-- with 255.
pub packet_ttl-next_ttl :
    (s : Engine) (ttl : ℕ)
    → ttl < 2 ^ 8
    → ttl ≢ 1
    → packet_ttl s (next_ttl ttl) ≡ (if ttl == 0 then 255 else ttl - 1)
unfolding packet_ttl next_ttl
packet_ttl-next_ttl s ttl small more = ground arith
