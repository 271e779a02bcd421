-- ===== src/Sync/Master/Shards/Tiles.antt =====
-- The blocks that the requests of a turn cover.
use lab_bcos.Base.{
  ℕ, zero, suc, ◌+◌, ◌-◌, ◌*◌, min, ◌≤◌, ◌<◌, ◌≡◌, ◌⊎◌, refl, sym, ap, subst, ◌∙◌, inl, inr, true,
  false, List, [], ◌∷◌, arith,
}
use lab_bcos.Base.Tests.{ltb, Bool-cases}
use lab_bcos.Sync.Blocks.{max_request_shards, max_request_blocks}
use lab_bcos.Base.Lists.{length}
use lab_bcos.Sync.Peers.{SyncPeerStatus}
use lab_bcos.Sync.Master.{
  Sent, send_status, send_request, Turn, shard_from, shard_to, more_shards, Requested, turn_of,
  request_blocks,
}
use lab_bcos.Sync.Master.Shards.{AreShards, NoneHas, AskedAll, ask_rounds-AskedAll}

-- The requests, newest first, follow on each other: the first starts above the height `low`, each
-- other one at the block after the one before it, and the last one ends below `next`. Each starts at a
-- block that is wanted, and is of 32 blocks, or of what is left up to the last block wanted.
abbrev pub Tiles : ℕ → ℕ → ℕ → List Sent → Type 0
Tiles low wanted next [] = next ≡ suc low
Tiles low wanted next (send_status id number ∷ rest) = ⊥
Tiles low wanted next (send_request id start size ∷ rest) =
    (next ≡ start + size)
    × (start ≤ wanted)
    × (size ≡ min max_request_blocks (suc wanted - start))
    × Tiles low wanted start rest

-- The block after the first `n` shards.
abbrev upper : ℕ → ℕ → ℕ → ℕ
upper low wanted zero = suc low
upper low wanted (suc n) = min (suc low + suc n * max_request_blocks) (suc wanted)

-- The requests of a turn that fetches the blocks above `low` up to `wanted`: they follow on each
-- other, at most four, and stop at the last block wanted, or at four, or where no peer has the last
-- block of the range that would come next.
pub record TurnDone (order : ℕ → List SyncPeerStatus) (low wanted : ℕ) (requests : List Sent)
    : Type 0 where
  pub next : ℕ
  pub tiles : Tiles low wanted next requests
  pub bound : length requests ≤ 4
  pub done :
      (wanted < next)
      ⊎ ((length requests ≡ 4)
          ⊎ ((pass : ℕ) × NoneHas (min (next + max_request_blocks - 1) wanted) (order pass)))

module _ (low wanted : ℕ) where
  length-AreShards : (n : ℕ) (xs : List Sent) → AreShards (turn_of low wanted) n xs → length xs ≡ n
  length-AreShards zero [] h = refl
  length-AreShards zero (x ∷ xs) h = absurd h
  length-AreShards (suc n) [] h = absurd h
  length-AreShards (suc n) (send_status id number ∷ xs) h = absurd h
  length-AreShards (suc n) (send_request id start size ∷ xs) h = ap suc (length-AreShards n xs h.2)

  -- A shard of the turn starts at the block after those before it.
  shard_start :
      (n : ℕ)
      → n < (turn_of low wanted).shard_number
      → (shard_from (turn_of low wanted) n ≡ upper low wanted n)
        × (shard_from (turn_of low wanted) n ≤ wanted)
  unfolding shard_from turn_of
  shard_start zero e = (omega (arith, e), omega (arith, e))
  shard_start (suc n) e = (omega (arith, e), omega (arith, e))

  next :
      (n start size : ℕ)
      → shard_from (turn_of low wanted) n ≤ wanted
      → start ≡ shard_from (turn_of low wanted) n
      → size ≡ shard_to (turn_of low wanted) n - shard_from (turn_of low wanted) n + 1
      → upper low wanted (suc n) ≡ start + size
  unfolding shard_from shard_to turn_of
  next n start size low_enough at ranged = omega (arith, low_enough, at, ranged)

  sized :
      (n start size : ℕ)
      → shard_from (turn_of low wanted) n ≤ wanted
      → start ≡ shard_from (turn_of low wanted) n
      → size ≡ shard_to (turn_of low wanted) n - shard_from (turn_of low wanted) n + 1
      → size ≡ min max_request_blocks (suc wanted - start)
  unfolding shard_from shard_to turn_of
  sized n start size low_enough at ranged = omega (arith, low_enough, at, ranged)

  AreShards-Tiles :
      (n : ℕ) (xs : List Sent)
      → n ≤ (turn_of low wanted).shard_number
      → AreShards (turn_of low wanted) n xs
      → Tiles low wanted (upper low wanted n) xs
  AreShards-Tiles zero [] e h = refl
  AreShards-Tiles zero (x ∷ xs) e h = absurd h
  AreShards-Tiles (suc n) [] e h = absurd h
  AreShards-Tiles (suc n) (send_status id number ∷ xs) e h = absurd h
  AreShards-Tiles (suc n) (send_request id start size ∷ xs) e h =
      let at = shard_start n (omega (arith, e)) in
      (
        next n start size at.1 h.0 h.1,
        omega (arith, h.0, at.1),
        sized n start size at.1 h.0 h.1,
        subst (λ k. Tiles low wanted k xs) (sym at.0 ∙ sym h.0)
            (AreShards-Tiles n xs (omega (arith, e)) h.2),
      )

  no_more :
      (t : Turn) (n : ℕ) → more_shards t n ≡ false → (t.shard_number ≤ n) ⊎ (max_request_shards ≤ n)
  unfolding more_shards
  no_more t n e = elim (Bool-cases (ltb n t.shard_number)) [
    | inr last ↦ inl (ground (arith, last))
    | inl going ↦ inr (ground (arith, going, e))
  ]

  all_asked :
      (n : ℕ)
      → (turn_of low wanted).shard_number ≤ n
      → n ≤ (turn_of low wanted).shard_number
      → wanted < upper low wanted n
  unfolding turn_of
  all_asked zero e h = omega (arith, e)
  all_asked (suc n) e h = omega (arith, e)

  -- Where no shard is left, all blocks are asked for, or four shards are.
  at_end :
      (n : ℕ)
      → n ≤ (turn_of low wanted).shard_number
      → n ≤ max_request_shards
      → more_shards (turn_of low wanted) n ≡ false
      → (wanted < upper low wanted n) ⊎ (n ≡ 4)
  at_end n some bound e = elim (no_more (turn_of low wanted) n e) [
    | inl all ↦ inl (all_asked n all some)
    | inr four ↦ inr (omega (arith, four, bound))
  ]

  -- The next shard's last block, by the block after the shards before it.
  next_to :
      (n : ℕ)
      → more_shards (turn_of low wanted) n ≡ true
      → shard_to (turn_of low wanted) n ≡ min (upper low wanted n + max_request_blocks - 1) wanted
  unfolding more_shards shard_to turn_of
  next_to n e =
      ap (λ k. min (k + max_request_blocks - 1) wanted) (shard_start n (ground (arith, e))).0

  asked-TurnDone :
      (order : ℕ → List SyncPeerStatus) (s : Requested)
      → AskedAll order (turn_of low wanted) s
      → TurnDone order low wanted s.requests
  asked-TurnDone order s a =
      let counted = length-AreShards s.shard s.requests a.turn.shards in
      record {
        next = upper low wanted s.shard;
        tiles = AreShards-Tiles s.shard s.requests a.turn.in_number a.turn.shards;
        bound = omega (arith, counted, a.turn.in_bound);
        done = elim (Bool-cases (more_shards (turn_of low wanted) s.shard)) [
          | inr ended ↦ elim (at_end s.shard a.turn.in_number a.turn.in_bound ended) [
            | inl all ↦ inl all
            | inr four ↦ inr (inl (counted ∙ four))
          ]
          | inl going ↦ elim a.done [
            | inl ended ↦ absurd (cc (going, ended))
            | inr (pass, none_has) ↦
                inr
                  (inr (pass, subst (λ k. NoneHas k (order pass)) (next_to s.shard going) none_has))
          ]
        ];
      }

-- Whatever order the peers are asked in, the requests of a turn that fetches the blocks above a
-- height up to the last one wanted follow on each other: the first starts at the block above the
-- height, and each asks for 32 blocks, or for what is left up to the last one wanted. There are at
-- most four; and the turn ends only when all blocks are asked for, four requests are made, or a pass
-- over the peers found none that has the last block of the next range.
pub request_blocks-TurnDone :
    (order : ℕ → List SyncPeerStatus) (current_number wanted : ℕ)
    → TurnDone order current_number wanted (request_blocks order current_number wanted).requests
unfolding request_blocks
request_blocks-TurnDone order current_number wanted =
    asked-TurnDone current_number wanted order (request_blocks order current_number wanted) (
      ask_rounds-AskedAll order (turn_of current_number wanted) max_request_shards _ (omega arith)
        (record { shards = tt; in_number = omega arith; in_bound = omega arith }))
