-- ===== src/Raft/Vote/Election.antt =====
-- Two candidates cannot both win an election: `wonElection` asks for more than half of the miners.
use lab_bcos.Base.{ℕ, suc, ◌+◌, ◌*◌, ◌^◌, ◌≤◌, ◌<◌, ◌≡◌, Bool, true, List, [], ◌∷◌, inl, inr, arith}
use lab_bcos.Base.Tests.{◌==◌, ==_iff, if◌then◌else◌, Bool-cases}
use lab_bcos.Base.Lists.{length}
use lab_bcos.Raft.Types.{Engine, quorum}
use lab_bcos.Raft.Config.{set_counts}
use lab_bcos.Raft.Vote.{is_majority_vote}

-- How many of the nodes voted for a candidate, when each voted for the entry at its place.
unfoldable pub tally : ℕ → List ℕ → ℕ
tally a [] = 0
tally a (x ∷ xs) = if x == a then suc (tally a xs) else tally a xs

tally-disjoint :
    (a b : ℕ) (xs : List ℕ) → (a == b) ≡ Bool.false → tally a xs + tally b xs ≤ length xs
unfolding tally
tally-disjoint a b [] h = omega arith
tally-disjoint a b (x ∷ xs) h =
    ground (arith, ==_iff x a, ==_iff x b, ==_iff a b, tally-disjoint a b xs h)

-- More than half of the miners make a quorum.
quorum_half : (n i : ℕ) (s : Engine) → 0 < n → n < 2 ^ 16 → n < 2 * quorum (set_counts n i s)
unfolding quorum set_counts
quorum_half n i s some_node few = omega arith

-- After `resetConfig` has counted the miners (at least one and fewer than 2 ^ 16), two candidates
-- that each have a majority of votes, where every miner has one vote, are the same.
pub one_winner :
    (n i : ℕ) (s : Engine) (ballots : List ℕ) (a b : ℕ)
    → 0 < n
    → n < 2 ^ 16
    → length ballots ≡ n
    → is_majority_vote (set_counts n i s) (tally a ballots) ≡ true
    → is_majority_vote (set_counts n i s) (tally b ballots) ≡ true
    → a ≡ b
unfolding is_majority_vote
one_winner n i s ballots a b some_node few all won_a won_b = elim (Bool-cases (a == b)) [
  | inl same ↦ (==_iff a b).0 same
  | inr other ↦ absurd (ground (arith, quorum_half n i s, tally-disjoint a b ballots other))
]
