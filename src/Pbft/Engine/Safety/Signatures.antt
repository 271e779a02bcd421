-- ===== src/Pbft/Engine/Safety/Signatures.antt =====
-- Where the signatures of a committed block come from.
use lab_bcos.Base.{
  ℕ, ◌≡◌, refl, subst, true, false, Option, none, some, List, [], ◌∷◌, map, inl, inr,
}
use lab_bcos.Base.Tests.{◌==◌, ==_iff, ==_refl, Bool-cases}
use lab_bcos.Base.Dict.{Dict, lookup, IsMap}
use lab_bcos.Pbft.Msg.{Block, Msg}
use lab_bcos.Pbft.VoteCache.{VoteCache, or_empty, votes, vote}
use lab_bcos.Pbft.VoteCache.Filed.{Filed}
use lab_bcos.Pbft.VoteCache.ByHash.{VoteKeys, IsVoteCache, or_empty-Filed}
use lab_bcos.Pbft.ReqCache.{ReqCache, generate_and_set_sig_list}

-- Each pair is the index and the signature of a commit vote on the hash.
abbrev pub AllVoted : ℕ → VoteCache → List (ℕ × ℕ) → Type 0
AllVoted hash cache [] = Unit
AllVoted hash cache ((i, sig) ∷ rest) =
    ((m : Msg) × (vote hash sig cache ≡ some m)
      × (m.idx ≡ i)
      × (m.block_hash ≡ hash)
      × (m.sig ≡ sig))
    × AllVoted hash cache rest

lookup_tail :
    (k j : ℕ) (m n : Msg) (d : Dict Msg)
    → lookup j d ≡ none
    → lookup k d ≡ some m
    → lookup k ((j, n) ∷ d) ≡ some m
unfolding lookup
lookup_tail k j m n d absent there = elim (Bool-cases (j == k)) [
  | inl e ↦ absurd (cc (subst (λ x. lookup x d ≡ none) ((==_iff j k).0 e) absent, there))
  | inr e ↦ rw e there
]

-- The pairs of a part `d` of a map, each of which the map `whole` holds.
entries_voted :
    (hash : ℕ) (cache : VoteCache) (d : Dict Msg)
    → ((k : ℕ) (m : Msg) → lookup k d ≡ some m → vote hash k cache ≡ some m)
    → IsMap d
    → Filed (VoteKeys hash) d
    → AllVoted hash cache (map (λ e. (e.1.idx, e.0)) d)
entries_voted hash cache [] sub keys f = tt
entries_voted hash cache ((k, m) ∷ d) sub keys f = (
  (m, sub k m (unfold lookup in rw ==_refl), refl, f.0.0, f.0.1),
  entries_voted hash cache d (λ j n e. sub j n (lookup_tail j k n m d keys.0 e)) keys.1 f.1,
)

unsigned_false :
    (c : ReqCache) (b : Block)
    → lookup c.prepare_cache.block_hash c.commit_cache ≡ none
    → (generate_and_set_sig_list c b).1 ≡ false
unfolding generate_and_set_sig_list
unsigned_false c b e = rw (e, generate_and_set_sig_list) refl

-- Each pair that `generateAndSetSigList` puts into a block's signature list is the index and the
-- signature of a commit vote for the prepared block, filed under that signature, where the commit
-- votes are well filed and the function returns `true`.
pub generate_and_set_sig_list-AllVoted :
    (c : ReqCache) (b : Block)
    → IsVoteCache c.commit_cache
    → (generate_and_set_sig_list c b).1 ≡ true
    → AllVoted c.prepare_cache.block_hash c.commit_cache (generate_and_set_sig_list c b).0.sig_list
unfolding vote votes
generate_and_set_sig_list-AllVoted c b valid h =
    split (lookup c.prepare_cache.block_hash c.commit_cache) refl
  where
    hash : ℕ
    hash = c.prepare_cache.block_hash

    split :
        (o : Option (Dict Msg))
        → lookup hash c.commit_cache ≡ o
        → AllVoted hash c.commit_cache (generate_and_set_sig_list c b).0.sig_list
    split none e = absurd (cc (unsigned_false c b e, h))
    split (some d) e =
        let (keys, filed) =
          subst (λ o. IsMap (or_empty o) × Filed (VoteKeys hash) (or_empty o)) e
            (or_empty-Filed hash c.commit_cache valid.filed) in
        unfold generate_and_set_sig_list in
        rw (e, generate_and_set_sig_list)
          (entries_voted hash c.commit_cache d (λ k m found. rw e found) keys filed)
