-- ===== src/Pbft/VoteCache/Counts.antt =====
-- Looking votes up and counting them after a vote is added.
use lab_bcos.Base.{ℕ, suc, ◌≡◌, true, false, ◌&&◌, some, arith}
use lab_bcos.Base.Tests.{◌==◌, if◌then◌else◌}
use lab_bcos.Base.Dict.{insert, lookup-insert, length-insert}
use lab_bcos.Pbft.Msg.{Msg}
use lab_bcos.Pbft.VoteCache.{VoteCache, votes, vote, vote_count, vote_exists, add_vote}

pub votes-add_vote :
    (req : Msg) (cache : VoteCache) (hash : ℕ)
    → votes hash (add_vote req cache) ≡ (
        if req.block_hash == hash
        then insert req.sig req (votes req.block_hash cache)
        else votes hash cache)
unfolding votes add_vote
votes-add_vote req cache hash = rw lookup-insert (ground arith)

-- A vote that is added stands under its block and signature, in place of an older one there, and
-- all other votes are as before.
pub vote-add_vote :
    (req : Msg) (cache : VoteCache) (hash sig : ℕ)
    → vote hash sig (add_vote req cache)
      ≡ (if req.block_hash == hash && req.sig == sig then some req else vote hash sig cache)
unfolding vote
vote-add_vote req cache hash sig =
    rw votes-add_vote (ground (arith, lookup-insert req.sig sig req (votes req.block_hash cache)))

-- Adding a vote raises the count for its block by one if no vote with its signature was there, and
-- leaves every other count alone. The index of the signer plays no part.
pub vote_count-add_vote :
    (req : Msg) (cache : VoteCache) (hash : ℕ)
    → vote_count hash (add_vote req cache) ≡ (
        if req.block_hash == hash && (if vote_exists hash req.sig cache then false else true)
        then suc (vote_count hash cache)
        else vote_count hash cache)
unfolding vote_count vote_exists
vote_count-add_vote req cache hash =
    rw votes-add_vote (ground (arith, length-insert req.sig req (votes req.block_hash cache)))
