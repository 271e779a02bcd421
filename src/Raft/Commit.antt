-- ===== src/Raft/Commit.antt =====
-- What the thread of the sealer calls: `shouldSeal`, `commit` and `reachBlockIntervalTime` of
-- `RaftEngine`. `commit` waits in the middle, so that it is two steps.
pub mod Handover
use lab_bcos.Base.{
  ℕ, suc, ◌+◌, ◌-◌, ◌%◌, ◌^◌, Bool, true, false, not, ◌&&◌, ◌||◌, Option, none, some, ◌∷◌, [],
}
use lab_bcos.Base.Tests.{ltb, leb, ◌==◌, if◌then◌else◌}
use lab_bcos.Base.Dict.{Dict}
use lab_bcos.Base.Int.{pos}
use lab_bcos.Pbft.Msg.{Block, Header}
use lab_bcos.Raft.Types.{Engine, World, Flow, BlockRef, to_u256, quorum, is_block, no_block}
use lab_bcos.Raft.Vote.{is_leader}
use lab_bcos.Raft.Save.{check_and_execute}
use lab_bcos.Sealer.{Sealer, Answers, reset_sealing_block, set_block}
use lab_bcos.Sealer as SealerBase
use Flow.{returned}

-- The loop of `shouldSeal`: the count of members at the leader's own block, itself included, or
-- `none` where a member is ahead.
unfoldable pub count_members : Header → Dict BlockRef → ℕ → Option ℕ
count_members own [] count = some count
count_members own ((node, ref) ∷ rest) count =
    let same = ref.height == to_u256 own.number && ref.block_hash == own.hash in
    let later = count_members own rest (if same then suc count else count) in
    if ltb (to_u256 own.number) ref.height then none else later

-- `shouldSeal`.
unfoldable pub should_seal : Engine → Bool
should_seal s =
    if not (is_leader s.role) || (s.cfg_err || not s.is_miner)
    then false
    else elim (count_members s.highest s.member_block 1) [
      | none ↦ false
      | some count ↦ leb (quorum s) count && not (is_block s.uncommitted)
    ]

-- `commit` up to its wait.
unfoldable pub commit_start : Block → Engine → Engine
commit_start b s = record s {
  uncommitted = b;
  uncommitted_number = s.consensus_number;
  waiting = true;
  commit_ready = false;
}

-- `commit` after its wait, which ends only while `commit_ready` holds: whether the block was
-- executed and handed to the chain.
unfoldable pub commit_finish : World → Block → Engine → Engine × Bool × Flow
commit_finish w b s =
    let woken = record s { commit_ready = false; waiting = false } in
    let cleared = record woken { uncommitted = no_block; uncommitted_number = pos 0 } in
    if not (is_block s.uncommitted)
    then (woken, false, returned)
    else if not (is_leader s.role)
    then (cleared, false, returned)
    else check_and_execute false w cleared b

-- `reachBlockIntervalTime`: `c_intervalBlockTime` is 1000, and the difference of the times wraps.
unfoldable pub reach_block_interval_time : World → Engine → Bool
reach_block_interval_time w s = leb 1000 ((w.now + 2 ^ 64 - s.last_block_time) % 2 ^ 64)
