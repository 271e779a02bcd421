-- ===== src/Raft/Save.antt =====
-- Checking, executing and saving a block, and `reportBlock` of `RaftEngine`.
use lab_bcos.Base.{ℕ, Bool, true, false, not, ◌&&◌, ◌||◌, none, some}
use lab_bcos.Base.Tests.{ltb, if◌then◌else◌}
use lab_bcos.Base.Dict.{erase}
use lab_bcos.Base.Int.{pos, ltz, lez, eqz, inc64}
use lab_bcos.Pbft.Msg.{Block}
use lab_bcos.Pbft.Engine.Check.{same_list}
use lab_bcos.Raft.Types.{Engine, World, Flow, Effect, emit, no_block}
use lab_bcos.Raft.Config.{reset_config}
use Effect.{notes_sealing, commits, drops_transactions, reports_bad_block}
use Flow.{returned}

-- `checkBlockValid` with `checkMinerList`: `true` where nothing is thrown.
unfoldable pub check_block_valid : World → Engine → Block → Bool
check_block_valid w s b =
    let h = b.header in
    not (ltb w.now h.timestamp && not s.allow_future_blocks)
    && (not (lez h.number w.chain_number)
        && (not (w.block_exists h.hash)
            && (w.block_exists h.parent_hash && same_list s.miner_list h.sealer_list)))

-- `commitBlock`, and what its result leads to.
unfoldable pub commit_block : World → Engine → Block × ℕ → Engine
commit_block w s (b, context) =
    let t = emit (commits b context) s in
    if w.commit_block b context then emit (drops_transactions b) t else emit (reports_bad_block b) t

-- `checkAndSave`.
unfoldable pub check_and_save : Bool → World → Engine → Block × ℕ → Engine × Flow
check_and_save held w s sealing = reset_config held w (commit_block w s sealing)

-- `checkAndExecute` with `execBlock`; the result says whether nothing was thrown.
unfoldable pub check_and_execute : Bool → World → Engine → Block → Engine × Bool × Flow
check_and_execute held w s b =
    let noted = emit (notes_sealing b.header.number) s in
    if not (check_block_valid w s b) then (s, false, returned) else elim (w.execute_block b) [
      | none ↦ (noted, false, returned)
      | some sealing ↦ (let (t, flow) = check_and_save held w noted sealing in (t, true, flow))
    ]

-- What `reportBlock` does with a block that is newer, up to `resetConfig`.
unfoldable pub accept_block : World → Engine → Engine
accept_block w s = record s {
  last_block_time = w.now;
  highest = w.chain_head;
  finger_print = erase s.uncommitted.header.hash s.finger_print;
  uncommitted = no_block;
  uncommitted_number = pos 0;
  consensus_number =
      if lez s.consensus_number w.chain_head.number
      then inc64 w.chain_head.number
      else s.consensus_number;
}

-- `reportBlock`.
unfoldable pub report_block : World → Engine → Block → Engine
report_block w s b =
    if eqz w.chain_number (pos 0) || ltz s.highest.number b.header.number
    then (reset_config false w (accept_block w s)).0
    else s
