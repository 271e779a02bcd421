-- ===== src/Raft/Sealing.antt =====
-- libconsensus/raft/RaftSealer.h and .cpp: the sealer over the Raft engine. The header's encoding,
-- which gives the block its hash, is the parameter `to_block`.
use lab_bcos.Base.{ℕ, ◌≡◌, refl, Bool, false, Option, none, some, List, []}
use lab_bcos.Base.Tests.{if◌then◌else◌}
use lab_bcos.Pbft.Msg.{Block}
use lab_bcos.Sealer.{
  Sealer, SealingBlock, Answers, is_sealed, set_block, reset_block, reset_sealing_block,
}
use lab_bcos.Sealer as Base
use lab_bcos.Raft.Types.{Engine, World, Effect, is_block}
use lab_bcos.Raft.Roles.{switch_to_follower}
use lab_bcos.Raft.Commit.{should_seal, commit_start, commit_finish, reach_block_interval_time}
use lab_bcos.Raft.Commit.Handover.{switch_to_follower-commit_finish}

-- What the sealer asks of the engine, besides the rest of a round's answers.
unfoldable pub ask_engine : World → Engine → Answers → Answers
ask_engine w e answers = record answers {
  engine_should_seal = should_seal e;
  interval_at_load = reach_block_interval_time w e;
  interval_at_check = reach_block_interval_time w e;
}

-- `shouldSeal`.
unfoldable pub raft_should_seal : World → Engine → Answers → Sealer → Bool
raft_should_seal w e answers s = Base.should_seal (ask_engine w e answers) s

module _ (to_block : SealingBlock → Block) where
  -- `handleBlock` up to the wait in `commit`.
  unfoldable pub handle_block_start : Answers → Sealer → Engine → Sealer × Engine
  handle_block_start answers s e =
      let ready = set_block answers s in (ready, commit_start (to_block ready.sealing.block) e)

  -- The rest of `handleBlock`; `none` while `commit` waits, for its wait ends only once `commit_ready`
  -- holds.
  unfoldable pub handle_block_finish : World → Answers → Sealer → Engine → Option (Sealer × Engine)
  handle_block_finish w answers s e =
      let (t, done, flow) = commit_finish w (to_block s.sealing.block) e in
      if e.commit_ready then some (if done then s else reset_sealing_block answers s, t) else none

  -- The sealer's thread comes back from `handleBlock` with its block given up: the sealer has a new
  -- one with no transactions, the engine calls nothing more than `calls`, and no block waits in it.
  pub record GivenUp (calls : List Effect) (r : Option (Sealer × Engine)) : Type 0 where
    pub sealer : Sealer
    pub engine : Engine
    pub returns : r ≡ some (sealer, engine)
    pub unsealed : is_sealed sealer.sealing.block ≡ false
    pub no_transactions : sealer.sealing.block.txs ≡ []
    pub no_hashes : sealer.sealing.transaction_set ≡ []
    pub no_calls : engine.out ≡ calls
    pub nothing_waits : is_block engine.uncommitted ≡ false
    pub not_waiting : engine.waiting ≡ false

  -- Where the node steps down while the sealer waits for the commit of its block, the wait ends and
  -- the block is given up: the sealer starts a new one with no transactions, none is handed to the
  -- chain, and the engine keeps no block that waits.
  pub handle_block-switch_to_follower :
      (w later : World) (before after : Answers) (chief : ℕ) (s : Sealer) (e : Engine)
      → let (ready, waiting) = handle_block_start before s e in
        GivenUp e.out (handle_block_finish later after ready (switch_to_follower w chief waiting))
  unfolding handle_block_start handle_block_finish reset_sealing_block reset_block is_sealed
      commit_finish set_block
  handle_block-switch_to_follower w later before after chief s e =
      let ready = set_block before s in
      let b = to_block ready.sealing.block in
      let down = switch_to_follower w chief (commit_start b e) in
      let h = switch_to_follower-commit_finish w later chief b e in
      record {
        sealer = reset_sealing_block after ready;
        engine = (commit_finish later b down).0;
        returns = rw (h.0, h.1) refl;
        unsealed = refl;
        no_transactions = refl;
        no_hashes = refl;
        no_calls = h.3;
        nothing_waits = h.5;
        not_waiting = h.4;
      }
