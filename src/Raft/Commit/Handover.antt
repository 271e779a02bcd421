-- ===== src/Raft/Commit/Handover.antt =====
-- What the sealer's thread is promised: a block is sealed only where the members are level, and a
-- node that steps down lets the thread go without a commit.
use lab_bcos.Base.{
  ℕ, suc, ◌+◌, ◌≤◌, ◌≡◌, ◌↔◌, refl, Bool, true, false, ◌&&◌, ◌||◌, none, some, [], ◌∷◌, arith,
}
use lab_bcos.Base.Tests.{ltb, ◌==◌, if◌then◌else◌}
use lab_bcos.Base.Dict.{Dict}
use lab_bcos.Pbft.Msg.{Block, Header}
use lab_bcos.Raft.Types.{Engine, World, Flow, BlockRef, to_u256, quorum, is_block, no_block}
use lab_bcos.Raft.Roles.{switch_to_follower, become_follower, release_waiter, reset_elect_timeout}
use lab_bcos.Raft.Vote.{is_leader}
use lab_bcos.Raft.Commit.{count_members, should_seal, commit_start, commit_finish}
use Flow.{returned}

-- Is some member ahead of a block, and how many are level with it?
abbrev pub is_ahead : Header → Dict BlockRef → Bool
is_ahead own [] = false
is_ahead own ((node, ref) ∷ rest) = ltb (to_u256 own.number) ref.height || is_ahead own rest

abbrev pub level : Header → Dict BlockRef → ℕ
level own [] = 0
level own ((node, ref) ∷ rest) =
    (if ref.height == to_u256 own.number && ref.block_hash == own.hash then 1 else 0)
    + level own rest

count_members_lem :
    (own : Header) (members : Dict BlockRef) (count : ℕ)
    → count_members own members count
      ≡ (if is_ahead own members then none else some (count + level own members))
unfolding count_members
count_members_lem own [] count = ground arith
count_members_lem own ((node, ref) ∷ rest) count =
    ground (arith, count_members_lem own rest count, count_members_lem own rest (suc count))

-- What `shouldSeal` asks for.
pub record CanSeal (s : Engine) : Type 0 where
  pub leads : is_leader s.role ≡ true
  pub configured : s.cfg_err ≡ false
  pub mines : s.is_miner ≡ true
  pub none_ahead : is_ahead s.highest s.member_block ≡ false
  pub enough_level : quorum s ≤ suc (level s.highest s.member_block)
  pub nothing_waits : is_block s.uncommitted ≡ false

-- A node seals exactly when it leads, is configured as a miner, knows of no member with a higher
-- block, is level with enough members for a quorum with itself, and no block waits for its commit.
pub should_seal_iff : (s : Engine) → (should_seal s ≡ true) ↔ CanSeal s
unfolding should_seal
should_seal_iff s =
    let counted = count_members_lem s.highest s.member_block 1 in
    (
      λ h. record {
        leads = ground arith;
        configured = ground arith;
        mines = ground arith;
        none_ahead = ground arith;
        enough_level = ground arith;
        nothing_waits = ground arith;
      },
      λ c.
          ground
            (arith, c.leads, c.configured, c.mines, c.none_ahead, c.enough_level, c.nothing_waits),
    )

-- Where the sealer's thread waits with a block and the node steps down, the thread is let go:
-- `commit` then returns false, hands nothing to the chain, and nothing waits any more.
pub switch_to_follower-commit_finish :
    (w later : World) (chief : ℕ) (b : Block) (s : Engine)
    → let down = switch_to_follower w chief (commit_start b s) in
      let (t, done, flow) = commit_finish later b down in
      (down.commit_ready ≡ true)
      × (done ≡ false)
      × (flow ≡ returned)
      × (t.out ≡ s.out)
      × (t.waiting ≡ false)
      × (is_block t.uncommitted ≡ false)
unfolding switch_to_follower become_follower release_waiter reset_elect_timeout commit_start
    commit_finish is_block no_block
switch_to_follower-commit_finish w later chief b s = (refl, refl, refl, refl, refl, refl)
