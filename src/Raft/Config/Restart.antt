-- ===== src/Raft/Config/Restart.antt =====
-- When `resetConfig` starts the node's role anew, and what that means for a leader that commits in
-- its own thread.
use lab_bcos.Base.{
  ℕ, ◌≡◌, ◌↔◌, refl, Bool, true, false, not, ◌||◌, Option, none, some, List, arith, inl, inr,
}
use lab_bcos.Base.Tests.{◌==◌, Bool-cases, Option-cases}
use lab_bcos.Base.Lists.{length}
use lab_bcos.Base.Dict.{is_some}
use lab_bcos.Pbft.Msg.{Block}
use lab_bcos.Raft.Types.{Engine, World, Flow, Effect, emit}
use lab_bcos.Raft.Config.{
  get_index_by_miner, restart_role, find_place, reset_config, update_miner_list,
}
use lab_bcos.Raft.Send.Frame.{with_out}
use lab_bcos.Raft.Save.{check_block_valid, commit_block, check_and_save, check_and_execute}
use lab_bcos.Raft.Heartbeat.{commit_self, report_self}
use Effect.{notes_sealing}
use Flow.{returned, thrown, deadlocked}

-- The node is a miner, but the number of miners or its index among them is another than before.
abbrev moved : Engine → Option ℕ → Bool
moved s none = false
moved s (some i) = not (length s.miner_list == s.node_num) || not (i == s.idx)

unfoldable pub has_moved : World → Engine → Bool
has_moved w s = let t = update_miner_list w s in moved t (get_index_by_miner t t.public_key)

pub reset_config-deadlocked :
    (w : World) (s : Engine) → ((reset_config true w s).1 ≡ deadlocked) ↔ (has_moved w s ≡ true)
unfolding reset_config has_moved find_place restart_role
reset_config-deadlocked w s = ground arith

pub commit_block_frame :
    (w : World) (s : Engine) (sealing : Block × ℕ)
    → commit_block w s sealing ≡ with_out (commit_block w s sealing).out s
unfolding commit_block emit
commit_block_frame w s (b, context) = ground arith

pub update_miner_list-with_out :
    (w : World) (s : Engine) (calls : List Effect)
    → update_miner_list w (with_out calls s) ≡ with_out calls (update_miner_list w s)
unfolding update_miner_list
update_miner_list-with_out w s calls = ground arith

has_moved-with_out :
    (w : World) (s : Engine) (calls : List Effect) → has_moved w (with_out calls s) ≡ has_moved w s
unfolding has_moved get_index_by_miner
has_moved-with_out w s calls = rw (update_miner_list-with_out w s calls) refl

-- What `has_moved` reads stays when a block is handed to the chain.
has_moved-commit_block :
    (w : World) (s : Engine) (e : Effect) (sealing : Block × ℕ)
    → has_moved w (commit_block w (emit e s) sealing) ≡ has_moved w s
unfolding emit
has_moved-commit_block w s e sealing =
    rw (commit_block_frame w (emit e s) sealing) (has_moved-with_out w s _)

check_and_execute-deadlocked :
    (w : World) (s : Engine) (b : Block)
    → ((check_and_execute true w s b).2 ≡ deadlocked) ↔ (
        (check_block_valid w s b ≡ true)
        × (is_some (w.execute_block b) ≡ true)
        × (has_moved w s ≡ true))
unfolding check_and_execute check_and_save
check_and_execute-deadlocked w s b = elim (Bool-cases (check_block_valid w s b)) [
  | inl valid ↦ (elim (Option-cases (w.execute_block b)) [
    | inl e ↦ rw (valid, e) (ground arith)
    | inr (sealing, e) ↦
        let same = has_moved-commit_block w s (notes_sealing b.header.number) sealing in
        let stuck =
          reset_config-deadlocked w
            (commit_block w (emit (notes_sealing b.header.number) s) sealing) in
        rw (valid, e) (ground (arith, same, stuck))
  ])
  | inr refused ↦ rw refused (ground arith)
]

report_self-deadlocked :
    (w : World) (r : Engine × Bool × Flow) → ((report_self w r).1 ≡ deadlocked) ↔ (r.2 ≡ deadlocked)
unfolding report_self
report_self-deadlocked w (t, done, returned) = ground arith
report_self-deadlocked w (t, done, thrown) = ground arith
report_self-deadlocked w (t, done, deadlocked) = ground arith

-- A leader that commits in its own thread waits forever for the mutex that it holds exactly when
-- its block is valid and executes, and the number of miners or the node's index among them has
-- changed.
pub commit_self-deadlocked :
    (w : World) (s : Engine)
    → ((commit_self w s).1 ≡ deadlocked) ↔ (
        (check_block_valid w s s.uncommitted ≡ true)
        × (is_some (w.execute_block s.uncommitted) ≡ true)
        × (has_moved w s ≡ true))
unfolding commit_self
commit_self-deadlocked w s =
    let outer = report_self-deadlocked w (check_and_execute true w s s.uncommitted) in
    let inner = check_and_execute-deadlocked w s s.uncommitted in
    (λ h. inner.0 (outer.0 h), λ h. outer.1 (inner.1 h))
