-- ===== src/Raft/System/Coherent.antt =====
-- In every state of a node, the leader it names fits its role, and the flags by which the sealer's
-- thread waits fit that thread.
pub mod Packets
pub mod Rounds
pub mod Always
use lab_bcos.Base.{
  ℕ, ◌≡◌, refl, sym, ap, ◌∙◌, Bool, true, false, not, ◌||◌, Option, none, some, List, [], ◌∷◌, inl,
  inr, arith,
}
use lab_bcos.Base.Tests.{◌==◌, if◌then◌else◌, Bool-cases, Option-cases}
use lab_bcos.Base.Dict.{Dict, is_some}
use lab_bcos.Pbft.Msg.{Block}
use lab_bcos.Raft.Types.{
  Engine, World, Role, Flow, Effect, Payload, Packet, VoteReq, VoteResp, VoteState, Heartbeat,
  HeartbeatResp, emit, invalid_index,
}
use lab_bcos.Raft.Roles.{
  reset_elect_timeout, increase_elect_time, recover_elect_time, switch_to_leader, become_follower,
  release_waiter, switch_to_follower, switch_to_candidate,
}
use lab_bcos.Raft.Config.{
  restart_role, find_place, set_counts, reset_config, update_miner_list, get_index_by_miner,
}
use lab_bcos.Raft.Config.Restart.{commit_block_frame}
use lab_bcos.Base.Lists.{length}
use lab_bcos.Base.Int.{pos, eqz, ltz}
use lab_bcos.Raft.Save.{
  check_and_save, check_and_execute, accept_block, report_block, commit_block, check_block_valid,
}
use lab_bcos.Raft.Vote.{is_leader}
use lab_bcos.Raft.Heartbeat.{is_candidate}
use Effect.{notes_sealing}

-- The flags: `waiting` is set exactly while the sealer waits, and `commit_ready` only then.
pub record IsWoken (p : Bool) (s : Engine) : Type 0 where
  pub waiting : s.waiting ≡ p
  pub ready : s.commit_ready ≡ true → p ≡ true

-- A leader names itself as the leader, and a candidate nobody.
pub record IsCoherent (p : Bool) (s : Engine) : Type 0 where
  pub waiting : s.waiting ≡ p
  pub ready : s.commit_ready ≡ true → p ≡ true
  pub leads : is_leader s.role ≡ true → s.leader ≡ s.idx
  pub stands : is_candidate s.role ≡ true → s.leader ≡ invalid_index

module _ {p : Bool} {s : Engine} where
  pub woken : IsCoherent p s → IsWoken p s
  woken c = record { waiting = c.waiting; ready = c.ready }

  pub switch_to_leader-IsCoherent : IsWoken p s → IsCoherent p (switch_to_leader s)
  unfolding switch_to_leader recover_elect_time is_candidate
  switch_to_leader-IsCoherent c = ground arith

  become_follower-IsCoherent : (chief : ℕ) → IsWoken p s → IsCoherent p (become_follower chief s)
  unfolding become_follower is_leader is_candidate
  become_follower-IsCoherent chief c = ground arith

  pub switch_to_follower-IsCoherent :
      (w : World) (chief : ℕ) → IsWoken p s → IsCoherent p (switch_to_follower w chief s)
  unfolding switch_to_follower release_waiter become_follower reset_elect_timeout is_leader
      is_candidate
  switch_to_follower-IsCoherent w chief c = ground arith

  pub switch_to_candidate-IsCoherent :
      (w : World) → IsWoken p s → IsCoherent p (switch_to_candidate w s)
  unfolding switch_to_candidate reset_elect_timeout is_leader
  switch_to_candidate-IsCoherent w c = ground arith

  update_miner_list-IsCoherent : (w : World) → IsCoherent p s → IsCoherent p (update_miner_list w s)
  unfolding update_miner_list
  update_miner_list-IsCoherent w c = ground arith

IsWoken-set_counts : {p : Bool} {s : Engine} (n i : ℕ) → IsWoken p s → IsWoken p (set_counts n i s)
unfolding set_counts
IsWoken-set_counts n i c = ground arith

restart_role-IsCoherent :
    {p : Bool} {s : Engine} (held : Bool) (w : World)
    → IsWoken p s
    → IsCoherent p (restart_role held w s).0
unfolding restart_role reset_elect_timeout
restart_role-IsCoherent true w c = become_follower-IsCoherent invalid_index c
restart_role-IsCoherent false w c = ground (arith, switch_to_follower-IsCoherent w invalid_index c)

-- The fields that `IsCoherent` is about.
pub record SameSeat (s t : Engine) : Type 0 where
  pub waiting : t.waiting ≡ s.waiting
  pub ready : t.commit_ready ≡ s.commit_ready
  pub role : t.role ≡ s.role
  pub leader : t.leader ≡ s.leader
  pub idx : t.idx ≡ s.idx

pub SameSeat-IsCoherent : {p : Bool} {s t : Engine} → SameSeat s t → IsCoherent p s → IsCoherent p t
SameSeat-IsCoherent e c =
    ground
      (arith, e.waiting, e.ready, e.role, e.leader, e.idx, c.waiting, c.ready, c.leads, c.stands)

find_place-IsCoherent :
    {p : Bool} {s : Engine} (held : Bool) (w : World) (i : ℕ)
    → IsCoherent p s
    → IsCoherent p (find_place held w i s).0
unfolding find_place
find_place-IsCoherent {s} held w i c =
    let found = record s { is_miner = true; cfg_err = false } in
    let restarted = restart_role-IsCoherent {s = set_counts (length s.miner_list) i found} held w (
      IsWoken-set_counts {s = found} (length s.miner_list) i
        (record { waiting = c.waiting; ready = c.ready })) in
    elim (Bool-cases (not (length s.miner_list == s.node_num) || not (i == s.idx))) [
      | inl new ↦ rw new restarted
      | inr same ↦
          rw same
            (record { waiting = c.waiting; ready = c.ready; leads = c.leads; stands = c.stands })
    ]

pub reset_config-IsCoherent :
    {p : Bool} {s : Engine} (held : Bool) (w : World)
    → IsCoherent p s
    → IsCoherent p (reset_config held w s).0
unfolding reset_config
reset_config-IsCoherent {s} held w c =
    let t = update_miner_list w s in
    let d = update_miner_list-IsCoherent w c in
    elim (Option-cases (get_index_by_miner t t.public_key)) [
      | inl lost ↦
          rw (lost, reset_config)
            (record { waiting = d.waiting; ready = d.ready; leads = d.leads; stands = d.stands })
      | inr (i, found) ↦ rw (found, reset_config) (find_place-IsCoherent held w i d)
    ]

commit_block-IsCoherent :
    {p : Bool} {s : Engine} (w : World) (sealing : Block × ℕ)
    → IsCoherent p s
    → IsCoherent p (commit_block w s sealing)
commit_block-IsCoherent {s} w sealing c =
    rw (commit_block_frame w s sealing)
      (record { waiting = c.waiting; ready = c.ready; leads = c.leads; stands = c.stands })

pub check_and_execute-IsCoherent :
    {p : Bool} {s : Engine} (held : Bool) (w : World) (b : Block)
    → IsCoherent p s
    → IsCoherent p (check_and_execute held w s b).0
unfolding check_and_execute check_and_save emit
check_and_execute-IsCoherent {p} {s} held w b c =
    let noted : IsCoherent p (emit (notes_sealing b.header.number) s) = record {
      waiting = c.waiting;
      ready = c.ready;
      leads = c.leads;
      stands = c.stands;
    } in
    elim (Bool-cases (check_block_valid w s b)) [
      | inr refused ↦ rw refused c
      | inl valid ↦ rw valid (elim (Option-cases (w.execute_block b)) [
        | inl e ↦ rw e noted
        | inr (sealing, e) ↦
            rw e (reset_config-IsCoherent held w (commit_block-IsCoherent w sealing noted))
      ])
    ]

pub report_block-IsCoherent :
    {p : Bool} {s : Engine} (w : World) (b : Block)
    → IsCoherent p s
    → IsCoherent p (report_block w s b)
unfolding report_block accept_block
report_block-IsCoherent {s} w b c =
    elim (Bool-cases (eqz w.chain_number (pos 0) || ltz s.highest.number b.header.number)) [
      | inr old ↦ rw old c
      | inl new ↦ rw new (
          reset_config-IsCoherent false w
            (record { waiting = c.waiting; ready = c.ready; leads = c.leads; stands = c.stands }))
    ]
