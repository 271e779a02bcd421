-- ===== src/Raft/Roles.antt =====
-- The changes of role of `RaftEngine`, and the election time-out.
pub mod Times
use lab_bcos.Base.{ℕ, ◌+◌, ◌-◌, ◌*◌, ◌/◌, ◌%◌, ◌^◌, Bool, true, false}
use lab_bcos.Base.Tests.{ltb, leb, if◌then◌else◌}
use lab_bcos.Base.Int.{pos}
use lab_bcos.Raft.Types.{Engine, World, Role, no_block, invalid_index}
use Role.{leader, follower, candidate}

-- The time that `resetElectTimeout` draws, in `unsigned` arithmetic.
unfoldable pub draw_timeout : ℕ → ℕ → ℕ → ℕ
draw_timeout rand low high =
    (low + (rand % 100 * ((high + 2 ^ 32 - low) % 2 ^ 32)) % 2 ^ 32 / 100) % 2 ^ 32

-- `resetElectTimeout`.
unfoldable pub reset_elect_timeout : World → Engine → Engine
reset_elect_timeout w s = record s {
  elect_timeout = draw_timeout w.rand s.elect_min s.elect_max;
  last_elect_time = w.now;
}

-- `increaseElectTime`.
unfoldable pub increase_elect_time : Engine → Engine
increase_elect_time s =
    if ltb s.elect_max_boundary ((s.elect_max + s.increase_time) % 2 ^ 32)
    then record s { elect_max = s.elect_max_boundary }
    else record s {
      elect_max = (s.elect_max + s.increase_time) % 2 ^ 32;
      elect_min = (s.elect_min + s.increase_time) % 2 ^ 32;
    }

-- `recoverElectTime`.
unfoldable pub recover_elect_time : Engine → Engine
recover_elect_time s = record s { elect_max = s.elect_max_init; elect_min = s.elect_min_init }

-- The block of `initRaftEnv` that sets the times.
unfoldable pub init_times : World → Engine → Engine
init_times w s =
    let spread = (s.elect_max + 2 ^ 32 - s.elect_min) % 2 ^ 32 in
    record s {
      elect_min_init = s.elect_min;
      elect_max_init = s.elect_max;
      elect_min_boundary = s.elect_min;
      elect_max_boundary = (s.elect_max + spread / 2) % 2 ^ 32;
      last_elect_time = w.now;
      last_heartbeat_time = w.now;
      heartbeat_timeout = s.elect_min;
      heartbeat_interval = s.elect_min / 4;
      increase_time = spread / 4;
    }

-- `switchToLeader`.
unfoldable pub switch_to_leader : Engine → Engine
switch_to_leader s = recover_elect_time (record s { leader = s.idx; role = leader })

-- The part of `switchToFollower` under `m_mutex`.
unfoldable pub become_follower : ℕ → Engine → Engine
become_follower chief s = record s { leader = chief; role = follower; heartbeat_count = 0 }

-- The part of `switchToFollower` under `m_commitMutex`: a thread that waits in `commit` is woken,
-- and finds its block gone.
unfoldable pub release_waiter : Engine → Engine
release_waiter s =
    if s.waiting
    then record s { uncommitted = no_block; uncommitted_number = pos 0; commit_ready = true }
    else s

-- `switchToFollower`.
unfoldable pub switch_to_follower : World → ℕ → Engine → Engine
switch_to_follower w chief s = reset_elect_timeout w (release_waiter (become_follower chief s))

-- `switchToCandidate`.
unfoldable pub switch_to_candidate : World → Engine → Engine
switch_to_candidate w s =
    reset_elect_timeout w
      (record s { term = (s.term + 1) % 2 ^ 64; leader = invalid_index; role = candidate })

-- `checkElectTimeout` and `checkHeartbeatTimeout`.
unfoldable pub check_elect_timeout : World → Engine → Bool
check_elect_timeout w s = leb (s.last_elect_time + s.elect_timeout) w.now

unfoldable pub check_heartbeat_timeout : World → Engine → Bool
check_heartbeat_timeout w s = leb (s.last_heartbeat_reset + s.heartbeat_timeout) w.now
