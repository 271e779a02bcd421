-- ===== src/Pbft/Time.antt =====
-- libconsensus/pbft/TimeManager.h. Times are milliseconds in a `uint64_t`. The average execution
-- time, a `float` that only `calculateMaxPackTxNum` reads, is left out.
pub mod Laws
use lab_bcos.Base.{ℕ, ◌+◌, ◌-◌, ◌*◌, ◌/◌, ◌%◌, ◌^◌, Bool, min, max}
use lab_bcos.Base.Tests.{leb}

pub record TimeManager : Type 0 where
  pub last_exec_finish_time : ℕ
  pub view_timeout : ℕ
  pub change_cycle : ℕ
  pub last_sign_time : ℕ
  pub last_consensus_time : ℕ
  pub interval_block_time : ℕ
  pub last_garbage_collection : ℕ

abbrev pub max_change_cycle : ℕ
max_change_cycle = 20

abbrev pub collect_interval : ℕ
collect_interval = 60

unfoldable pub init_timer_manager : TimeManager → ℕ → ℕ → TimeManager
init_timer_manager t now view_timeout = record t {
  last_exec_finish_time = now;
  last_consensus_time = now;
  last_sign_time = 0;
  view_timeout = view_timeout;
  change_cycle = 0;
  last_garbage_collection = now;
}

unfoldable pub change_view : TimeManager → TimeManager
change_view t = record t { last_consensus_time = 0; last_sign_time = 0 }

unfoldable pub update_change_cycle : TimeManager → TimeManager
update_change_cycle t = record t { change_cycle = min (t.change_cycle + 1) max_change_cycle }

-- `(uint64_t)(m_viewTimeout * std::pow(1.5, m_changeCycle))`. The double is exact while the
-- product stays below 2 ^ 53, which a time-out below 2 ^ 21 ms gives for every cycle.
unfoldable pub timeout_interval : TimeManager → ℕ
timeout_interval t = t.view_timeout * 3 ^ t.change_cycle / 2 ^ t.change_cycle

unfoldable pub is_timeout : TimeManager → ℕ → Bool
is_timeout t now =
    let last = max t.last_consensus_time t.last_sign_time in
    leb (timeout_interval t) ((now + 2 ^ 64 - last) % 2 ^ 64)
