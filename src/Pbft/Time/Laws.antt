-- ===== src/Pbft/Time/Laws.antt =====
-- How long a node waits before it asks for the next view.
use lab_bcos.Base.{ℕ, ◌^◌, ◌≤◌, ◌<◌, ◌≡◌, true, arith}
use lab_bcos.Pbft.Time.{
  TimeManager, max_change_cycle, update_change_cycle, change_view, timeout_interval, is_timeout,
}

-- `changeView` lets the time-out come at once: from then on it is due as soon as the clock, in
-- milliseconds and below 2 ^ 64, has reached one interval.
pub is_timeout-change_view :
    (t : TimeManager) (now : ℕ)
    → now < 2 ^ 64
    → timeout_interval t ≤ now
    → is_timeout (change_view t) now ≡ true
unfolding is_timeout change_view timeout_interval
is_timeout-change_view t now small due = ground arith

-- `updateChangeCycle` never takes the cycle beyond its greatest value, and moves it up by one below.
pub update_change_cycle_lem :
    (t : TimeManager)
    → t.change_cycle ≤ max_change_cycle
    → (t.change_cycle ≤ (update_change_cycle t).change_cycle)
      × ((update_change_cycle t).change_cycle ≤ max_change_cycle)
unfolding update_change_cycle
update_change_cycle_lem t h = (omega arith, omega arith)
