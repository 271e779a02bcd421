-- ===== src/Raft/Roles/Times.antt =====
-- The bounds of the election time-out.
use lab_bcos.Base.{ℕ, ◌+◌, ◌-◌, ◌*◌, ◌/◌, ◌%◌, ◌^◌, ◌≤◌, ◌<◌, ◌≡◌, refl, List, [], ◌∷◌, arith}
use lab_bcos.Raft.Types.{Engine, World}
use lab_bcos.Raft.Roles.{
  draw_timeout, reset_elect_timeout, increase_elect_time, recover_elect_time, init_times,
}

part_le : (r d : ℕ) → r < 100 → r * d ≤ 99 * d
part_le r d small = grind arith

scaled_bounds :
    (r d low : ℕ)
    → r < 100
    → 100 * (low + d) < 2 ^ 32
    → (low ≤ (low + (r * d) % 2 ^ 32 / 100) % 2 ^ 32)
      × ((low + (r * d) % 2 ^ 32 / 100) % 2 ^ 32 ≤ low + d)
scaled_bounds r d low small fits = omega (arith, part_le r d small)

-- The time-out that is drawn lies between the two times.
draw_timeout_bounds :
    (rand low high : ℕ)
    → low ≤ high
    → 100 * high < 2 ^ 32
    → (low ≤ draw_timeout rand low high) × (draw_timeout rand low high ≤ high)
unfolding draw_timeout
draw_timeout_bounds rand low high order fits =
    let spread : (high + 2 ^ 32 - low) % 2 ^ 32 ≡ high - low = omega arith in
    rw spread
      (omega (arith, scaled_bounds (rand % 100) (high - low) low (omega arith) (omega arith)))

-- The times that the engine draws between stay in order, and between two bounds.
pub record HasTimes (low high : ℕ) (s : Engine) : Type 0 where
  pub low_eq : s.elect_min_init ≡ low
  pub high_eq : s.elect_max_boundary ≡ high
  pub start_order : s.elect_min_init ≤ s.elect_max_init
  pub start_bound : s.elect_max_init ≤ s.elect_max_boundary
  pub above : s.elect_min_init ≤ s.elect_min
  pub order : s.elect_min ≤ s.elect_max
  pub bound : s.elect_max ≤ s.elect_max_boundary
  pub fits : 100 * s.elect_max_boundary < 2 ^ 32
  pub small_step : s.increase_time < 2 ^ 31

-- The greatest time-out that `initRaftEnv` allows for.
abbrev pub boundary : Engine → ℕ
boundary s = s.elect_max + (s.elect_max - s.elect_min) / 2

init_times-HasTimes :
    (w : World) (s : Engine)
    → s.elect_min ≤ s.elect_max
    → 200 * s.elect_max < 2 ^ 32
    → HasTimes s.elect_min (boundary s) (init_times w s)
unfolding init_times
init_times-HasTimes w s order fits =
    let spread : (s.elect_max + 2 ^ 32 - s.elect_min) % 2 ^ 32 ≡ s.elect_max - s.elect_min =
      omega arith in
    rw spread (record {
      low_eq = refl;
      high_eq = omega arith;
      start_order = order;
      start_bound = omega arith;
      above = omega arith;
      order = order;
      bound = omega arith;
      fits = omega arith;
      small_step = omega arith;
    })

-- What the engine does to the times while it runs.
pub data TimeOp : Type 0 where
  increase recover : TimeOp
  reset : World → TimeOp

unfoldable pub run_times : List TimeOp → Engine → Engine
run_times [] s = s
run_times (increase ∷ ops) s = run_times ops (increase_elect_time s)
run_times (recover ∷ ops) s = run_times ops (recover_elect_time s)
run_times (reset w ∷ ops) s = run_times ops (reset_elect_timeout w s)

module _ {low high : ℕ} {s : Engine} where
  increase-HasTimes : HasTimes low high s → HasTimes low high (increase_elect_time s)
  unfolding increase_elect_time
  increase-HasTimes h = ground arith

  recover-HasTimes : HasTimes low high s → HasTimes low high (recover_elect_time s)
  unfolding recover_elect_time
  recover-HasTimes h = ground arith

  reset-HasTimes : (w : World) → HasTimes low high s → HasTimes low high (reset_elect_timeout w s)
  unfolding reset_elect_timeout
  reset-HasTimes w h = ground arith

run_times-HasTimes :
    {low high : ℕ} (ops : List TimeOp) (s : Engine)
    → HasTimes low high s
    → HasTimes low high (run_times ops s)
unfolding run_times
run_times-HasTimes [] s h = h
run_times-HasTimes (increase ∷ ops) s h = run_times-HasTimes ops _ (increase-HasTimes h)
run_times-HasTimes (recover ∷ ops) s h = run_times-HasTimes ops _ (recover-HasTimes h)
run_times-HasTimes (reset w ∷ ops) s h = run_times-HasTimes ops _ (reset-HasTimes w h)

-- However often the times were increased and recovered since `initRaftEnv` set them, the time-out
-- that `resetElectTimeout` draws is at least the least one of the configuration, and at most half
-- the configured range above the greatest; here 200 times the greatest fits 32 bits.
pub elect_timeout_bounds :
    (start w : World) (ops : List TimeOp) (s : Engine)
    → s.elect_min ≤ s.elect_max
    → 200 * s.elect_max < 2 ^ 32
    → let drawn = (reset_elect_timeout w (run_times ops (init_times start s))).elect_timeout in
      (s.elect_min ≤ drawn) × (drawn ≤ boundary s)
unfolding reset_elect_timeout
elect_timeout_bounds start w ops s order fits =
    let t = run_times ops (init_times start s) in
    let h = run_times-HasTimes ops (init_times start s) (init_times-HasTimes start s order fits) in
    omega (
      arith,
      h.low_eq,
      h.high_eq,
      h.above,
      h.order,
      h.bound,
      draw_timeout_bounds w.rand t.elect_min t.elect_max h.order (omega arith),
    )
