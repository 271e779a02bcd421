-- ===== src/Pbft/Engine/Views.antt =====
-- How the view and the view to change to move.
use lab_bcos.Base.{
  ℕ, ◌-◌, ◌%◌, ◌^◌, ◌≡◌, refl, sym, ap, subst, Bool, true, false, ◌&&◌, not, arith, inl, inr,
}
use lab_bcos.Base.Tests.{if◌then◌else◌, ◌==◌, leb, Bool-cases, Option-cases}
use lab_bcos.Base.Lists.{contains}
use lab_bcos.Broadcast.{key_exists}
use lab_bcos.Base.Int.{ℤ, ◌≤ℤ◌, ◌<ℤ◌, ◌-ℤ◌, ltz, eqz, inc64, dec64, max_int64}
use lab_bcos.Pbft.Msg.{Msg}
use lab_bcos.Pbft.ReqCache.{add_view_change_req, is_exist_view_change, view_change_size}
use lab_bcos.Pbft.ViewScan.{can_trigger_view_change}
use lab_bcos.Pbft.ViewScan.Bounds.{can_trigger_view_change_sound}
use lab_bcos.Pbft.Engine.{Engine, Env, Body, emit, index_by_miner, miner_by_index, min_valid_nodes}
use lab_bcos.Pbft.Engine.Send.{send_to, send_session, send_msg, mark}
use lab_bcos.Pbft.Engine.Handle.{
  send_view_change_msg, catchup_view, is_valid_view_change_req, check_and_change_view,
  try_fast_view_change, handle_view_change,
}
use lab_bcos.Pbft.Engine.Frame.{core}

-- The current view is not beyond the one to change to.
abbrev pub IsOrdered : Engine → Type 0
IsOrdered s = s.view ≤ℤ s.to_view

-- Both views have moved up, if at all, and are in order.
pub record Advances (s t : Engine) : Type 0 where
  pub view_up : s.view ≤ℤ t.view
  pub to_view_up : s.to_view ≤ℤ t.to_view
  pub ordered : t.view ≤ℤ t.to_view

-- `int64_t` leaves room above.
pub record HasRoom (s : Engine) : Type 0 where
  pub to_view_small : s.to_view <ℤ max_int64
  pub number_small : s.highest.number ≤ℤ max_int64

pub Advances-of_core : (s t : Engine) → IsOrdered s → core t ≡ core s → Advances s t
unfolding core
Advances-of_core s t o e =
    let v : t.view ≡ s.view = ap (λ x. x.view) e in
    let w : t.to_view ≡ s.to_view = ap (λ x. x.to_view) e in
    record {
      view_up = ground (arith, v);
      to_view_up = ground (arith, w);
      ordered = ground (arith, v, w);
    }

core-send_session :
    (env : Env) (s : Engine) (node type key : ℕ) (body : Body) (ttl : ℕ)
    → core (send_session env s node type key body ttl).0 ≡ core s
unfolding core send_session send_to mark emit
core-send_session env s node type key body ttl = elim (Bool-cases (contains env.sessions node)) [
  | inl e ↦ rw e
  | inr e ↦ rw e
]

core-send_msg :
    (env : Env) (s : Engine) (node type key : ℕ) (body : Body) (ttl : ℕ)
    → core (send_msg env s node type key body ttl).0 ≡ core s
unfolding send_msg
core-send_msg env s node type key body ttl =
    elim (Option-cases (index_by_miner s.miner_list node)) [
      | inl e ↦ rw (e, send_msg) refl
      | inr (i, e) ↦
          rw (e, send_msg)
            (elim (Bool-cases (key_exists s.broadcast_cache node type key)) [
              | inl k ↦ rw k
              | inr k ↦ rw k (core-send_session env s node type key body ttl)
            ])
    ]

core-catchup_view : (env : Env) (s : Engine) (req : Msg) → core (catchup_view env s req) ≡ core s
unfolding catchup_view
core-catchup_view env s req =
    elim (Bool-cases (ltz (inc64 req.view) s.to_view && not (miner_by_index s req.idx == 0))) [
      | inl e ↦ rw e (unfold send_view_change_msg in core-send_msg env s _ _ _ _ _)
      | inr e ↦ rw e
    ]

core-is_valid_view_change_req :
    (env : Env) (s : Engine) (req : Msg) (source : ℕ)
    → core (is_valid_view_change_req env s req source).0 ≡ core s
unfolding is_valid_view_change_req
core-is_valid_view_change_req env s req source =
    elim (Bool-cases (is_exist_view_change s.req_cache req)) [
      | inl a ↦ rw a
      | inr a ↦ rw a (elim (Bool-cases (req.idx == s.idx)) [
        | inl b ↦ rw b
        | inr b ↦ rw b (elim (Bool-cases (ltz (inc64 req.view) s.to_view && req.idx == source)) [
          | inl e ↦ rw e (core-catchup_view env s req)
          | inr e ↦ rw e
        ])
      ])
    ]

-- `checkAndChangeView` keeps the order of the views, and moves neither down.
pub check_and_change_view-Advances :
    (env : Env) (s : Engine) → IsOrdered s → Advances s (check_and_change_view env s)
unfolding check_and_change_view emit
check_and_change_view-Advances env s o =
    elim (Bool-cases
      (leb (min_valid_nodes s - 1) (view_change_size s.req_cache s.to_view % 2 ^ 16))) [
        | inl e ↦ rw e (record { view_up = o; to_view_up = omega arith; ordered = omega arith })
        | inr e ↦ rw e (record { view_up = omega arith; to_view_up = omega arith; ordered = o })
      ]

dec64_le : (a b : ℤ) → a <ℤ b → a ≤ℤ max_int64 → a ≤ℤ dec64 b
unfolding dec64 ◌-ℤ◌
dec64_le a b h k = ground arith

pub try_fast_view_change-Advances :
    (s : Engine) → IsOrdered s → HasRoom s → Advances s (try_fast_view_change s)
unfolding try_fast_view_change emit
try_fast_view_change-Advances s o room = split _ refl
  where
    split :
        (r : ℤ × Bool)
        → can_trigger_view_change s.req_cache s.f s.to_view s.highest s.consensus_number ≡ r
        → Advances s (try_fast_view_change s)
    split (v, true) e =
        let above : s.to_view <ℤ v =
          (can_trigger_view_change_sound s.req_cache s.f s.to_view s.highest s.consensus_number v
            room.to_view_small room.number_small e).0 in
        let up : s.to_view ≤ℤ dec64 v =
          dec64_le s.to_view v above (omega (arith, room.to_view_small)) in
        rw e (record { view_up = omega arith; to_view_up = up; ordered = omega arith })
    split (v, false) e =
        rw e (record { view_up = omega arith; to_view_up = omega arith; ordered = o })

-- Requests do not change the engine's core, so they keep order and room.
module _ (s t : Engine) (e : core t ≡ core s) where
  pub IsOrdered-of_core : IsOrdered s → IsOrdered t
  unfolding core
  IsOrdered-of_core o = ground (arith, ap (λ x. x.view) e, ap (λ x. x.to_view) e)

  pub HasRoom-of_core : HasRoom s → HasRoom t
  unfolding core
  HasRoom-of_core r = record {
    to_view_small = subst (λ v. v <ℤ max_int64) (sym (ap (λ x. x.to_view) e)) r.to_view_small;
    number_small = subst (λ v. v.number ≤ℤ max_int64) (sym (ap (λ x. x.highest) e)) r.number_small;
  }

  pub Advances-from : {u : Engine} → Advances t u → Advances s u
  unfolding core
  Advances-from {u} a = record {
    view_up = subst (λ v. v ≤ℤ u.view) (ap (λ x. x.view) e) a.view_up;
    to_view_up = subst (λ v. v ≤ℤ u.to_view) (ap (λ x. x.to_view) e) a.to_view_up;
    ordered = a.ordered;
  }

pub Advances-trans : {s t u : Engine} → Advances s t → Advances t u → Advances s u
Advances-trans a b = record {
  view_up = omega (arith, a.view_up, b.view_up);
  to_view_up = omega (arith, a.to_view_up, b.to_view_up);
  ordered = b.ordered;
}

change_added :
    (env : Env) (s : Engine) (req : Msg)
    → IsOrdered s
    → HasRoom s
    → Advances s
        (if eqz req.view s.to_view then check_and_change_view env s else try_fast_view_change s)
change_added env s req o room = elim (Bool-cases (eqz req.view s.to_view)) [
  | inl e ↦ rw e (check_and_change_view-Advances env s o)
  | inr e ↦ rw e (try_fast_view_change-Advances s o room)
]

-- `handleViewChangeMsg` moves neither view down and keeps their order.
pub handle_view_change-Advances :
    (env : Env) (s : Engine) (req : Msg) (source : ℕ)
    → IsOrdered s
    → HasRoom s
    → Advances s (handle_view_change env s req source).0
unfolding handle_view_change
handle_view_change-Advances env s req source o room =
    let checked = (is_valid_view_change_req env s req source).0 in
    let added = record checked { req_cache = add_view_change_req checked.req_cache req } in
    let same : core checked ≡ core s = core-is_valid_view_change_req env s req source in
    let same_added : core added ≡ core s = unfold core in same in
    elim (Bool-cases (is_valid_view_change_req env s req source).1) [
      | inl e ↦ rw e (
          Advances-from s added same_added (
            change_added env added req (IsOrdered-of_core s added same_added o)
              (HasRoom-of_core s added same_added room)))
      | inr e ↦ rw e (Advances-of_core s checked o same)
    ]
