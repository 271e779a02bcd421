-- ===== src/Pbft/Engine/Rounds.antt =====
-- How `handleMsg` and `checkTimeout` move the views.
use lab_bcos.Base.{◌≡◌, refl, ◌∙◌, false, Option, none, some, arith, inl, inr}
use lab_bcos.Base.Tests.{◌==◌, Bool-cases}
use lab_bcos.Base.Int.{◌<ℤ◌, ◌+ℤ◌, inc64, max_int64}
use lab_bcos.Pbft.Msg.{Msg}
use lab_bcos.Pbft.Time.{is_timeout}
use lab_bcos.Pbft.Engine.{Engine, Env, Body, Flow, Packet, emit}
use lab_bcos.Pbft.Engine.Commit.{sign_packet, commit_packet}
use lab_bcos.Pbft.Engine.Handle.{
  prepare_packet, view_change_packet, handle_sign, handle_commit, handle_view_change,
}
use lab_bcos.Pbft.Engine.Loop.{
  broadcast_view_change, ask_next_view, check_timeout, received, on_prepare_packet, on_msg_packet,
  dispatch, is_recent, forward, after_dispatch, handle_msg,
}
use lab_bcos.Pbft.Engine.Frame.{
  core, broadcast_msg-SendsOnly, core-handle_prepare, core-handle_sign, core-handle_commit,
}
use lab_bcos.Pbft.Engine.Views.{
  IsOrdered, HasRoom, Advances, Advances-of_core, Advances-trans, check_and_change_view-Advances,
  handle_view_change-Advances,
}
use Body.{prepare_body, msg_body, malformed}
use Flow.{returned, thrown}

pub core-forward :
    (env : Env) (s : Engine) (p : Packet) (req : Msg) → core (forward env s p req) ≡ core s
unfolding forward
core-forward env s p req = elim (Bool-cases (p.ttl == 1)) [
  | inl e ↦ rw e
  | inr e ↦ rw e (elim (Bool-cases (is_recent s req)) [
    | inl r ↦ rw r (broadcast_msg-SendsOnly env s _ _ _ _ _).same_core
    | inr r ↦ rw r
  ])
]

on_prepare_packet-Advances :
    (env : Env) (s : Engine) (b : Body) → IsOrdered s → Advances s (on_prepare_packet env s b).0
unfolding on_prepare_packet
on_prepare_packet-Advances env s (prepare_body p) o =
    Advances-of_core s _ o (core-handle_prepare env s (received p))
on_prepare_packet-Advances env s (msg_body m) o = Advances-of_core s s o refl
on_prepare_packet-Advances env s (malformed m) o = Advances-of_core s s o refl

on_msg_packet-Advances :
    (handler : Engine → Msg → Engine × Flow) (s : Engine) (b : Body)
    → IsOrdered s
    → ((m : Msg) → Advances s (handler s m).0)
    → Advances s (on_msg_packet handler s b).0
unfolding on_msg_packet
on_msg_packet-Advances handler s (prepare_body p) o h = h p.msg
on_msg_packet-Advances handler s (msg_body m) o h = h m
on_msg_packet-Advances handler s (malformed m) o h = Advances-of_core s s o refl

-- What a result of the `switch` of `handleMsg` leads to.
abbrev pub AllAdvance : Engine → Option (Engine × Msg × Flow) → Type 0
AllAdvance s none = Unit
AllAdvance s (some r) = Advances s r.0

dispatch-AllAdvance :
    (env : Env) (s : Engine) (p : Packet)
    → IsOrdered s
    → HasRoom s
    → AllAdvance s (dispatch env s p)
unfolding dispatch
dispatch-AllAdvance env s p o room = elim (Bool-cases (p.packet_id == prepare_packet)) [
  | inl e ↦ rw e (on_prepare_packet-Advances env s p.body o)
  | inr e ↦ rw e (elim (Bool-cases (p.packet_id == sign_packet)) [
    | inl e ↦ rw e (
        on_msg_packet-Advances (handle_sign env) s p.body o
          (λ m. Advances-of_core s _ o (core-handle_sign env s m)))
    | inr e ↦ rw e (elim (Bool-cases (p.packet_id == commit_packet)) [
      | inl e ↦ rw e (
          on_msg_packet-Advances (handle_commit env) s p.body o
            (λ m. Advances-of_core s _ o (core-handle_commit env s m)))
      | inr e ↦ rw e (elim (Bool-cases (p.packet_id == view_change_packet)) [
        | inl e ↦ rw e (
            on_msg_packet-Advances (λ t m. handle_view_change env t m p.node_idx) s p.body o
              (λ m. handle_view_change-Advances env s m p.node_idx o room))
        | inr e ↦ rw e tt
      ])
    ])
  ])
]

after_dispatch-Advances :
    (env : Env) (s : Engine) (p : Packet) (r : Option (Engine × Msg × Flow))
    → IsOrdered s
    → AllAdvance s r
    → Advances s (after_dispatch env s p r).0
unfolding after_dispatch
after_dispatch-Advances env s p none o a = Advances-of_core s s o refl
after_dispatch-Advances env s p (some (t, req, returned)) o a =
    Advances-trans a (Advances-of_core t _ a.ordered (core-forward env t p req))
after_dispatch-Advances env s p (some (t, req, thrown)) o a = a

-- Whatever packet arrives, `handleMsg` moves neither the view nor the view to change to down, and
-- leaves the view at or below the view to change to, where it was there before, the view to
-- change to is below the largest `int64_t` and the highest block's number is an `int64_t`.
pub handle_msg-Advances :
    (env : Env) (s : Engine) (p : Packet)
    → IsOrdered s
    → HasRoom s
    → Advances s (handle_msg env s p).0
unfolding handle_msg
handle_msg-Advances env s p o room =
    after_dispatch-Advances env s p (dispatch env s p) o (dispatch-AllAdvance env s p o room)

ask_next_view-Advances :
    (env : Env) (s : Engine)
    → IsOrdered s
    → s.to_view <ℤ max_int64
    → Advances s (ask_next_view env s)
unfolding ask_next_view emit inc64 ◌+ℤ◌
ask_next_view-Advances env s o room = record {
  view_up = omega arith;
  to_view_up = ground arith;
  ordered = ground arith;
}

broadcast_view_change-Advances :
    (env : Env) (s : Engine) → IsOrdered s → Advances s (broadcast_view_change env s).0
unfolding broadcast_view_change
broadcast_view_change-Advances env s o = Advances-of_core s _ o (
    (broadcast_msg-SendsOnly env (record s { empty_block_view_change = false }) _ _ _ _ _).same_core
    ∙ unfold core in refl)

-- The time-out moves neither view down and keeps their order, where the view to change to is
-- below the largest `int64_t`.
pub check_timeout-Advances :
    (env : Env) (s : Engine)
    → IsOrdered s
    → s.to_view <ℤ max_int64
    → Advances s (check_timeout env s)
unfolding check_timeout emit
check_timeout-Advances env s o room = elim (Bool-cases (is_timeout s.time env.signer.now)) [
  | inl e ↦
      let a = ask_next_view-Advances env s o room in
      let b = broadcast_view_change-Advances env (ask_next_view env s) a.ordered in
      let t = (broadcast_view_change env (ask_next_view env s)).0 in
      let c =
        Advances-trans a (Advances-trans b (check_and_change_view-Advances env t b.ordered)) in
      rw e (record { view_up = c.view_up; to_view_up = c.to_view_up; ordered = c.ordered })
  | inr e ↦ rw e (Advances-of_core s s o refl)
]
