-- ===== src/Pbft/Engine/Votes.antt =====
-- What prepare requests and votes leave alone, and votes that come again.
use lab_bcos.Base.{◌≡◌, refl, ◌∙◌, true, false, Option, none, some, inl, inr}
use lab_bcos.Base.Tests.{◌==◌, ==_refl, Bool-cases}
use lab_bcos.Base.Dict.{has, lookup-insert}
use lab_bcos.Pbft.Msg.{Msg}
use lab_bcos.Pbft.VoteCache.{VoteCache, vote_exists, add_vote}
use lab_bcos.Pbft.VoteCache.Counts.{votes-add_vote}
use lab_bcos.Pbft.ReqCache.{is_exist_sign, is_exist_commit, add_sign_req, add_commit_req}
use lab_bcos.Pbft.Engine.{Engine, Env, Body, Flow, Packet}
use lab_bcos.Pbft.Engine.Check.{is_valid_sign_req, is_valid_commit_req}
use lab_bcos.Pbft.Engine.Commit.{sign_packet, commit_packet}
use lab_bcos.Pbft.Engine.Handle.{prepare_packet, view_change_packet, handle_sign, handle_commit}
use lab_bcos.Pbft.Engine.Loop.{
  received, on_prepare_packet, on_msg_packet, dispatch, after_dispatch, handle_msg,
}
use lab_bcos.Pbft.Engine.Frame.{core, core-handle_prepare, core-handle_sign, core-handle_commit}
use lab_bcos.Pbft.Engine.Rounds.{core-forward}
use Body.{prepare_body, msg_body, malformed}
use Flow.{returned, thrown}

core-on_prepare_packet :
    (env : Env) (s : Engine) (b : Body) → core (on_prepare_packet env s b).0 ≡ core s
unfolding on_prepare_packet
core-on_prepare_packet env s (prepare_body p) = core-handle_prepare env s (received p)
core-on_prepare_packet env s (msg_body m) = refl
core-on_prepare_packet env s (malformed m) = refl

core-on_msg_packet :
    (handler : Engine → Msg → Engine × Flow) (s : Engine) (b : Body)
    → ((m : Msg) → core (handler s m).0 ≡ core s)
    → core (on_msg_packet handler s b).0 ≡ core s
unfolding on_msg_packet
core-on_msg_packet handler s (prepare_body p) h = h p.msg
core-on_msg_packet handler s (msg_body m) h = h m
core-on_msg_packet handler s (malformed m) h = refl

abbrev pub SameCore : Engine → Option (Engine × Msg × Flow) → Type 0
SameCore s none = Unit
SameCore s (some r) = core r.0 ≡ core s

dispatch-SameCore :
    (env : Env) (s : Engine) (p : Packet)
    → (p.packet_id == view_change_packet) ≡ false
    → SameCore s (dispatch env s p)
unfolding dispatch
dispatch-SameCore env s p ne = elim (Bool-cases (p.packet_id == prepare_packet)) [
  | inl e ↦ rw e (core-on_prepare_packet env s p.body)
  | inr e ↦ rw e (elim (Bool-cases (p.packet_id == sign_packet)) [
    | inl e ↦ rw e (core-on_msg_packet (handle_sign env) s p.body (core-handle_sign env s))
    | inr e ↦ rw e (elim (Bool-cases (p.packet_id == commit_packet)) [
      | inl e ↦ rw e (core-on_msg_packet (handle_commit env) s p.body (core-handle_commit env s))
      | inr e ↦ rw (e, ne) tt
    ])
  ])
]

core-after_dispatch :
    (env : Env) (s : Engine) (p : Packet) (r : Option (Engine × Msg × Flow))
    → SameCore s r
    → core (after_dispatch env s p r).0 ≡ core s
unfolding after_dispatch
core-after_dispatch env s p none a = refl
core-after_dispatch env s p (some (t, req, returned)) a = core-forward env t p req ∙ a
core-after_dispatch env s p (some (t, req, thrown)) a = a

-- A packet other than a view change request, whatever it holds and even where it leads to a commit,
-- changes neither the views, the number of the next block, the highest block, the miners, their
-- counts nor the node's index.
pub core-handle_msg :
    (env : Env) (s : Engine) (p : Packet)
    → (p.packet_id == view_change_packet) ≡ false
    → core (handle_msg env s p).0 ≡ core s
unfolding handle_msg
core-handle_msg env s p ne =
    core-after_dispatch env s p (dispatch env s p) (dispatch-SameCore env s p ne)

vote_exists-add_vote :
    (req : Msg) (cache : VoteCache) → vote_exists req.block_hash req.sig (add_vote req cache) ≡ true
unfolding vote_exists has
vote_exists-add_vote req cache = rw (votes-add_vote, ==_refl, lookup-insert, ==_refl) refl

-- A sign or commit vote that comes again after it was filed in the cache is dropped: the state stays
-- as it is, and nothing is thrown.
pub handle_vote_again :
    (env : Env) (s : Engine) (req : Msg)
    → let signed = record s { req_cache = add_sign_req s.req_cache req } in
      let committed = record s { req_cache = add_commit_req s.req_cache req } in
      (handle_sign env signed req ≡ (signed, returned))
      × (handle_commit env committed req ≡ (committed, returned))
unfolding handle_sign handle_commit is_valid_sign_req is_valid_commit_req is_exist_sign
    is_exist_commit add_sign_req add_commit_req
handle_vote_again env s req = (
  rw (vote_exists-add_vote req s.req_cache.sign_cache),
  rw (vote_exists-add_vote req s.req_cache.commit_cache),
)
