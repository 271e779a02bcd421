-- ===== src/Pbft/Engine/Frame.antt =====
-- What sending and voting leave alone.
use lab_bcos.Base.{
  ℕ, ◌%◌, ◌^◌, ◌≡◌, refl, ◌∙◌, Bool, Option, none, some, List, [], ◌∷◌, arith, inl, inr,
}
use lab_bcos.Base.Tests.{Bool-cases, Option-cases}
use lab_bcos.Base.Lists.{length, contains}
use lab_bcos.Base.Int.{ℤ}
use lab_bcos.Broadcast.{key_exists}
use lab_bcos.Pbft.Msg.{Header, Block, Msg, PrepareReq, prepare_executed}
use lab_bcos.Pbft.ReqCache.{update_committed_prepare, add_prepare_req}
use lab_bcos.Pbft.Engine.{Engine, Env, Effect, Body, emit, index_by_miner}
use lab_bcos.Pbft.Engine.Send.{
  mark, send_to, broadcast_one, broadcast_session, broadcast_loop, broadcast_msg,
}
use lab_bcos.Pbft.Engine.Check.{
  is_valid_prepare, is_valid_sign_req, is_valid_commit_req, check_block_valid,
}
use lab_bcos.Pbft.Engine.Commit.{
  broadcast_sign_req, broadcast_commit_req, commit_prepared, save_block, check_and_save,
  commit_vote, check_and_commit,
}
use lab_bcos.Pbft.Engine.Handle.{
  finish_exec, exec_block, need_omit, omit_block, vote_on, act_on, run_prepare, handle_prepare,
  handle_sign, handle_commit,
}

-- The part of the state that decides who leads, for which block, and who the voters are.
pub record Core : Type 0 where
  pub view : ℤ
  pub to_view : ℤ
  pub consensus_number : ℤ
  pub highest : Header
  pub node_num : ℕ
  pub f : ℕ
  pub idx : ℕ
  pub miner_list : List ℕ
  pub cfg_err : Bool

unfoldable pub core : Engine → Core
core s = record {
  view = s.view;
  to_view = s.to_view;
  consensus_number = s.consensus_number;
  highest = s.highest;
  node_num = s.node_num;
  f = s.f;
  idx = s.idx;
  miner_list = s.miner_list;
  cfg_err = s.cfg_err;
}

-- Sending changes the broadcast cache and the output alone.
pub record SendsOnly (s t : Engine) : Type 0 where
  pub same_core : core t ≡ core s
  pub same_cache : t.req_cache ≡ s.req_cache

SendsOnly-refl : (s : Engine) → SendsOnly s s
SendsOnly-refl s = record { same_core = refl; same_cache = refl }

SendsOnly-trans : {s t u : Engine} → SendsOnly s t → SendsOnly t u → SendsOnly s u
SendsOnly-trans a b = record {
  same_core = b.same_core ∙ a.same_core;
  same_cache = b.same_cache ∙ a.same_cache;
}

broadcast_one-SendsOnly :
    (s : Engine) (node type key : ℕ) (body : Body) (filter : List ℕ) (ttl : ℕ)
    → SendsOnly s (broadcast_one s node type key body filter ttl)
unfolding broadcast_one send_to mark emit core
broadcast_one-SendsOnly s node type key body filter ttl = elim (Bool-cases (contains filter node)) [
  | inl e ↦ rw e (record { same_core = refl; same_cache = refl })
  | inr e ↦ rw e (elim (Bool-cases (key_exists s.broadcast_cache node type key)) [
    | inl k ↦ rw k (SendsOnly-refl s)
    | inr k ↦ rw k (record { same_core = refl; same_cache = refl })
  ])
]

broadcast_session-SendsOnly :
    (s : Engine) (node type key : ℕ) (body : Body) (filter : List ℕ) (ttl : ℕ)
    → SendsOnly s (broadcast_session s node type key body filter ttl)
unfolding broadcast_session
broadcast_session-SendsOnly s node type key body filter ttl =
    elim (Option-cases (index_by_miner s.miner_list node)) [
      | inl e ↦ rw (e, broadcast_session) (SendsOnly-refl s)
      | inr (i, e) ↦
          rw (e, broadcast_session) (broadcast_one-SendsOnly s node type key body filter ttl)
    ]

broadcast_loop-SendsOnly :
    (s : Engine) (nodes : List ℕ) (type key : ℕ) (body : Body) (filter : List ℕ) (ttl : ℕ)
    → SendsOnly s (broadcast_loop s nodes type key body filter ttl)
unfolding broadcast_loop
broadcast_loop-SendsOnly s [] type key body filter ttl = SendsOnly-refl s
broadcast_loop-SendsOnly s (node ∷ rest) type key body filter ttl =
    SendsOnly-trans (broadcast_session-SendsOnly s node type key body filter ttl) (
      broadcast_loop-SendsOnly (broadcast_session s node type key body filter ttl) rest type key
        body filter ttl)

-- `broadcastMsg` changes neither the core nor the request cache.
pub broadcast_msg-SendsOnly :
    (env : Env) (s : Engine) (type key : ℕ) (body : Body) (filter : List ℕ) (ttl : ℕ)
    → SendsOnly s (broadcast_msg env s type key body filter ttl).0
unfolding broadcast_msg core
broadcast_msg-SendsOnly env s type key body filter ttl =
    let sent =
      broadcast_loop-SendsOnly (record s { connected_node = length env.sessions % 2 ^ 16 })
        env.sessions type key body filter ttl in
    record { same_core = sent.same_core; same_cache = sent.same_cache }

core-broadcast_sign_req :
    (env : Env) (s : Engine) (p : PrepareReq) → core (broadcast_sign_req env s p).0 ≡ core s
unfolding broadcast_sign_req core broadcast_msg
core-broadcast_sign_req env s p = (broadcast_msg-SendsOnly env s _ _ _ _ _).same_core

core-commit_vote : (env : Env) (s : Engine) → core (commit_vote env s) ≡ core s
unfolding commit_vote broadcast_commit_req emit core broadcast_msg update_committed_prepare
core-commit_vote env s =
    (broadcast_msg-SendsOnly env
      (emit (Effect.backs_up s.req_cache.raw_prepare_cache)
        (record s { req_cache = update_committed_prepare s.req_cache }))
      _ _ _ _ _).same_core

core-commit_prepared :
    (env : Env) (s : Engine) (b : Block) → core (commit_prepared env s b) ≡ core s
unfolding commit_prepared emit core
core-commit_prepared env s b = ground arith

core-save_block : (env : Env) (s : Engine) (o : Option Block) → core (save_block env s o).0 ≡ core s
unfolding save_block
core-save_block env s none = refl
core-save_block env s (some b) = core-commit_prepared env s b

pub core-check_and_save : (env : Env) (s : Engine) → core (check_and_save env s).0 ≡ core s
unfolding check_and_save
core-check_and_save env s = ground (arith, core-save_block env s s.req_cache.prepare_cache.block)

pub core-check_and_commit : (env : Env) (s : Engine) → core (check_and_commit env s).0 ≡ core s
unfolding check_and_commit
core-check_and_commit env s =
    ground (arith, core-check_and_save env (commit_vote env s), core-commit_vote env s)

core-vote_on :
    (env : Env) (s : Engine) (req : PrepareReq) (b : Block) (context : ℕ)
    → core (vote_on env s req b context).0 ≡ core s
unfolding vote_on core
core-vote_on env s req b context =
    core-check_and_commit env _
    ∙ core-broadcast_sign_req env
        (record s {
          req_cache = add_prepare_req s.req_cache (prepare_executed env.signer req b context);
        })
        _

core-act_on :
    (env : Env) (s : Engine) (req : PrepareReq) (o : Option (Block × ℕ))
    → core (act_on env s req o).0 ≡ core s
unfolding act_on
core-act_on env s req none = refl
core-act_on env s req (some (b, context)) = elim (Bool-cases (need_omit s b)) [
  | inl e ↦ rw e (unfold omit_block emit core in refl)
  | inr e ↦ rw e (core-vote_on env s req b context)
]

core-finish_exec :
    (env : Env) (s : Engine) (o : Option (Block × ℕ)) → core (finish_exec env s o).0 ≡ core s
unfolding finish_exec core
core-finish_exec env s none = refl
core-finish_exec env s (some e) = refl

core-exec_block :
    (env : Env) (s : Engine) (req : PrepareReq) → core (exec_block env s req).0 ≡ core s
core-exec_block env s req = split req.block refl
  where
    split : (o : Option Block) → req.block ≡ o → core (exec_block env s req).0 ≡ core s
    split none e = unfold exec_block in rw (e, exec_block)
    split (some b) e =
        unfold exec_block in
        rw (e, exec_block)
          (elim (Bool-cases (check_block_valid env s b)) [
            | inl k ↦ rw k (core-finish_exec env _ _ ∙ unfold emit core in refl)
            | inr k ↦ rw k
          ])

core-is_valid_prepare :
    (env : Env) (s : Engine) (req : PrepareReq) → core (is_valid_prepare env s req).0 ≡ core s
unfolding is_valid_prepare core
core-is_valid_prepare env s req = ground arith

-- Handling a prepare request, up to a commit, changes neither the views, the number of the next
-- block, the highest block, the miners, their counts nor the node's index.
pub core-handle_prepare :
    (env : Env) (s : Engine) (req : PrepareReq) → core (handle_prepare env s req).0 ≡ core s
unfolding handle_prepare
core-handle_prepare env s req = elim (Bool-cases (is_valid_prepare env s req).1) [
  | inl e ↦ rw e (
      unfold run_prepare in
      core-act_on env _ req _ ∙ core-exec_block env _ req ∙ unfold core in refl)
  | inr e ↦ rw e (core-is_valid_prepare env s req)
]

core-is_valid_sign_req :
    (env : Env) (s : Engine) (req : Msg) → core (is_valid_sign_req env s req).0 ≡ core s
unfolding is_valid_sign_req core
core-is_valid_sign_req env s req = ground arith

core-is_valid_commit_req :
    (env : Env) (s : Engine) (req : Msg) → core (is_valid_commit_req env s req).0 ≡ core s
unfolding is_valid_commit_req core
core-is_valid_commit_req env s req = ground arith

pub core-handle_sign :
    (env : Env) (s : Engine) (req : Msg) → core (handle_sign env s req).0 ≡ core s
unfolding handle_sign
core-handle_sign env s req = elim (Bool-cases (is_valid_sign_req env s req).1) [
  | inl e ↦ rw e (core-check_and_commit env _ ∙ unfold core in refl)
  | inr e ↦ rw e (core-is_valid_sign_req env s req)
]

pub core-handle_commit :
    (env : Env) (s : Engine) (req : Msg) → core (handle_commit env s req).0 ≡ core s
unfolding handle_commit
core-handle_commit env s req = elim (Bool-cases (is_valid_commit_req env s req).1) [
  | inl e ↦ rw e (core-check_and_save env _ ∙ unfold core in refl)
  | inr e ↦ rw e (core-is_valid_commit_req env s req)
]
