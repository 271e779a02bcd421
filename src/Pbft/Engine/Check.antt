-- ===== src/Pbft/Engine/Check.antt =====
-- The validity checks of `PBFTEngine` and of `ConsensusEngineBase::checkBlockValid`.
use lab_bcos.Base.{ℕ, Bool, true, false, ◌&&◌, ◌||◌, not, List, [], ◌∷◌}
use lab_bcos.Base.Tests.{ltb, leb, ◌==◌, if◌then◌else◌}
use lab_bcos.Base.Lists.{length, get_or}
use lab_bcos.Base.Int.{ltz, lez, eqz}
use lab_bcos.Pbft.Msg.{Block, Msg, PrepareReq}
use lab_bcos.Pbft.ReqCache.{
  is_exist_prepare, is_exist_sign, is_exist_commit, add_future_prepare, add_sign_req,
  add_commit_req,
}
use lab_bcos.Pbft.Engine.{Engine, Env, miner_by_index, min_valid_nodes, get_leader}

-- `hasConsensused`.
unfoldable pub has_consensused : Engine → Msg → Bool
has_consensused s req = ltz req.height s.consensus_number || ltz req.view s.view

-- `isFutureBlock`.
unfoldable pub is_future_block : Engine → Msg → Bool
is_future_block s req =
    ltz s.consensus_number req.height || (eqz req.height s.consensus_number && ltz s.view req.view)

-- `isHashSavedAfterCommit`.
unfoldable pub is_hash_saved_after_commit : Engine → Msg → Bool
is_hash_saved_after_commit s req =
    let saved = s.req_cache.committed_prepare_cache in
    not (eqz req.height saved.height && not (req.block_hash == saved.block_hash))

-- `isValidLeader`.
unfoldable pub is_valid_leader : Engine → Msg → Bool
is_valid_leader s req = let (found, leader) = get_leader s in found && req.idx == leader

-- `checkSign`: both signatures are those of the miner with the request's index.
unfoldable pub check_sign : Env → Engine → Msg → Bool
check_sign env s req =
    let node = miner_by_index s req.idx in
    not (node == 0)
    && (env.verify node req.sig req.block_hash
        && env.verify node req.sig2
            (env.signer.fields_without_block req.height req.view req.idx req.timestamp))

-- `isValidPrepare`: a request for a later block or view is kept for later.
unfoldable pub is_valid_prepare : Env → Engine → PrepareReq → Engine × Bool
is_valid_prepare env s req =
    if is_exist_prepare s.req_cache req
    then (s, false)
    else if has_consensused s req.msg
    then (s, false)
    else if is_future_block s req.msg
    then (record s { req_cache = add_future_prepare s.req_cache req }, false)
    else (
      s,
      is_valid_leader s req.msg
          && (is_hash_saved_after_commit s req.msg && check_sign env s req.msg),
    )

pub data CheckResult : Type 0 where
  valid invalid future : CheckResult

-- `checkReq`.
unfoldable pub check_req : Env → Engine → Msg → CheckResult
check_req env s req =
    let prep = s.req_cache.prepare_cache in
    if not (prep.block_hash == req.block_hash)
    then if is_future_block s req && check_sign env s req then future else invalid
    else if req.idx == s.idx
    then invalid
    else if not (eqz prep.view req.view)
    then invalid
    else if check_sign env s req
    then valid
    else invalid

-- `isValidSignReq` and `isValidCommitReq`: a vote on a later block or view is kept.
unfoldable pub is_valid_sign_req : Env → Engine → Msg → Engine × Bool
is_valid_sign_req env s req =
    if is_exist_sign s.req_cache req then (s, false) else elim (check_req env s req) [
      | future ↦ (record s { req_cache = add_sign_req s.req_cache req }, false)
      | invalid ↦ (s, false)
      | valid ↦ (s, true)
    ]

unfoldable pub is_valid_commit_req : Env → Engine → Msg → Engine × Bool
is_valid_commit_req env s req =
    if is_exist_commit s.req_cache req then (s, false) else elim (check_req env s req) [
      | future ↦ (record s { req_cache = add_commit_req s.req_cache req }, false)
      | invalid ↦ (s, false)
      | valid ↦ (s, true)
    ]

-- The tests of `isValidViewChangeReq` that come after the call of `catchupView`.
unfoldable pub view_change_tests : Env → Engine → Msg → Bool
view_change_tests env s req =
    not (ltz req.height s.highest.number || lez req.view s.view)
    && (not (
          (eqz req.height s.highest.number && not (req.block_hash == s.highest.hash))
          || not (env.block_exists req.block_hash))
        && check_sign env s req)

-- `==` on two lists of node ids.
unfoldable pub same_list : List ℕ → List ℕ → Bool
same_list [] [] = true
same_list [] (y ∷ ys) = false
same_list (x ∷ xs) [] = false
same_list (x ∷ xs) (y ∷ ys) = x == y && same_list xs ys

-- `checkBlockValid` of the base class and `checkMinerList`, without exceptions: `true` where
-- nothing is thrown. The test of the parent's hash only logs.
unfoldable pub check_block_valid : Env → Engine → Block → Bool
check_block_valid env s b =
    let h = b.header in
    not (ltb env.signer.now h.timestamp && not s.allow_future_blocks)
    && (not (lez h.number env.chain_number)
        && (not (env.block_exists h.hash)
            && (env.block_exists h.parent_hash && same_list s.miner_list h.sealer_list)))

-- The loop of `checkBlock` over the signatures.
unfoldable pub check_sig_list : Env → List ℕ → ℕ → List (ℕ × ℕ) → Bool
check_sig_list env miners hash [] = true
check_sig_list env miners hash ((i, sig) ∷ rest) =
    ltb i (length miners)
    && (env.verify (get_or miners i 0) sig hash && check_sig_list env miners hash rest)

-- `checkBlock`, which block synchronisation calls on a downloaded block.
unfoldable pub check_block : Env → Engine → Block → Bool
check_block env s b =
    same_list s.miner_list b.header.sealer_list
    && (not (miner_by_index s b.header.sealer == 0)
        && (leb (min_valid_nodes s) (length b.sig_list)
            && (check_sig_list env s.miner_list b.header.hash b.sig_list
                && leb (length b.transactions) (env.tx_count_limit b.header.number))))
