-- ===== src/Pbft/ReqCache.antt =====
-- libconsensus/pbft/PBFTReqCache.h and PBFTReqCache.cpp: the requests that an engine has collected.
pub mod Filed
use lab_bcos.Base.{ℕ, Bool, true, false, none, some, [], map}
use lab_bcos.Base.Tests.{◌==◌, if◌then◌else◌}
use lab_bcos.Base.Lists.{length}
use lab_bcos.Base.Int.{ℤ}
use lab_bcos.Base.Dict.{lookup, has, insert, retain, erase}
use lab_bcos.Pbft.Msg.{Header, Block, Msg, PrepareReq, empty_prepare, clear_prepare}
use lab_bcos.Pbft.VoteCache.{
  VoteCache, ViewCache, vote_count, vote_exists, add_vote, find_view, set_view, view_requests,
  remove_other_views, remove_views_upto, is_fresh, remove_invalid_entries,
}

pub record ReqCache : Type 0 where
  pub prepare_cache : PrepareReq
  pub raw_prepare_cache : PrepareReq
  pub sign_cache : VoteCache
  pub recv_view_change : ViewCache
  pub commit_cache : VoteCache
  pub committed_prepare_cache : PrepareReq
  pub future_prepare_cache : PrepareReq

unfoldable pub empty_cache : ReqCache
empty_cache = record {
  prepare_cache = empty_prepare;
  raw_prepare_cache = empty_prepare;
  sign_cache = [];
  recv_view_change = [];
  commit_cache = [];
  committed_prepare_cache = empty_prepare;
  future_prepare_cache = empty_prepare;
}

-- `isExistPrepare`.
unfoldable pub is_exist_prepare : ReqCache → PrepareReq → Bool
is_exist_prepare c req = c.raw_prepare_cache.block_hash == req.block_hash

-- `isExistSign` and `isExistCommit`.
unfoldable pub is_exist_sign : ReqCache → Msg → Bool
is_exist_sign c req = vote_exists req.block_hash req.sig c.sign_cache

unfoldable pub is_exist_commit : ReqCache → Msg → Bool
is_exist_commit c req = vote_exists req.block_hash req.sig c.commit_cache

-- `isExistViewChange`.
unfoldable pub is_exist_view_change : ReqCache → Msg → Bool
is_exist_view_change c req = has req.idx (view_requests req.view c.recv_view_change)

-- `getSigCacheSize`, `getCommitCacheSize` and `getViewChangeSize`.
unfoldable pub sig_cache_size : ReqCache → ℕ → ℕ
sig_cache_size c hash = vote_count hash c.sign_cache

unfoldable pub commit_cache_size : ReqCache → ℕ → ℕ
commit_cache_size c hash = vote_count hash c.commit_cache

unfoldable pub view_change_size : ReqCache → ℤ → ℕ
view_change_size c v = length (view_requests v c.recv_view_change)

-- `addRawPrepare`: the prepare cache is reset.
unfoldable pub add_raw_prepare : ReqCache → PrepareReq → ReqCache
add_raw_prepare c req = record c { raw_prepare_cache = req; prepare_cache = empty_prepare }

-- `addPrepareReq`.
unfoldable pub add_prepare_req : ReqCache → PrepareReq → ReqCache
add_prepare_req c req = record c {
  prepare_cache = req;
  sign_cache = remove_other_views req.block_hash req.view c.sign_cache;
  commit_cache = remove_other_views req.block_hash req.view c.commit_cache;
}

unfoldable pub add_sign_req : ReqCache → Msg → ReqCache
add_sign_req c req = record c { sign_cache = add_vote req c.sign_cache }

unfoldable pub add_commit_req : ReqCache → Msg → ReqCache
add_commit_req c req = record c { commit_cache = add_vote req c.commit_cache }

-- `addViewChangeReq`.
unfoldable pub add_view_change_req : ReqCache → Msg → ReqCache
add_view_change_req c req = record c {
  recv_view_change =
      set_view req.view (insert req.idx req (view_requests req.view c.recv_view_change))
        c.recv_view_change;
}

-- `addFuturePrepareCache`.
unfoldable pub add_future_prepare : ReqCache → PrepareReq → ReqCache
add_future_prepare c req =
    if c.future_prepare_cache.block_hash == req.block_hash
    then c
    else record c { future_prepare_cache = req }

unfoldable pub update_committed_prepare : ReqCache → ReqCache
update_committed_prepare c = record c { committed_prepare_cache = c.raw_prepare_cache }

-- `generateAndSetSigList`: the block with the (index, signature) pairs of the commit votes, or the
-- block as it was and `false`.
unfoldable pub generate_and_set_sig_list : ReqCache → Block → Block × Bool
generate_and_set_sig_list c b = elim (lookup c.prepare_cache.block_hash c.commit_cache) [
  | none ↦ (b, false)
  | some d ↦ (record b { sig_list = map (λ e. (e.1.idx, e.0)) d }, true)
]

-- `triggerViewChange`.
unfoldable pub trigger_view_change : ReqCache → ℤ → ReqCache
trigger_view_change c cur = record c {
  raw_prepare_cache = clear_prepare c.raw_prepare_cache;
  prepare_cache = clear_prepare c.prepare_cache;
  sign_cache = [];
  commit_cache = [];
  recv_view_change = remove_views_upto cur c.recv_view_change;
}

-- `delCache`.
unfoldable pub del_cache : ReqCache → ℕ → ReqCache
del_cache c hash = record c {
  sign_cache = erase hash c.sign_cache;
  commit_cache = erase hash c.commit_cache;
  prepare_cache =
      if hash == c.prepare_cache.block_hash then clear_prepare c.prepare_cache else c.prepare_cache;
}

-- `collectGarbage`.
unfoldable pub collect_garbage : ReqCache → Header → ReqCache
collect_garbage c highest = record c {
  sign_cache = remove_invalid_entries highest c.sign_cache;
  commit_cache = remove_invalid_entries highest c.commit_cache;
}

-- `delInvalidViewChange`.
unfoldable pub del_invalid_view_change : ReqCache → Header → ReqCache
del_invalid_view_change c highest = record c {
  recv_view_change = remove_invalid_entries highest c.recv_view_change;
}

-- `removeInvalidViewChange(view, highestBlock)`: only the requests for one view are looked at.
unfoldable pub remove_invalid_view_change : ReqCache → ℤ → Header → ReqCache
remove_invalid_view_change c view highest = elim (find_view view c.recv_view_change) [
  | none ↦ c
  | some d ↦ record c {
    recv_view_change = set_view view (retain (λ idx r. is_fresh highest r) d) c.recv_view_change;
  }
]

-- `clearAllExceptCommitCache`.
unfoldable pub clear_all_except_commit : ReqCache → ReqCache
clear_all_except_commit c = record c {
  prepare_cache = clear_prepare c.prepare_cache;
  sign_cache = [];
  recv_view_change = [];
}

-- `clearAll`.
unfoldable pub clear_all : ReqCache → ReqCache
clear_all c =
    let d =
      clear_all_except_commit
        (record c { raw_prepare_cache = clear_prepare c.raw_prepare_cache }) in
    record d { commit_cache = [] }

unfoldable pub reset_future_prepare : ReqCache → ReqCache
reset_future_prepare c = record c { future_prepare_cache = empty_prepare }
