-- ===== src/Pbft/ReqCache/Filed.antt =====
-- The operations of `PBFTReqCache` as one type, and the shape that they keep.
use lab_bcos.Base.{ℕ, ◌≡◌, refl, inl, inr, Option, none, some, List, [], ◌∷◌}
use lab_bcos.Base.Tests.{◌==◌, Bool-cases}
use lab_bcos.Base.Int.{ℤ}
use lab_bcos.Base.Dict.{Dict}
use lab_bcos.Pbft.Msg.{Header, Msg, PrepareReq}
use lab_bcos.Pbft.VoteCache.{find_view}
use lab_bcos.Pbft.VoteCache.ByHash.{
  IsVoteCache, add_vote-IsVoteCache, remove_other_views-IsVoteCache,
  remove_invalid_entries-IsVoteCache, erase-IsVoteCache, empty-IsVoteCache,
}
use lab_bcos.Pbft.VoteCache.ByView.{
  IsViewCache, add_view-IsViewCache, prune_view-IsViewCache, remove_views_upto-IsViewCache,
  remove_invalid_entries-IsViewCache, empty-IsViewCache,
}
use lab_bcos.Pbft.ReqCache.{
  ReqCache, empty_cache, add_raw_prepare, add_prepare_req, add_sign_req, add_commit_req,
  add_view_change_req, add_future_prepare, update_committed_prepare, trigger_view_change, del_cache,
  collect_garbage, del_invalid_view_change, remove_invalid_view_change, clear_all_except_commit,
  clear_all, reset_future_prepare,
}

pub record IsValid (c : ReqCache) : Type 0 where
  pub signs : IsVoteCache c.sign_cache
  pub commits : IsVoteCache c.commit_cache
  pub view_changes : IsViewCache c.recv_view_change

-- The operations that change the cache.
pub data CacheOp : Type 0 where
  raw_prepare prepare future_prepare : PrepareReq → CacheOp
  sign_vote commit_vote view_vote : Msg → CacheOp
  committed reset_future clear_but_commit clear_every : CacheOp
  trigger : ℤ → CacheOp
  del : ℕ → CacheOp
  garbage old_views : Header → CacheOp
  old_view : ℤ → Header → CacheOp

unfoldable pub apply : ReqCache → CacheOp → ReqCache
apply c (raw_prepare p) = add_raw_prepare c p
apply c (prepare p) = add_prepare_req c p
apply c (future_prepare p) = add_future_prepare c p
apply c (sign_vote m) = add_sign_req c m
apply c (commit_vote m) = add_commit_req c m
apply c (view_vote m) = add_view_change_req c m
apply c committed = update_committed_prepare c
apply c reset_future = reset_future_prepare c
apply c clear_but_commit = clear_all_except_commit c
apply c clear_every = clear_all c
apply c (trigger v) = trigger_view_change c v
apply c (del h) = del_cache c h
apply c (garbage h) = collect_garbage c h
apply c (old_views h) = del_invalid_view_change c h
apply c (old_view v h) = remove_invalid_view_change c v h

unfoldable pub run : ReqCache → List CacheOp → ReqCache
run c [] = c
run c (op ∷ ops) = run (apply c op) ops

remove_invalid_view_change-IsValid :
    (c : ReqCache) (v : ℤ) (h : Header) → IsValid c → IsValid (remove_invalid_view_change c v h)
remove_invalid_view_change-IsValid c v h i = split (find_view v c.recv_view_change) refl
  where
    split :
        (o : Option (Dict Msg))
        → find_view v c.recv_view_change ≡ o
        → IsValid (remove_invalid_view_change c v h)
    split none e = unfold remove_invalid_view_change in rw (e, remove_invalid_view_change) i
    split (some d) e =
        unfold remove_invalid_view_change in
        rw (e, remove_invalid_view_change)
          (record {
            signs = i.signs;
            commits = i.commits;
            view_changes = prune_view-IsViewCache v _ c.recv_view_change d e i.view_changes;
          })

-- One operation keeps the cache well formed.
pub apply-IsValid : (c : ReqCache) (op : CacheOp) → IsValid c → IsValid (apply c op)
unfolding apply add_raw_prepare update_committed_prepare reset_future_prepare
apply-IsValid c (raw_prepare p) i = record {
  signs = i.signs;
  commits = i.commits;
  view_changes = i.view_changes;
}
apply-IsValid c (prepare p) i =
    unfold add_prepare_req in
    record {
      signs = remove_other_views-IsVoteCache p.block_hash p.view c.sign_cache i.signs;
      commits = remove_other_views-IsVoteCache p.block_hash p.view c.commit_cache i.commits;
      view_changes = i.view_changes;
    }
apply-IsValid c (future_prepare p) i =
    unfold add_future_prepare in
    elim (Bool-cases (c.future_prepare_cache.block_hash == p.block_hash)) [
      | inl e ↦ rw e i
      | inr e ↦
          rw e (record { signs = i.signs; commits = i.commits; view_changes = i.view_changes })
    ]
apply-IsValid c (sign_vote m) i =
    unfold add_sign_req in
    record {
      signs = add_vote-IsVoteCache m c.sign_cache i.signs;
      commits = i.commits;
      view_changes = i.view_changes;
    }
apply-IsValid c (commit_vote m) i =
    unfold add_commit_req in
    record {
      signs = i.signs;
      commits = add_vote-IsVoteCache m c.commit_cache i.commits;
      view_changes = i.view_changes;
    }
apply-IsValid c (view_vote m) i =
    unfold add_view_change_req in
    record {
      signs = i.signs;
      commits = i.commits;
      view_changes = add_view-IsViewCache m c.recv_view_change i.view_changes;
    }
apply-IsValid c committed i = record {
  signs = i.signs;
  commits = i.commits;
  view_changes = i.view_changes;
}
apply-IsValid c reset_future i = record {
  signs = i.signs;
  commits = i.commits;
  view_changes = i.view_changes;
}
apply-IsValid c clear_but_commit i =
    unfold clear_all_except_commit in
    record { signs = empty-IsVoteCache; commits = i.commits; view_changes = empty-IsViewCache }
apply-IsValid c clear_every i =
    unfold clear_all clear_all_except_commit in
    record {
      signs = empty-IsVoteCache;
      commits = empty-IsVoteCache;
      view_changes = empty-IsViewCache;
    }
apply-IsValid c (trigger v) i =
    unfold trigger_view_change in
    record {
      signs = empty-IsVoteCache;
      commits = empty-IsVoteCache;
      view_changes = remove_views_upto-IsViewCache v c.recv_view_change i.view_changes;
    }
apply-IsValid c (del h) i =
    unfold del_cache in
    record {
      signs = erase-IsVoteCache h c.sign_cache i.signs;
      commits = erase-IsVoteCache h c.commit_cache i.commits;
      view_changes = i.view_changes;
    }
apply-IsValid c (garbage h) i =
    unfold collect_garbage in
    record {
      signs = remove_invalid_entries-IsVoteCache h c.sign_cache i.signs;
      commits = remove_invalid_entries-IsVoteCache h c.commit_cache i.commits;
      view_changes = i.view_changes;
    }
apply-IsValid c (old_views h) i =
    unfold del_invalid_view_change in
    record {
      signs = i.signs;
      commits = i.commits;
      view_changes = remove_invalid_entries-IsViewCache h c.recv_view_change i.view_changes;
    }
apply-IsValid c (old_view v h) i = remove_invalid_view_change-IsValid c v h i

run_from-IsValid : (c : ReqCache) (ops : List CacheOp) → IsValid c → IsValid (run c ops)
unfolding run
run_from-IsValid c [] i = i
run_from-IsValid c (op ∷ ops) i = run_from-IsValid (apply c op) ops (apply-IsValid c op i)

-- After any sequence of operations on an empty cache, no block and no signature or index stands
-- twice, every vote stands under the hash of its block and its signature, and every view change
-- request under its view and its sender's index.
pub run-IsValid : (ops : List CacheOp) → IsValid (run empty_cache ops)
unfolding empty_cache
run-IsValid ops = run_from-IsValid empty_cache ops (record {
  signs = empty-IsVoteCache;
  commits = empty-IsVoteCache;
  view_changes = empty-IsViewCache;
})
