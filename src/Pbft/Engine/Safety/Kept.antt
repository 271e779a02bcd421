-- ===== src/Pbft/Engine/Safety/Kept.antt =====
-- The commit votes that `checkAndSave` leaves in the cache.
use lab_bcos.Base.{ℕ, ◌≡◌, refl, ap, ◌∙◌, Option, none, some, arith, inl, inr, ◌≢◌}
use lab_bcos.Base.Tests.{Bool-cases}
use lab_bcos.Base.Dict.{lookup, erase, IsMap, other_key, lookup-retain, kept}
use lab_bcos.Pbft.Msg.{Block, clear_prepare, empty_msg}
use lab_bcos.Pbft.VoteCache.{or_empty, votes}
use lab_bcos.Pbft.ReqCache.{ReqCache, clear_all_except_commit, del_cache}
use lab_bcos.Pbft.Engine.{Engine, Env}
use lab_bcos.Pbft.Engine.Commit.{clear_after_commit, commit_prepared, save_block, check_and_save}
use lab_bcos.Pbft.Engine.Safety.{is_ready}

kept_other : {V : Type 0} (hash : ℕ) → hash ≢ 0 → (o : Option V) → kept (other_key 0) hash o ≡ o
kept_other hash ne none = refl
kept_other hash ne (some v) = ground (arith, ne)

votes-clear_after_commit :
    (c : ReqCache) (hash : ℕ)
    → hash ≢ 0
    → IsMap c.commit_cache
    → votes hash (clear_after_commit c).commit_cache ≡ votes hash c.commit_cache
unfolding votes clear_after_commit del_cache clear_all_except_commit clear_prepare erase empty_msg
votes-clear_after_commit c hash ne keys = ap or_empty (
    lookup-retain (other_key 0) hash c.commit_cache keys
    ∙ kept_other hash ne (lookup hash c.commit_cache))

votes-save_block :
    (env : Env) (s : Engine) (o : Option Block) (hash : ℕ)
    → hash ≢ 0
    → IsMap s.req_cache.commit_cache
    → votes hash (save_block env s o).0.req_cache.commit_cache ≡ votes hash s.req_cache.commit_cache
unfolding save_block commit_prepared
votes-save_block env s none hash ne keys = refl
votes-save_block env s (some b) hash ne keys = votes-clear_after_commit s.req_cache hash ne keys

-- `checkAndSave` keeps the commit votes for every block with another hash than 0, also those for the
-- block that it commits, where no hash stands twice among the commit votes: `delCache` gets the hash
-- of the prepare cache, which was cleared just before.
pub votes-check_and_save :
    (env : Env) (s : Engine) (hash : ℕ)
    → hash ≢ 0
    → IsMap s.req_cache.commit_cache
    → votes hash (check_and_save env s).0.req_cache.commit_cache
      ≡ votes hash s.req_cache.commit_cache
unfolding check_and_save
votes-check_and_save env s hash ne keys = elim (Bool-cases (is_ready s)) [
  | inl e ↦ rw e (votes-save_block env s s.req_cache.prepare_cache.block hash ne keys)
  | inr e ↦ rw e refl
]
