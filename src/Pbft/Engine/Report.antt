-- ===== src/Pbft/Engine/Report.antt =====
-- What `reportBlock` does to the heights, the views and the votes.
use lab_bcos.Base.{ℕ, ◌≡◌, refl, ap, ◌∙◌, true, ◌||◌, Option, none, some, [], arith, inl, inr}
use lab_bcos.Base.Tests.{if◌then◌else◌, Bool-cases, Option-cases}
use lab_bcos.Base.Lists.{length}
use lab_bcos.Base.Int.{ℤ, pos, ◌<ℤ◌, ◌+ℤ◌, eqz, ltz, lez, inc64, max_int64}
use lab_bcos.Base.Dict.{IsMap, lookup, erase, other_key, kept, lookup-retain}
use lab_bcos.Pbft.Msg.{Block}
use lab_bcos.Pbft.VoteCache.{VoteCache, or_empty, votes, vote_count}
use lab_bcos.Pbft.ReqCache.{
  sig_cache_size, commit_cache_size, clear_all_except_commit, del_cache, del_invalid_view_change,
}
use lab_bcos.Pbft.Engine.{Engine, Env, index_by_miner}
use lab_bcos.Pbft.Engine.Config.{reset_config, set_counts, find_self, update_node_list}
use lab_bcos.Pbft.Engine.Commit.{next_round, accept_block, report_block}
use lab_bcos.Pbft.Engine.Views.{IsOrdered}

-- The block to agree on is above the highest one.
abbrev pub IsAhead : Engine → Type 0
IsAhead s = s.highest.number <ℤ s.consensus_number

-- Counting the miners changes none of these.
pub record SameProgress (s t : Engine) : Type 0 where
  pub same_view : t.view ≡ s.view
  pub same_to_view : t.to_view ≡ s.to_view
  pub same_number : t.consensus_number ≡ s.consensus_number
  pub same_highest : t.highest ≡ s.highest
  pub same_cache : t.req_cache ≡ s.req_cache
  pub same_trust : t.leader_failed ≡ s.leader_failed

find_self-SameProgress : (s : Engine) → SameProgress s (find_self s)
unfolding find_self
find_self-SameProgress s = elim (Option-cases (index_by_miner s.miner_list s.public_key)) [
  | inl e ↦
      rw (e, find_self)
        (record {
          same_view = refl;
          same_to_view = refl;
          same_number = refl;
          same_highest = refl;
          same_cache = refl;
          same_trust = refl;
        })
  | inr (i, e) ↦
      rw (e, find_self)
        (record {
          same_view = refl;
          same_to_view = refl;
          same_number = refl;
          same_highest = refl;
          same_cache = refl;
          same_trust = refl;
        })
]

pub reset_config-SameProgress : (env : Env) (s : Engine) → SameProgress s (reset_config env s)
unfolding reset_config set_counts update_node_list
reset_config-SameProgress env s =
    let p = find_self-SameProgress (update_node_list env (record s { idx = 65535 })) in
    record {
      same_view = p.same_view;
      same_to_view = p.same_to_view;
      same_number = p.same_number;
      same_highest = p.same_highest;
      same_cache = p.same_cache;
      same_trust = p.same_trust;
    }

-- The state of `accept_block` before the miners are counted again.
abbrev advanced : Env → Engine → Block → Engine
advanced env s b =
    let t = record s { highest = b.header } in
    if lez t.consensus_number t.highest.number then next_round env t else t

inc64_above : (a b : ℤ) → a ≡ b → b <ℤ max_int64 → b <ℤ inc64 a
unfolding inc64 ◌+ℤ◌
inc64_above a b e h = ground arith

advanced-IsAhead :
    (env : Env) (s : Engine) (b : Block) → b.header.number <ℤ max_int64 → IsAhead (advanced env s b)
unfolding next_round
advanced-IsAhead env s b room = elim (Bool-cases (lez s.consensus_number b.header.number)) [
  | inl e ↦ rw e (inc64_above b.header.number b.header.number refl room)
  | inr e ↦ rw e (ground arith)
]

-- `accept_block` counts the miners again and clears caches; the rest is as advanced.
accept_block-SameViews :
    (env : Env) (s : Engine) (b : Block)
    → let t = accept_block env s b in
      let u = advanced env s b in
      (t.view ≡ u.view)
      × (t.to_view ≡ u.to_view)
      × (t.consensus_number ≡ u.consensus_number)
      × (t.highest ≡ u.highest)
unfolding accept_block
accept_block-SameViews env s b =
    let p = reset_config-SameProgress env (advanced env s b) in
    (p.same_view, p.same_to_view, p.same_number, p.same_highest)

accept_block-IsAhead :
    (env : Env) (s : Engine) (b : Block)
    → b.header.number <ℤ max_int64
    → IsAhead (accept_block env s b)
accept_block-IsAhead env s b room =
    let (v, w, n, h) = accept_block-SameViews env s b in
    ahead (accept_block env s b) (advanced env s b) n (ap (λ x. x.number) h)
      (advanced-IsAhead env s b room)
  where
    ahead :
        (t u : Engine)
        → t.consensus_number ≡ u.consensus_number
        → t.highest.number ≡ u.highest.number
        → IsAhead u
        → IsAhead t
    ahead t u n h a = ground (arith, n, h, a)

-- `reportBlock` keeps the number of the next block above that of the highest block, where it was
-- and the reported block's number is below the largest `int64_t`.
pub report_block-IsAhead :
    (env : Env) (s : Engine) (b : Block)
    → b.header.number <ℤ max_int64
    → IsAhead s
    → IsAhead (report_block env s b)
unfolding report_block
report_block-IsAhead env s b room a =
    elim (Bool-cases (eqz env.chain_number (pos 0) || ltz s.highest.number b.header.number)) [
      | inl e ↦ rw e (accept_block-IsAhead env s b room)
      | inr e ↦ rw e a
    ]

advanced-IsOrdered :
    (env : Env) (s : Engine) (b : Block) → IsOrdered s → IsOrdered (advanced env s b)
unfolding next_round
advanced-IsOrdered env s b o = elim (Bool-cases (lez s.consensus_number b.header.number)) [
  | inl e ↦ rw e (omega arith)
  | inr e ↦ rw e o
]

IsOrdered-as : (t u : Engine) → t.view ≡ u.view → t.to_view ≡ u.to_view → IsOrdered u → IsOrdered t
IsOrdered-as t u v w o = ground (arith, v, w, o)

-- `reportBlock` keeps the view at or below the view to change to.
pub report_block-IsOrdered :
    (env : Env) (s : Engine) (b : Block) → IsOrdered s → IsOrdered (report_block env s b)
unfolding report_block
report_block-IsOrdered env s b o =
    let (v, w, n, h) = accept_block-SameViews env s b in
    elim (Bool-cases (eqz env.chain_number (pos 0) || ltz s.highest.number b.header.number)) [
      | inl e ↦ rw e (
          IsOrdered-as (accept_block env s b) (advanced env s b) v w (advanced-IsOrdered env s b o))
      | inr e ↦ rw e o
    ]

kept-none : {V : Type 0} (k : ℕ) (o : Option V) → kept (other_key k) k o ≡ none
kept-none k none = refl
kept-none k (some v) = ground arith

votes-erase : (hash : ℕ) (m : VoteCache) → IsMap m → votes hash (erase hash m) ≡ []
unfolding votes erase
votes-erase hash m keys =
    ap or_empty (lookup-retain (other_key hash) hash m keys ∙ kept-none hash (lookup hash m))

commit_cache-advanced :
    (env : Env) (s : Engine) (b : Block)
    → (advanced env s b).req_cache.commit_cache ≡ s.req_cache.commit_cache
unfolding next_round del_invalid_view_change
commit_cache-advanced env s b = elim (Bool-cases (lez s.consensus_number b.header.number)) [
  | inl e ↦ rw e
  | inr e ↦ rw e
]

highest-advanced : (env : Env) (s : Engine) (b : Block) → (advanced env s b).highest ≡ b.header
unfolding next_round
highest-advanced env s b = elim (Bool-cases (lez s.consensus_number b.header.number)) [
  | inl e ↦ rw e
  | inr e ↦ rw e
]

votes_gone :
    (hash k : ℕ) (m n : VoteCache) → k ≡ hash → m ≡ n → IsMap n → vote_count hash (erase k m) ≡ 0
unfolding vote_count
votes_gone hash k m n e f keys = ap length (
    ap (λ x. votes hash (erase x m)) e
    ∙ ap (λ x. votes hash (erase hash x)) f
    ∙ votes-erase hash n keys)

accept_block-forgets :
    (env : Env) (s : Engine) (b : Block)
    → IsMap s.req_cache.commit_cache
    → let t = accept_block env s b in
      (t.highest ≡ b.header)
      × (sig_cache_size t.req_cache b.header.hash ≡ 0)
      × (commit_cache_size t.req_cache b.header.hash ≡ 0)
unfolding accept_block del_cache clear_all_except_commit sig_cache_size commit_cache_size
accept_block-forgets env s b keys =
    let p = reset_config-SameProgress env (advanced env s b) in
    let h = p.same_highest ∙ highest-advanced env s b in
    (
      h,
      votes_gone b.header.hash _ [] [] (ap (λ x. x.hash) h) refl tt,
      votes_gone b.header.hash _ _ s.req_cache.commit_cache (ap (λ x. x.hash) h)
          (ap (λ x. x.commit_cache) p.same_cache ∙ commit_cache-advanced env s b) keys,
    )

-- After `reportBlock` has taken a block in (the chain is empty or the block is above the highest
-- one), it is the highest block, and no vote of either kind for it is left, where no hash stood
-- twice among the commit votes.
pub report_block-forgets :
    (env : Env) (s : Engine) (b : Block)
    → (eqz env.chain_number (pos 0) || ltz s.highest.number b.header.number) ≡ true
    → IsMap s.req_cache.commit_cache
    → let t = report_block env s b in
      (t.highest ≡ b.header)
      × (sig_cache_size t.req_cache b.header.hash ≡ 0)
      × (commit_cache_size t.req_cache b.header.hash ≡ 0)
unfolding report_block
report_block-forgets env s b newer keys = rw newer (accept_block-forgets env s b keys)
