-- ===== src/Pbft/Engine/Safety.antt =====
-- When `checkAndSave` commits, what it then does, and with which signatures.
pub mod Signatures
pub mod Kept
use lab_bcos.Base.{
  ℕ, suc, ◌≤◌, ◌≡◌, ◌≢◌, refl, ap, subst, ◌∙◌, Bool, true, ◌&&◌, ◌⊎◌, Option, none, some, List, [],
  ◌∷◌, map, arith, inl, inr,
}
use lab_bcos.Base.Tests.{Bool-cases, Option-cases, if◌then◌else◌}
use lab_bcos.Base.Lists.{length}
use lab_bcos.Base.Int.{◌<ℤ◌, eqz, ltz, eqz→eq, eqz_refl}
use lab_bcos.Base.Dict.{lookup, erase, retain, Dict, IsMap, other_key, lookup-retain, kept}
use lab_bcos.Pbft.Msg.{Block, Msg, clear_prepare, empty_msg}
use lab_bcos.Pbft.VoteCache.{or_empty, votes, vote_count}
use lab_bcos.Pbft.ReqCache.{
  ReqCache, sig_cache_size, commit_cache_size, generate_and_set_sig_list, clear_all_except_commit,
  del_cache,
}
use lab_bcos.Pbft.Engine.{Engine, Env, Flow, Effect, emit, min_valid_nodes}
use lab_bcos.Pbft.Engine.Commit.{
  clear_after_commit, commit_prepared, enough_votes, save_block, check_and_save,
}
use Flow.{returned, thrown}
use Effect.{notes_sealing, commits, drops_transactions, reports_bad_block}

-- The block of the prepare cache may be committed: it has enough votes of both kinds, belongs to
-- the current view, and is higher than the highest block.
pub record IsReady (s : Engine) : Type 0 where
  pub signed : min_valid_nodes s ≤ sig_cache_size s.req_cache s.req_cache.prepare_cache.block_hash
  pub committed :
      min_valid_nodes s ≤ commit_cache_size s.req_cache s.req_cache.prepare_cache.block_hash
  pub current : s.req_cache.prepare_cache.view ≡ s.view
  pub higher : s.highest.number <ℤ s.req_cache.prepare_cache.height

and_left : (a b : Bool) → (a && b) ≡ true → a ≡ true
and_left a b h = ground arith

and_right : (a b : Bool) → (a && b) ≡ true → b ≡ true
and_right a b h = ground arith

abbrev pub is_ready : Engine → Bool
is_ready s =
    enough_votes s
    && (eqz s.req_cache.prepare_cache.view s.view
        && ltz s.highest.number s.req_cache.prepare_cache.height)

is_ready→IsReady : (s : Engine) → is_ready s ≡ true → IsReady s
unfolding enough_votes
is_ready→IsReady s h = record {
  signed = ground arith;
  committed = ground arith;
  current = eqz→eq _ _ (ground arith);
  higher = ground arith;
}

IsReady→is_ready : (s : Engine) → IsReady s → is_ready s ≡ true
unfolding enough_votes
IsReady→is_ready s r = ground (arith, r.signed, r.committed, r.current, r.higher, eqz_refl s.view)

length-map {ℓ m} :
    {A : Type ℓ} {B : Type m} (f : A → B) (xs : List A) → length (map f xs) ≡ length xs
length-map f [] = refl
length-map f (x ∷ xs) = ap suc (length-map f xs)

-- A block that `checkAndSave` may commit carries at least `minValidNodes` signatures.
pub committed_signatures :
    (s : Engine) (b : Block)
    → IsReady s
    → min_valid_nodes s ≤ length (generate_and_set_sig_list s.req_cache b).0.sig_list
unfolding commit_cache_size vote_count votes
committed_signatures s b r =
    split (lookup s.req_cache.prepare_cache.block_hash s.req_cache.commit_cache) refl
  where
    enough :
        (o : Option (Dict Msg))
        → lookup s.req_cache.prepare_cache.block_hash s.req_cache.commit_cache ≡ o
        → min_valid_nodes s ≤ length (or_empty o)
    enough o e = subst (λ x. min_valid_nodes s ≤ length (or_empty x)) e r.committed

    split :
        (o : Option (Dict Msg))
        → lookup s.req_cache.prepare_cache.block_hash s.req_cache.commit_cache ≡ o
        → min_valid_nodes s ≤ length (generate_and_set_sig_list s.req_cache b).0.sig_list
    split none e = omega (arith, enough none e)
    split (some d) e =
        unfold generate_and_set_sig_list in
        rw (e, generate_and_set_sig_list, length-map) (enough (some d) e)

-- The (index, signature) pairs of the commit votes for the prepared block.
abbrev pub commit_votes : ReqCache → List (ℕ × ℕ)
commit_votes c = map (λ e. (e.1.idx, e.0)) (votes c.prepare_cache.block_hash c.commit_cache)

-- What a commit of the prepared block does. The chain gets the block, with the context of its
-- execution, and with the index and the signature of each commit vote as its signature list. Where
-- the chain takes the block, its transactions are dropped from the pool; otherwise the sealer is
-- told of the chain's height and the block is reported as bad. The hash of the prepared block, the
-- sign votes and the view changes are cleared, and only the caches and the calls change.
pub record Commits (env : Env) (s : Engine) (b : Block) (t : Engine) : Type 0 where
  pub signed : Block
  pub same_header : signed.header ≡ b.header
  pub same_transactions : signed.transactions ≡ b.transactions
  pub signatures : (signed.sig_list ≡ commit_votes s.req_cache) ⊎ (min_valid_nodes s ≡ 0)
  pub enough : min_valid_nodes s ≤ length signed.sig_list
  pub calls : t.out ≡ (
      if env.commit_block signed s.req_cache.prepare_cache.exec_context
      then drops_transactions signed ∷ commits signed s.req_cache.prepare_cache.exec_context ∷ s.out
      else reports_bad_block signed
        ∷ notes_sealing env.chain_number
        ∷ commits signed s.req_cache.prepare_cache.exec_context
        ∷ s.out)
  pub no_prepared : t.req_cache.prepare_cache.block_hash ≡ 0
  pub no_sign_votes : t.req_cache.sign_cache ≡ []
  pub no_view_changes : t.req_cache.recv_view_change ≡ []
  pub rest : t ≡ record s { out = t.out; req_cache = t.req_cache }

signed_by_votes :
    (s : Engine) (b : Block)
    → IsReady s
    → ((generate_and_set_sig_list s.req_cache b).0.sig_list ≡ commit_votes s.req_cache)
      ⊎ (min_valid_nodes s ≡ 0)
unfolding generate_and_set_sig_list commit_cache_size vote_count votes
signed_by_votes s b r =
    elim (Option-cases (lookup s.req_cache.prepare_cache.block_hash s.req_cache.commit_cache)) [
      | inl e ↦ inr (omega (arith, none_at e))
      | inr (d, e) ↦ inl (rw (e, generate_and_set_sig_list) refl)
    ]
  where
    none_at :
        lookup s.req_cache.prepare_cache.block_hash s.req_cache.commit_cache ≡ none
        → min_valid_nodes s ≤ 0
    none_at e = subst (λ x. min_valid_nodes s ≤ length (or_empty x)) e r.committed

same_body :
    (c : ReqCache) (b : Block)
    → ((generate_and_set_sig_list c b).0.header ≡ b.header)
      × ((generate_and_set_sig_list c b).0.transactions ≡ b.transactions)
unfolding generate_and_set_sig_list
same_body c b = elim (Option-cases (lookup c.prepare_cache.block_hash c.commit_cache)) [
  | inl e ↦ rw (e, generate_and_set_sig_list) (refl, refl)
  | inr (d, e) ↦ rw (e, generate_and_set_sig_list) (refl, refl)
]

commit_prepared-Commits :
    (env : Env) (s : Engine) (b : Block) → IsReady s → Commits env s b (commit_prepared env s b)
unfolding commit_prepared clear_after_commit clear_all_except_commit del_cache clear_prepare
    empty_msg emit erase retain
commit_prepared-Commits env s b r = record {
  signed = (generate_and_set_sig_list s.req_cache b).0;
  same_header = (same_body s.req_cache b).0;
  same_transactions = (same_body s.req_cache b).1;
  signatures = signed_by_votes s b r;
  enough = committed_signatures s b r;
  calls =
      elim (Bool-cases (
        env.commit_block (generate_and_set_sig_list s.req_cache b).0
          s.req_cache.prepare_cache.exec_context)) [ inl e ↦ rw e refl | inr e ↦ rw e refl ];
  no_prepared = refl;
  no_sign_votes = refl;
  no_view_changes = refl;
  rest =
      elim (Bool-cases (
        env.commit_block (generate_and_set_sig_list s.req_cache b).0
          s.req_cache.prepare_cache.exec_context)) [ inl e ↦ rw e refl | inr e ↦ rw e refl ];
}

-- The outcomes of `checkAndSave`.
pub data Saves (env : Env) (s : Engine) : Engine × Flow → Type 0 where
  commits_block :
      (b : Block) (t : Engine)
      → IsReady s
      → s.req_cache.prepare_cache.block ≡ some b
      → Commits env s b t
      → Saves env s (t, returned)
  undecodable : IsReady s → s.req_cache.prepare_cache.block ≡ none → Saves env s (s, thrown)
  waits : ¬ IsReady s → Saves env s (s, returned)

save_block-Saves :
    (env : Env) (s : Engine) (o : Option Block)
    → IsReady s
    → s.req_cache.prepare_cache.block ≡ o
    → Saves env s (save_block env s o)
unfolding save_block
save_block-Saves env s none r e = Saves.undecodable r e
save_block-Saves env s (some b) r e =
    Saves.commits_block b (commit_prepared env s b) r e (commit_prepared-Commits env s b r)

-- `checkAndSave` commits the prepared block exactly when the block has at least `minValidNodes`
-- sign votes and as many commit votes, is of the current view, is above the highest block and
-- decodes. The chain then gets the block with the commit votes for it as its signature list (unless
-- `minValidNodes` is 0), at least `minValidNodes` signatures; what it answers decides whether the
-- pool drops the block's transactions, or the sealer is told the chain's height and the block is
-- reported as bad; and the prepared block's hash, the sign votes and the view changes are cleared.
-- It throws where only the decoding fails, and changes nothing otherwise.
pub check_and_save-Saves : (env : Env) (s : Engine) → Saves env s (check_and_save env s)
unfolding check_and_save
check_and_save-Saves env s = elim (Bool-cases (is_ready s)) [
  | inl e ↦
      rw e (save_block-Saves env s s.req_cache.prepare_cache.block (is_ready→IsReady s e) refl)
  | inr e ↦ rw e (Saves.waits (λ r. cc (IsReady→is_ready s r, e)))
]
