-- ===== src/Pbft/Engine/Miners.antt =====
-- The order of the miners, the node's place among them, and who may fill the queue.
use mathlib.Core.List.{Perm, Permᴰ}
use mathlib.Core.Logic.{∥∥₁_elim}
use lab_bcos.Base.{
  ℕ, suc, ◌+◌, ◌%◌, ◌^◌, ◌-◌, ◌<◌, ◌≡◌, refl, ap, sym, subst, ◌∙◌, Bool, false, Option, none, some,
  List, [], ◌∷◌, arith, inl, inr,
}
use lab_bcos.Base.Tests.{◌==◌, Bool-cases, Option-cases}
use lab_bcos.Base.Lists.{length, get_or}
use lab_bcos.Pbft.Msg.{max_idx}
use lab_bcos.Pbft.Engine.{
  Engine, Env, AccountType, next_index, index_by_miner, miner_by_index, get_leader,
}
use lab_bcos.Pbft.Engine.Report.{reset_config-SameProgress}
use lab_bcos.Pbft.Engine.Config.{
  insert_sorted, sort, update_node_list, find_self, set_counts, reset_config,
}

insert_sorted_comm :
    (a b : ℕ) (xs : List ℕ)
    → insert_sorted a (insert_sorted b xs) ≡ insert_sorted b (insert_sorted a xs)
unfolding insert_sorted
insert_sorted_comm a b [] = ground arith
insert_sorted_comm a b (x ∷ xs) = ground (arith, insert_sorted_comm a b xs)

sort_permᴰ : {xs ys : List ℕ} → Permᴰ xs ys → sort xs ≡ sort ys
unfolding sort
sort_permᴰ Permᴰ.nil = refl
sort_permᴰ (Permᴰ.cons e d) = λ i. insert_sorted (e i) (sort_permᴰ d i)
sort_permᴰ (Permᴰ.swap {a = a} {b = b} {l = l} e f) =
    insert_sorted_comm a b (sort l) ∙ λ i. insert_sorted (f i) (insert_sorted (e i) (sort l))
sort_permᴰ (Permᴰ.trans d e) = sort_permᴰ d ∙ sort_permᴰ e

-- Sorting the miners forgets in which order the chain lists them.
pub sort_perm : {xs ys : List ℕ} → Perm xs ys → sort xs ≡ sort ys
sort_perm {xs} {ys} p =
    let is_set : IsSet (List ℕ) = hlevel in ∥∥₁_elim p (is_set (sort xs) (sort ys)) sort_permᴰ

length-insert_sorted : (a : ℕ) (xs : List ℕ) → length (insert_sorted a xs) ≡ suc (length xs)
unfolding insert_sorted
length-insert_sorted a [] = refl
length-insert_sorted a (x ∷ xs) = ground (arith, length-insert_sorted a xs)

length-sort : (xs : List ℕ) → length (sort xs) ≡ length xs
unfolding sort
length-sort [] = refl
length-sort (x ∷ xs) = length-insert_sorted x (sort xs) ∙ ap suc (length-sort xs)

-- What `getIndexByMiner` found, if anything, is a place of the node.
abbrev pub IsPlace : List ℕ → ℕ → Option ℕ → Type 0
IsPlace xs node none = Unit
IsPlace xs node (some i) = (i < length xs) × (get_or xs i 0 ≡ node)

next_index-IsPlace :
    (x : ℕ) (xs : List ℕ) (node : ℕ) (o : Option ℕ)
    → IsPlace xs node o
    → IsPlace (x ∷ xs) node (next_index o)
next_index-IsPlace x xs node none p = tt
next_index-IsPlace x xs node (some i) p =
    let e : suc i ≡ i + 1 = omega arith in
    (omega (arith, p.0), subst (λ j. get_or (x ∷ xs) j 0 ≡ node) e p.1)

index_by_miner-IsPlace : (xs : List ℕ) (node : ℕ) → IsPlace xs node (index_by_miner xs node)
unfolding index_by_miner
index_by_miner-IsPlace [] node = tt
index_by_miner-IsPlace (x ∷ xs) node = elim (Bool-cases (x == node)) [
  | inl h ↦ rw h (omega arith, ground (arith, h))
  | inr h ↦
      rw h (next_index-IsPlace x xs node (index_by_miner xs node) (index_by_miner-IsPlace xs node))
]

-- An index that `getIndexByMiner` finds leads back to the node.
pub get_or-index_by_miner :
    (xs : List ℕ) (node i : ℕ)
    → index_by_miner xs node ≡ some i
    → (i < length xs) × (get_or xs i 0 ≡ node)
get_or-index_by_miner xs node i e = subst (IsPlace xs node) e (index_by_miner-IsPlace xs node)

miner_list-find_self : (s : Engine) → (find_self s).miner_list ≡ s.miner_list
unfolding find_self
miner_list-find_self s = elim (Option-cases (index_by_miner s.miner_list s.public_key)) [
  | inl e ↦ rw (e, find_self) refl
  | inr (i, e) ↦ rw (e, find_self) refl
]

node_num-reset_config :
    (env : Env) (s : Engine)
    → (reset_config env s).node_num ≡ length (sort env.chain_miners) % 2 ^ 16
unfolding reset_config set_counts update_node_list
node_num-reset_config env s =
    ap (λ xs. length xs % 65536)
      (miner_list-find_self (update_node_list env (record s { idx = 65535 })))

find_self-none : (s : Engine) → index_by_miner s.miner_list s.public_key ≡ none → find_self s ≡ s
unfolding find_self
find_self-none s e = rw (e, find_self) refl

find_self-some :
    (s : Engine) (i : ℕ)
    → index_by_miner s.miner_list s.public_key ≡ some i
    → find_self s ≡ record s { account_type = AccountType.miner; idx = i % 2 ^ 16 }
unfolding find_self
find_self-some s i e = rw (e, find_self) refl

-- A node without a configuration error stands at its own index.
KnowsItself : ℕ → Engine → Type 0
KnowsItself node t =
    (set_counts t).cfg_err ≡ false → miner_by_index (set_counts t) (set_counts t).idx ≡ node

find_self-KnowsItself :
    (s : Engine)
    → length s.miner_list < 2 ^ 16 - 1
    → s.idx ≡ max_idx
    → KnowsItself s.public_key (find_self s)
unfolding set_counts miner_by_index KnowsItself
find_self-KnowsItself s few lost = elim (Option-cases (index_by_miner s.miner_list s.public_key)) [
  | inl e ↦
      subst (KnowsItself s.public_key) (sym (find_self-none s e))
        (λ fine. ground (arith, lost, fine))
  | inr (i, e) ↦
      let (lt, at) = get_or-index_by_miner s.miner_list s.public_key i e in
      let small : i % 65536 ≡ i = omega (arith, lt, few) in
      subst (KnowsItself s.public_key) (sym (find_self-some s i e)) (λ fine. rw small at)
]

-- After `resetConfig`, a node without a configuration error is a miner under the index it holds:
-- the miner with that index is the node itself, where the chain has fewer than 2 ^ 16 - 1 miners.
pub reset_config_self :
    (env : Env) (s : Engine)
    → length env.chain_miners < 2 ^ 16 - 1
    → (reset_config env s).cfg_err ≡ false
    → miner_by_index (reset_config env s) (reset_config env s).idx ≡ s.public_key
unfolding reset_config update_node_list KnowsItself
reset_config_self env s few fine =
    let itself =
      find_self-KnowsItself (update_node_list env (record s { idx = 65535 })) (rw length-sort few)
        refl in
    itself fine

leader_congr :
    (s t : Engine)
    → s.cfg_err ≡ t.cfg_err
    → s.leader_failed ≡ t.leader_failed
    → s.highest ≡ t.highest
    → s.view ≡ t.view
    → s.node_num ≡ t.node_num
    → get_leader s ≡ get_leader t
unfolding get_leader
leader_congr s t c l h v n = rw (c, l, h, v, n)

miner_list-reset_config :
    (env : Env) (s : Engine) → (reset_config env s).miner_list ≡ sort env.chain_miners
unfolding reset_config set_counts update_node_list
miner_list-reset_config env s =
    miner_list-find_self (update_node_list env (record s { idx = 65535 }))

-- The node that leads, where there is a leader: `getLeader`, then `getMinerByIndex`.
abbrev pub leading_node : Engine → Bool × ℕ
leading_node s = ((get_leader s).0, miner_by_index s (get_leader s).1)

same_leader :
    (env env' : Env) (s t : Engine)
    → Perm env.chain_miners env'.chain_miners
    → s.view ≡ t.view
    → s.highest ≡ t.highest
    → s.leader_failed ≡ t.leader_failed
    → (reset_config env s).cfg_err ≡ (reset_config env' t).cfg_err
    → get_leader (reset_config env s) ≡ get_leader (reset_config env' t)
same_leader env env' s t p v h l c =
    let a = reset_config-SameProgress env s in
    let b = reset_config-SameProgress env' t in
    leader_congr (reset_config env s) (reset_config env' t) c (a.same_trust ∙ l ∙ sym b.same_trust)
      (a.same_highest ∙ h ∙ sym b.same_highest) (a.same_view ∙ v ∙ sym b.same_view)
      (node_num-reset_config env s
        ∙ ap (λ xs. length xs % 65536) (sort_perm p)
        ∙ sym (node_num-reset_config env' t))

-- Two nodes that count the same miners, whatever order the chain gives them in, have the same
-- leader for the same view and highest block, where they agree on whether they are configured and
-- whether the leader failed: the leader's index is the same, and so is the node that stands at it, as
-- at every other index.
pub leader_agreement :
    (env env' : Env) (s t : Engine)
    → Perm env.chain_miners env'.chain_miners
    → s.view ≡ t.view
    → s.highest ≡ t.highest
    → s.leader_failed ≡ t.leader_failed
    → (reset_config env s).cfg_err ≡ (reset_config env' t).cfg_err
    → (leading_node (reset_config env s) ≡ leading_node (reset_config env' t))
      × (get_leader (reset_config env s) ≡ get_leader (reset_config env' t))
      × ((i : ℕ) → miner_by_index (reset_config env s) i ≡ miner_by_index (reset_config env' t) i)
unfolding miner_by_index
leader_agreement env env' s t p v h l c =
    let leader = same_leader env env' s t p v h l c in
    let miners : (reset_config env s).miner_list ≡ (reset_config env' t).miner_list =
      miner_list-reset_config env s ∙ sort_perm p ∙ sym (miner_list-reset_config env' t) in
    (
      (λ i. ((leader i).0, get_or (miners i) (leader i).1 0)),
      leader,
      λ i. ap (λ xs. get_or xs i 0) miners,
    )
