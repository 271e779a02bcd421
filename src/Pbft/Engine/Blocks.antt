-- ===== src/Pbft/Engine/Blocks.antt =====
-- What `checkBlock` tells of a block that synchronisation hands over.
use lab_bcos.Base.{
  ℕ, suc, zero, ◌≤◌, ◌<◌, ◌≡◌, ◌≢◌, ◌↔◌, refl, ap, subst, true, List, [], ◌∷◌, arith,
}
use lab_bcos.Base.Lists.{length, get_or}
use lab_bcos.Pbft.Msg.{Block}
use lab_bcos.Pbft.Engine.{Engine, Env, miner_by_index, min_valid_nodes}
use lab_bcos.Pbft.Engine.Check.{same_list, check_sig_list, check_block}

-- Each pair of an index and a signature is a signature on the hash by the miner of that index.
abbrev pub AllSigned : Env → List ℕ → ℕ → List (ℕ × ℕ) → Type 0
AllSigned env miners hash [] = Unit
AllSigned env miners hash ((i, sig) ∷ rest) =
    (i < length miners)
    × (env.verify (get_or miners i 0) sig hash ≡ true)
    × AllSigned env miners hash rest

-- A block with the node's own miners, a sealer among them, enough signatures, each of them right,
-- and no more transactions than are allowed.
pub record IsSealed (env : Env) (s : Engine) (b : Block) : Type 0 where
  pub same_miners : s.miner_list ≡ b.header.sealer_list
  pub has_sealer : miner_by_index s b.header.sealer ≢ 0
  pub enough : min_valid_nodes s ≤ length b.sig_list
  pub signed : AllSigned env s.miner_list b.header.hash b.sig_list
  pub small : length b.transactions ≤ env.tx_count_limit b.header.number

same_list→eq : (xs ys : List ℕ) → same_list xs ys ≡ true → xs ≡ ys
unfolding same_list
same_list→eq [] [] h = refl
same_list→eq [] (y ∷ ys) h = ground (arith, h)
same_list→eq (x ∷ xs) [] h = ground (arith, h)
same_list→eq (x ∷ xs) (y ∷ ys) h = ground (arith, h, same_list→eq xs ys)

same_list_refl : (xs : List ℕ) → same_list xs xs ≡ true
unfolding same_list
same_list_refl [] = refl
same_list_refl (x ∷ xs) = ground (arith, same_list_refl xs)

module _ (env : Env) (miners : List ℕ) (hash : ℕ) where
  all_signed :
      (sigs : List (ℕ × ℕ))
      → check_sig_list env miners hash sigs ≡ true
      → AllSigned env miners hash sigs
  unfolding check_sig_list
  all_signed [] h = tt
  all_signed ((i, sig) ∷ rest) h =
      (ground (arith, h), ground (arith, h), all_signed rest (ground (arith, h)))

  signed_all :
      (sigs : List (ℕ × ℕ))
      → AllSigned env miners hash sigs
      → check_sig_list env miners hash sigs ≡ true
  unfolding check_sig_list
  signed_all [] a = refl
  signed_all ((i, sig) ∷ rest) a = ground (arith, a.0, a.1, signed_all rest a.2)

-- `checkBlock` passes a block exactly when its miners are the node's, its sealer is one of them, it
-- has at least `minValidNodes` signatures, each is that of the miner with its index on the block's
-- hash, and its transactions are within the limit for its number.
pub check_block_iff :
    (env : Env) (s : Engine) (b : Block) → (check_block env s b ≡ true) ↔ IsSealed env s b
unfolding check_block
check_block_iff env s b = (to, from)
  where
    to : check_block env s b ≡ true → IsSealed env s b
    to h = record {
      same_miners = same_list→eq s.miner_list b.header.sealer_list (ground (arith, h));
      has_sealer = ground (arith, h);
      enough = ground (arith, h);
      signed = all_signed env s.miner_list b.header.hash b.sig_list (ground (arith, h));
      small = ground (arith, h);
    }

    from : IsSealed env s b → check_block env s b ≡ true
    from r =
        let same : same_list s.miner_list b.header.sealer_list ≡ true =
          subst (λ xs. same_list s.miner_list xs ≡ true) r.same_miners
            (same_list_refl s.miner_list) in
        ground (
          arith,
          same,
          r.has_sealer,
          r.enough,
          r.small,
          signed_all env s.miner_list b.header.hash b.sig_list r.signed,
        )

abbrev pub copies : ℕ → ℕ × ℕ → List (ℕ × ℕ)
copies zero e = []
copies (suc n) e = e ∷ copies n e

length-copies : (n : ℕ) (e : ℕ × ℕ) → length (copies n e) ≡ n
length-copies zero e = refl
length-copies (suc n) e = ap suc (length-copies n e)

copies_signed :
    (env : Env) (miners : List ℕ) (hash i sig n : ℕ)
    → i < length miners
    → env.verify (get_or miners i 0) sig hash ≡ true
    → AllSigned env miners hash (copies n (i, sig))
copies_signed env miners hash i sig zero lt v = tt
copies_signed env miners hash i sig (suc n) lt v =
    (lt, v, copies_signed env miners hash i sig n lt v)

-- A block that `checkBlock` passes still passes when its signatures are replaced by as many copies
-- of its first one: a miner is not asked to sign only once.
pub check_block-copies :
    (env : Env) (s : Engine) (b : Block) (e : ℕ × ℕ) (rest : List (ℕ × ℕ))
    → b.sig_list ≡ e ∷ rest
    → check_block env s b ≡ true
    → check_block env s (record b { sig_list = copies (length b.sig_list) e }) ≡ true
check_block-copies env s b e rest list h =
    let sealed = (check_block_iff env s b).0 h in
    let (lt, v, more) = subst (AllSigned env s.miner_list b.header.hash) list sealed.signed in
    let n = length b.sig_list in
    (check_block_iff env s (record b { sig_list = copies n e })).1 (record {
      same_miners = sealed.same_miners;
      has_sealer = sealed.has_sealer;
      enough = omega (arith, length-copies n e, sealed.enough);
      signed = copies_signed env s.miner_list b.header.hash e.0 e.1 n lt v;
      small = sealed.small;
    })
