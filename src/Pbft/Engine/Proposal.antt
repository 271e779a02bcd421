-- ===== src/Pbft/Engine/Proposal.antt =====
-- Which prepare requests `isValidPrepare` accepts.
use lab_bcos.Base.{ℕ, ◌≡◌, ◌≢◌, ◌↔◌, sym, ap, Bool, true, false, ◌&&◌, arith, inl, inr}
use lab_bcos.Base.Tests.{if◌then◌else◌, ◌==◌, ==_refl, Bool-cases}
use lab_bcos.Base.Int.{ℤ, eqz, eq_of_parts, eqz→eq}
use lab_bcos.Pbft.Msg.{Block, Msg, PrepareReq, Signer, prepare_block, signed_msg}
use lab_bcos.Pbft.ReqCache.{is_exist_prepare, add_future_prepare}
use lab_bcos.Pbft.Engine.{Engine, Env, miner_by_index, get_leader}
use lab_bcos.Pbft.Engine.Check.{
  has_consensused, is_future_block, is_hash_saved_after_commit, is_valid_leader, check_sign,
  is_valid_prepare,
}

-- A new request from the leader, for the block and the view that are due, for the block that was
-- saved if one of this height was, with both signatures right.
pub record IsAcceptable (env : Env) (s : Engine) (req : PrepareReq) : Type 0 where
  pub fresh : s.req_cache.raw_prepare_cache.block_hash ≢ req.block_hash
  pub height_due : req.height ≡ s.consensus_number
  pub view_due : req.view ≡ s.view
  pub from_leader : get_leader s ≡ (true, req.idx)
  pub hash_kept : is_hash_saved_after_commit s req.msg ≡ true
  pub signed : check_sign env s req.msg ≡ true

due_height :
    (s : Engine) (m : Msg)
    → has_consensused s m ≡ false
    → is_future_block s m ≡ false
    → m.height ≡ s.consensus_number
unfolding has_consensused is_future_block
due_height s m p q = eq_of_parts _ _ (ground arith)

due_view :
    (s : Engine) (m : Msg)
    → has_consensused s m ≡ false
    → is_future_block s m ≡ false
    → m.view ≡ s.view
unfolding has_consensused is_future_block
due_view s m p q = eq_of_parts _ _ (ground arith)

due_passes :
    (s : Engine) (m : Msg)
    → m.height ≡ s.consensus_number
    → m.view ≡ s.view
    → (has_consensused s m ≡ false) × (is_future_block s m ≡ false)
unfolding has_consensused is_future_block
due_passes s m h v = rw (h, v) (ground arith, ground arith)

leader_pair : (p : Bool × ℕ) (i : ℕ) → (p.0 && i == p.1) ≡ true → p ≡ (true, i)
leader_pair (b, j) i h = ground arith

all_tests :
    {A : Type 0} (x y : A) (a b c l k g : Bool)
    → (let r : A × Bool =
          if a
          then (x, false)
          else if b
          then (x, false)
          else if c
          then (y, false)
          else (x, l && (k && g)) in
        r.1 ≡ true)
    → (a ≡ false) × (b ≡ false) × (c ≡ false) × (l ≡ true) × (k ≡ true) × (g ≡ true)
all_tests x y true b c l k g h = ground (arith, h)
all_tests x y false true c l k g h = ground (arith, h)
all_tests x y false false true l k g h = ground (arith, h)
all_tests x y false false false l k g h = ground (arith, h)

accepted :
    (env : Env) (s : Engine) (req : PrepareReq)
    → (is_valid_prepare env s req).1 ≡ true
    → IsAcceptable env s req
unfolding is_valid_prepare is_exist_prepare is_valid_leader
accepted env s req h =
    let (a, b, c, l, k, g) =
      all_tests s (record s { req_cache = add_future_prepare s.req_cache req })
        (is_exist_prepare s.req_cache req) (has_consensused s req.msg) (is_future_block s req.msg)
        (is_valid_leader s req.msg) (is_hash_saved_after_commit s req.msg)
        (check_sign env s req.msg) h in
    record {
      fresh = ground (arith, a);
      height_due = due_height s req.msg b c;
      view_due = due_view s req.msg b c;
      from_leader = leader_pair (get_leader s) req.idx l;
      hash_kept = k;
      signed = g;
    }

acceptable :
    (env : Env) (s : Engine) (req : PrepareReq)
    → IsAcceptable env s req
    → (is_valid_prepare env s req) ≡ (s, true)
unfolding is_valid_prepare is_valid_leader is_exist_prepare
acceptable env s req a =
    let (p, q) = due_passes s req.msg a.height_due a.view_due in
    let e : (s.req_cache.raw_prepare_cache.block_hash == req.block_hash) ≡ false =
      ground (arith, a.fresh) in
    rw (e, p, q, a.from_leader, a.hash_kept, a.signed, ==_refl)

-- `isValidPrepare` accepts a request exactly when it is not the one of the raw cache, its height
-- and view are those that are due, its index is the leader's, its hash is the saved one if a
-- request of its height was saved, and both signatures are right; accepting changes nothing.
pub is_valid_prepare_iff :
    (env : Env) (s : Engine) (req : PrepareReq)
    → (is_valid_prepare env s req ≡ (s, true)) ↔ IsAcceptable env s req
is_valid_prepare_iff env s req = (λ e. accepted env s req (ap (λ r. r.1) e), acceptable env s req)

-- The signatures under a node's key verify, on every hash.
abbrev pub Verifies : Signer → (ℕ → ℕ → ℕ → Bool) → ℕ → Type 0
Verifies signer verify node = (h : ℕ) → verify node (signer.sign_hash h) h ≡ true

saved_passes :
    (s : Engine) (m : Msg)
    → s.req_cache.committed_prepare_cache.height ≢ m.height
    → is_hash_saved_after_commit s m ≡ true
unfolding is_hash_saved_after_commit
saved_passes s m ne = elim (Bool-cases (eqz m.height s.req_cache.committed_prepare_cache.height)) [
  | inl e ↦ absurd (ne (sym (eqz→eq _ _ e)))
  | inr e ↦ rw e
]

both_verify :
    (env : Env) (s : Engine) (signer : Signer) (b : Block) (view : ℤ) (idx : ℕ)
    → miner_by_index s idx ≢ 0
    → Verifies signer env.verify (miner_by_index s idx)
    → signer.fields_without_block ≡ env.signer.fields_without_block
    → check_sign env s (prepare_block signer b view idx).msg ≡ true
unfolding check_sign prepare_block signed_msg
both_verify env s signer b view idx known verifies same =
    let e : (miner_by_index s idx == 0) ≡ false = ground (arith, known) in
    rw (e, sym same, verifies b.header.hash, verifies)

-- A node that is due for the block and the view of a leader's new prepare request, and knows the
-- leader under its index, accepts the request: where signing and verifying agree on that leader,
-- both hash the fields of a request alike, the node has another request in its raw cache, and
-- saved no block of this height.
pub is_valid_prepare-prepare_block :
    (env : Env) (s : Engine) (signer : Signer) (b : Block) (view : ℤ) (idx : ℕ)
    → b.header.number ≡ s.consensus_number
    → view ≡ s.view
    → get_leader s ≡ (true, idx)
    → miner_by_index s idx ≢ 0
    → Verifies signer env.verify (miner_by_index s idx)
    → signer.fields_without_block ≡ env.signer.fields_without_block
    → s.req_cache.raw_prepare_cache.block_hash ≢ b.header.hash
    → s.req_cache.committed_prepare_cache.height ≢ b.header.number
    → is_valid_prepare env s (prepare_block signer b view idx) ≡ (s, true)
unfolding prepare_block signed_msg
is_valid_prepare-prepare_block env s signer b view idx number due leader known verifies same fresh
      unsaved =
    acceptable env s (prepare_block signer b view idx) (record {
      fresh = fresh;
      height_due = number;
      view_due = due;
      from_leader = leader;
      hash_kept = saved_passes s _ unsaved;
      signed = both_verify env s signer b view idx known verifies same;
    })
