-- ===== src/Sync/Download/Chained.antt =====
-- The chain grows only by blocks that follow its head.
use lab_bcos.Base.{
  ℕ, suc, ◌-◌, ◌≤◌, ◌≡◌, refl, inl, inr, Bool, true, false, ◌&&◌, List, [], ◌∷◌, arith,
}
use lab_bcos.Base.Tests.{leb, Bool-cases}
use lab_bcos.TxPool.Types.{Pool}
use lab_bcos.TxPool.Drop.{drop_block_trans, handle_bad_block}
use lab_bcos.TxPool.Run.{IsGood, drop_block_trans-IsGood}
use lab_bcos.Sync.Blocks.{SyncBlock}
use lab_bcos.Sync.Download.{Ledger, is_new_block, committed, take_block, take_blocks}

-- What `commitBlock` promises: a block that is committed is the new head, and one that is not leaves
-- the chain as it was.
pub record Commits {C : Type 0} (ledger : Ledger C) : Type 0 where
  pub raises :
      (b : SyncBlock) (c : C)
      → (ledger.commit_block b c).1 ≡ true
      → ledger.number (ledger.commit_block b c).0 ≡ b.number
  pub keeps :
      (b : SyncBlock) (c : C)
      → (ledger.commit_block b c).1 ≡ false
      → (ledger.commit_block b c).0 ≡ c

-- A block that may follow the chain's head: the next height, the head's hash as its parent, and
-- accepted by the consensus.
pub record Follows {C : Type 0} (ledger : Ledger C) (ok : SyncBlock → Bool) (c : C) (b : SyncBlock)
    : Type 0 where
  pub next : b.number ≡ suc (ledger.number c)
  pub parent : b.parent_hash ≡ ledger.number_hash c (ledger.number c)
  pub accepted : ok b ≡ true

-- The chain `d` is the chain `c` with some blocks committed, each of which followed the head.
pub data Grows {C : Type 0} (ledger : Ledger C) (ok : SyncBlock → Bool) : C → C → Type 0 where
  same : (c : C) → Grows ledger ok c c
  more :
      (c d : C) (b : SyncBlock)
      → Follows ledger ok c b
      → (ledger.commit_block b c).1 ≡ true
      → Grows ledger ok (ledger.commit_block b c).0 d
      → Grows ledger ok c d

pub Grows-le :
    {C : Type 0} (ledger : Ledger C) (ok : SyncBlock → Bool) {c d : C}
    → Commits ledger
    → Grows ledger ok c d
    → ledger.number c ≤ ledger.number d
Grows-le ledger ok commits (same c) = omega arith
Grows-le ledger ok commits (more c d b follows done rest) =
    omega (arith, commits.raises b c done, follows.next, Grows-le ledger ok commits rest)

module _ {C : Type 0} (ledger : Ledger C) (ok : SyncBlock → Bool) where
  committed_ok :
      (b : SyncBlock) (r : C × Bool) (p : Pool)
      → r.1 ≡ true
      → committed ledger ok b r p ≡ (r.0, (drop_block_trans (ledger.view r.0) b.contents p).0)
  unfolding committed
  committed_ok b (c, true) p e = refl
  committed_ok b (c, false) p e = absurd (ground arith)

  committed_failed :
      (b : SyncBlock) (r : C × Bool) (p : Pool) → r.1 ≡ false → committed ledger ok b r p ≡ (r.0, p)
  unfolding committed handle_bad_block
  committed_failed b (c, true) p e = absurd (ground arith)
  committed_failed b (c, false) p e = refl

  new-Follows : (c : C) (b : SyncBlock) → is_new_block ledger ok c b ≡ true → Follows ledger ok c b
  unfolding is_new_block
  new-Follows c b e = record { next = ground arith; parent = ground arith; accepted = ground arith }

  -- What one block does to the chain and the pool.
  record Taken (n : ℕ) (c : C) (p : Pool) (s : C × Pool) : Type 0 where
    grows : (d : C) → Grows ledger ok s.0 d → Grows ledger ok c d
    pool_good : IsGood n s.1

  take_block-Taken :
      (n : ℕ) (b : SyncBlock) (c : C) (p : Pool)
      → Commits ledger
      → IsGood n p
      → Taken n c p (take_block ledger ok b (c, p))
  unfolding take_block
  take_block-Taken n b c p commits good =
      elim (Bool-cases (
        is_new_block ledger ok c b
        && ledger.executes c b (ledger.block_by_number c (b.number - 1)))) [
          | inr refused ↦ rw refused (record { grows = λ d g. g; pool_good = good })
          | inl new ↦ rw new (elim (Bool-cases (ledger.commit_block b c).1) [
            | inl done ↦ rw (committed_ok b (ledger.commit_block b c) p done) (record {
              grows = λ d g. more c d b (new-Follows c b (ground arith)) done g;
              pool_good = drop_block_trans-IsGood n _ b.contents p good;
            })
            | inr failed ↦
                rw (committed_failed b (ledger.commit_block b c) p failed)
                  (record { grows = λ d g. rw (commits.keeps b c failed) at g; pool_good = good })
          ])
        ]

  -- Taking the fetched blocks, the chain grows only by blocks that each have the next height, the
  -- head's hash as their parent, and the consent of the consensus; and the pool stays in agreement
  -- and within its limit.
  pub take_blocks-Grows :
      (n : ℕ) (bs : List SyncBlock) (c : C) (p : Pool)
      → Commits ledger
      → IsGood n p
      → Grows ledger ok c (take_blocks ledger ok bs (c, p)).1.0
        × IsGood n (take_blocks ledger ok bs (c, p)).1.1
  unfolding take_blocks
  take_blocks-Grows n [] c p commits good = (same c, good)
  take_blocks-Grows n (b ∷ bs) c p commits good =
      elim (Bool-cases (leb b.number (suc (ledger.number c)))) [
        | inr ahead ↦ rw ahead (same c, good)
        | inl due ↦ rw due (
            let step = take_block-Taken n b c p commits good in
            let rest =
              take_blocks-Grows n bs (take_block ledger ok b (c, p)).0
                (take_block ledger ok b (c, p)).1 commits step.pool_good in
            (step.grows _ rest.0, rest.1))
      ]
