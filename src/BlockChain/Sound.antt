-- ===== src/BlockChain/Sound.antt =====
-- Commits keep the chain of blocks and the agreement of the cache with it.
use lab_bcos.Base.{
  ℕ, suc, ◌≡◌, refl, sym, ap, subst, ◌∙◌, inl, inr, Bool, Option, none, some, arith,
}
use lab_bcos.Base.Tests.{◌==◌, ==_iff, Bool-cases}
use lab_bcos.Sync.Blocks.{SyncBlock}
use lab_bcos.BlockChain.Tables.{
  SysTable, Tables, select, first, first-append_new, select-insert_row, number_hash,
}
use lab_bcos.BlockChain.Reads.{BlockChain, get_block, block_at, get_block_by_number}
use lab_bcos.BlockChain.Commit.{commit_block}
use lab_bcos.BlockChain.Served.{IsServed, stored}
use lab_bcos.BlockChain.Written.{written, AllOpen, commit_cases}
use lab_bcos.BlockChain.Linked.{IsLinked, commit_block-IsLinked, stored_kept}

-- The tables hold a chain of blocks, and the cache agrees with them.
pub record IsSound (opens : SysTable → Bool) (c : BlockChain) : Type 0 where
  pub linked : IsLinked opens c.tables
  pub served : IsServed c

pub same_block : (b v : SyncBlock) → Option.some b ≡ some v → b ≡ v
same_block b v e = ground arith

-- A block that is written stands under its own hash.
written_filed :
    (b : SyncBlock) (t : Tables)
    → ((h : ℕ) (v : SyncBlock) → stored h t ≡ some v → v.header_hash ≡ h)
    → stored b.header_hash t ≡ none
    → (h : ℕ) (v : SyncBlock) → stored h (written b t) ≡ some v
    → v.header_hash ≡ h
unfolding stored written
written_filed b t filed new h v =
    rw (select-insert_row b.header_hash h b t.blocks) (elim (Bool-cases (b.header_hash == h)) [
      | inr other ↦ rw (other) (filed h v)
      | inl same ↦
          rw (same, first-append_new (select b.header_hash t.blocks) b new)
            (λ e.
              ap (λ w. w.header_hash) (sym (same_block b v e)) ∙ (==_iff b.header_hash h).0 same)
    ])

committed-IsServed :
    (opens : SysTable → Bool) (b : SyncBlock) (c : BlockChain)
    → AllOpen opens
    → IsServed c
    → stored b.header_hash c.tables ≡ none
    → IsServed (record c { tables = written b c.tables; ready_calls = suc c.ready_calls })
committed-IsServed opens b c all served new = record {
  filed = written_filed b c.tables served.filed new;
  cached = λ h v e. stored_kept opens all b c.tables h v (served.cached h v e);
  in_step = served.in_step;
}

-- Where no other block has the block's hash, `commitBlock` keeps the tables a chain of blocks with
-- the cache in agreement with them, whatever it returns.
pub commit_block-IsSound :
    (opens : SysTable → Bool) (free : Bool) (b : SyncBlock) (c : BlockChain)
    → IsSound opens c
    → stored b.header_hash c.tables ≡ none
    → IsSound opens (commit_block opens free b c).0
commit_block-IsSound opens free b c sound new = record {
  linked = commit_block-IsLinked opens free b c sound.linked new;
  served = elim (commit_cases opens free b c) [
    | inl (failed, same) ↦ subst IsServed (sym same) sound.served
    | inr (succeeded, done) ↦
        subst IsServed (sym done.done) (committed-IsServed opens b c done.all_open sound.served new)
  ];
}

module _ (opens : SysTable → Bool) (all : AllOpen opens) (k : ℕ) (c : BlockChain) where
  -- The read through the table of heights.
  pub by_number :
      (h : ℕ)
      → first (select k c.tables.hashes) ≡ some h
      → get_block_by_number opens k c ≡ get_block opens h c
  unfolding get_block_by_number block_at
  by_number h e = rw (all.hashes, e) refl

  pub hash_at :
      (h : ℕ) → first (select k c.tables.hashes) ≡ some h → number_hash opens k c.tables ≡ h
  unfolding number_hash
  hash_at h e = rw (all.hashes, e) refl
