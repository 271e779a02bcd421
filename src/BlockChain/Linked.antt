-- ===== src/BlockChain/Linked.antt =====
-- The tables always hold a chain of blocks: one at each height up to the head, each with the hash of
-- the one below it.
use lab_bcos.Base.{
  ℕ, suc, ◌≤◌, ◌<◌, ◌≡◌, refl, sym, ap, subst, ◌∙◌, inl, inr, Bool, false, none, some, List, [],
  ◌∷◌, arith,
}
use lab_bcos.Base.Tests.{◌==◌, ==_iff, ==_refl, Bool-cases}
use lab_bcos.Sync.Blocks.{SyncBlock}
use lab_bcos.BlockChain.Tables.{
  SysTable, Tables, select, first, first-append, first-append_new, select-insert_row, number,
  number_hash,
}
use lab_bcos.BlockChain.Reads.{BlockChain}
use lab_bcos.BlockChain.Commit.{write_row, commit_block}
use lab_bcos.BlockChain.Served.{stored}
use lab_bcos.BlockChain.Written.{written, AllOpen, commit_cases}

-- The block at a height: its hash stands at the height, the block stands under its hash, and its
-- parent is the block below.
pub record Link (opens : SysTable → Bool) (k : ℕ) (t : Tables) : Type 0 where
  pub block : SyncBlock
  pub listed : first (select k t.hashes) ≡ some block.header_hash
  pub kept : stored block.header_hash t ≡ some block
  pub height : block.number ≡ k
  pub parent : (j : ℕ) → k ≡ suc j → block.parent_hash ≡ number_hash opens j t

-- A block at each height up to the head, and no hash above it.
pub record IsLinked (opens : SysTable → Bool) (t : Tables) : Type 0 where
  pub link : (k : ℕ) → k ≤ number opens t → Link opens k t
  pub above : (k : ℕ) → number opens t < k → select k t.hashes ≡ []

first-write_row : (rows : List ℕ) (value : ℕ) → first (write_row rows value) ≡ some value
unfolding write_row
first-write_row [] value = refl
first-write_row (row ∷ rows) value = refl

module _ (opens : SysTable → Bool) (all : AllOpen opens) (b : SyncBlock) (t : Tables) where
  pub number-written : number opens (written b t) ≡ b.number
  unfolding number written
  number-written = rw (all.state, first-write_row t.heights b.number) refl

  -- The hash at a height stays, where it is not the height of the block.
  pub hash_below : (k : ℕ) → k < b.number → select k (written b t).hashes ≡ select k t.hashes
  unfolding written
  hash_below k below =
      rw (select-insert_row b.number k b.header_hash t.hashes) (ground (arith, ==_iff b.number k))

  hash_above : (k : ℕ) → b.number < k → select k (written b t).hashes ≡ select k t.hashes
  unfolding written
  hash_above k above =
      rw (select-insert_row b.number k b.header_hash t.hashes) (ground (arith, ==_iff b.number k))

  number_hash_below :
      (k : ℕ) → k < b.number → number_hash opens k (written b t) ≡ number_hash opens k t
  unfolding number_hash
  number_hash_below k below = rw (hash_below k below) refl

  -- What the storage has under a hash stays.
  pub stored_kept : (h : ℕ) (v : SyncBlock) → stored h t ≡ some v → stored h (written b t) ≡ some v
  unfolding stored written
  stored_kept h v e =
      rw (select-insert_row b.header_hash h b t.blocks) (elim (Bool-cases (b.header_hash == h)) [
        | inl same ↦ rw (same) (
            first-append (select b.header_hash t.blocks) b v
              (ap (λ k. first (select k t.blocks)) ((==_iff b.header_hash h).0 same) ∙ e))
        | inr other ↦ rw (other) e
      ])

  pub stored_new : stored b.header_hash t ≡ none → stored b.header_hash (written b t) ≡ some b
  unfolding stored written
  stored_new e =
      rw (select-insert_row b.header_hash b.header_hash b t.blocks, ==_refl b.header_hash)
        (first-append_new (select b.header_hash t.blocks) b e)

  pub listed_new :
      select b.number t.hashes ≡ []
      → first (select b.number (written b t).hashes) ≡ some b.header_hash
  unfolding written
  listed_new free =
      rw (select-insert_row b.number b.number b.header_hash t.hashes, ==_refl b.number, free) refl

  kept-Link : (k : ℕ) → k < b.number → Link opens k t → Link opens k (written b t)
  kept-Link k below link = record {
    block = link.block;
    listed = ap first (hash_below k below) ∙ link.listed;
    kept = stored_kept link.block.header_hash link.block link.kept;
    height = link.height;
    parent = λ j e. link.parent j e ∙ sym (number_hash_below j (omega (arith, e)));
  }

  module _ (next : b.number ≡ suc (number opens t))
      (fits : b.parent_hash ≡ number_hash opens (number opens t) t)
      (new : stored b.header_hash t ≡ none) (linked : IsLinked opens t) where
    new-Link : Link opens b.number (written b t)
    new-Link = record {
      block = b;
      listed = listed_new (linked.above b.number (omega (arith, next)));
      kept = stored_new new;
      height = refl;
      parent = λ j e.
          fits
          ∙ ap (λ k. number_hash opens k t) (omega (arith, next, e))
          ∙ sym (number_hash_below j (omega (arith, e)));
    }

    is_below : (k : ℕ) → k ≤ number opens (written b t) → (k == b.number) ≡ false → k < b.number
    is_below k up_to other = ground (arith, number-written, ==_iff k b.number)

    written-IsLinked : IsLinked opens (written b t)
    written-IsLinked = record {
      link = λ k up_to. elim (Bool-cases (k == b.number)) [
        | inl same ↦
            subst (λ i. Link opens i (written b t)) (sym ((==_iff k b.number).0 same)) new-Link
        | inr other ↦
            kept-Link k (is_below k up_to other)
              (linked.link k (omega (arith, next, is_below k up_to other)))
      ];
      above = λ k beyond.
          hash_above k (omega (arith, beyond, number-written))
          ∙ linked.above k (omega (arith, beyond, number-written, next));
    }

module _ (opens : SysTable → Bool) (free : Bool) (b : SyncBlock) (c : BlockChain) where
  -- Whatever `commitBlock` returns, the tables still hold a chain of blocks, where no other block has
  -- the block's hash.
  pub commit_block-IsLinked :
      IsLinked opens c.tables
      → stored b.header_hash c.tables ≡ none
      → IsLinked opens (commit_block opens free b c).0.tables
  commit_block-IsLinked linked new = elim (commit_cases opens free b c) [
    | inl (failed, same) ↦ subst (λ d. IsLinked opens d.tables) (sym same) linked
    | inr (succeeded, done) ↦
        subst (λ d. IsLinked opens d.tables) (sym done.done)
          (written-IsLinked opens done.all_open b c.tables done.next done.parent new linked)
  ]
