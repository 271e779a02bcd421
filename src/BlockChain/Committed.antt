-- ===== src/BlockChain/Committed.antt =====
-- The chain as block synchronisation and the transaction pool see it.
use lab_bcos.Base.{
  ℕ, suc, ◌∷◌, ◌≡◌, ◌≢◌, ◌⊎◌, refl, sym, ap, ◌∙◌, inl, inr, Bool, true, false, Option, none, some,
  List, [], arith,
}
use lab_bcos.Base.Tests.{◌==◌, Bool-cases, ==_iff}
use lab_bcos.Base.Lists.{length, contains}
use lab_bcos.TxPool.Types.{Tx}
use lab_bcos.Sync.Blocks.{SyncBlock}
use lab_bcos.Sync.Download.{Ledger}
use lab_bcos.Sync.Download.Chained.{Commits}
use lab_bcos.BlockChain.Tables.{SysTable, number, number_hash}
use lab_bcos.BlockChain.Reads.{BlockChain, get_block_by_number}
use lab_bcos.BlockChain.Commit.{CommitResult, ok, commit_block}
use lab_bcos.BlockChain.Written.{AllOpen, commit_cases, commit_fits}
use lab_bcos.BlockChain.History.{at_height, block_hashes, History, commits, Holds}
use lab_bcos.BlockChain.History.Kept.{History-Holds, read_at_height, hash_or_zero}
use lab_bcos.BlockChain.Linked.{number-written}
use CommitResult.{error_number, error_parent_hash, error_committing, open_sys_table_failed}

unfoldable pub is_ok : CommitResult → Bool
is_ok ok = true
is_ok error_number = false
is_ok error_parent_hash = false
is_ok error_committing = false
is_ok open_sys_table_failed = false

abbrev pub txs_of : Option SyncBlock → List Tx
txs_of none = []
txs_of (some b) = b.contents.transactions

-- The ledger that the chain is to block synchronisation. Its reads leave the cache as it was, since
-- a read does not return the chain there; `executes` is the answer of the block verifier. The
-- exception `OpenSysTableFailed`, which comes only where a table does not open, counts as a failed
-- commit.
unfoldable pub chain_ledger :
    (SysTable → Bool)
    → Bool
    → (BlockChain → SyncBlock → Option SyncBlock → Bool)
    → Ledger BlockChain
chain_ledger opens free executes = record {
  number = λ c. number opens c.tables;
  number_hash = λ c i. number_hash opens i c.tables;
  block_by_number = λ c i. (get_block_by_number opens i c).0;
  executes = executes;
  commit_block = λ b c. ((commit_block opens free b c).0, is_ok (commit_block opens free b c).1);
  view = λ c. record {
    number = number opens c.tables;
    transactions_at = λ i. txs_of (get_block_by_number opens i c).0;
  };
}

is_ok_only : (r : CommitResult) → r ≢ ok → is_ok r ≡ false
unfolding is_ok
is_ok_only ok other = absurd (other refl)
is_ok_only error_number other = refl
is_ok_only error_parent_hash other = refl
is_ok_only error_committing other = refl
is_ok_only open_sys_table_failed other = refl

chain_ledger-Commits :
    (opens : SysTable → Bool) (free : Bool)
    (executes : BlockChain → SyncBlock → Option SyncBlock → Bool)
    → Commits (chain_ledger opens free executes)
unfolding chain_ledger is_ok
chain_ledger-Commits opens free executes = record {
  raises = λ b c succeeded. elim (commit_cases opens free b c) [
    | inl (failed, same) ↦
        absurd (ground (arith, is_ok_only (commit_block opens free b c).1 failed))
    | inr (done_ok, done) ↦
        ap (λ d. number opens d.tables) done.done ∙ number-written opens done.all_open b c.tables
  ];
  keeps = λ b c failed. elim (commit_cases opens free b c) [
    | inl (other, same) ↦ same
    | inr (done_ok, done) ↦ absurd (ground (arith, ap is_ok done_ok))
  ];
}

-- A ledger whose head is a block that was put on a list of blocks: what it gives for each height.
pub record IsHead {C : Type 0} (ledger : Ledger C) (b : SyncBlock) (bs : List SyncBlock) (d : C)
    : Type 0 where
  pub height : ledger.number d ≡ b.number
  pub top : ledger.block_by_number d (ledger.number d) ≡ some b
  pub hash : ledger.number_hash d (ledger.number d) ≡ b.header_hash
  pub below : (k : ℕ) → ledger.block_by_number d k ≡ at_height k (b ∷ bs)
  pub pool_height : (ledger.view d).number ≡ b.number
  pub pool_block : (ledger.view d).transactions_at b.number ≡ b.contents.transactions

top_of :
    (bs : List SyncBlock) (b : SyncBlock) (k : ℕ)
    → suc k ≡ length (b ∷ bs)
    → at_height k (b ∷ bs) ≡ some b
unfolding at_height
top_of bs b k e = ground (arith, e, ==_iff k (length bs))

-- A commit succeeds with the block as the new head, or fails and changes nothing, which it does
-- only where the block does not fit or another commit is at work.
pub data Outcome {C : Type 0} (ledger : Ledger C) (free : Bool) (b : SyncBlock)
    (bs : List SyncBlock) (c : C) : C × Bool → Type 0 where
  succeeds :
      (d : C)
      → b.number ≡ suc (ledger.number c)
      → b.parent_hash ≡ ledger.number_hash c (ledger.number c)
      → IsHead ledger b bs d
      → Outcome ledger free b bs c (d, true)
  fails :
      (b.number ≢ suc (ledger.number c))
        ⊎ ((b.parent_hash ≢ ledger.number_hash c (ledger.number c)) ⊎ (free ≡ false))
      → Outcome ledger free b bs c (c, false)

module _ (opens : SysTable → Bool) (free : Bool)
    (executes : BlockChain → SyncBlock → Option SyncBlock → Bool) where
  Holds-IsHead :
      (b : SyncBlock) (bs : List SyncBlock) (d : BlockChain)
      → AllOpen opens
      → Holds opens (b ∷ bs) d
      → number opens d.tables ≡ b.number
      → IsHead (chain_ledger opens free executes) b bs d
  unfolding chain_ledger
  Holds-IsHead b bs d all h height =
      let top : at_height (number opens d.tables) (b ∷ bs) ≡ some b =
        top_of bs b (number opens d.tables) h.count in
      let r = read_at_height opens all (b ∷ bs) d (number opens d.tables) h in
      record {
        height = height;
        top = r.0 ∙ top;
        hash = r.1 ∙ ap hash_or_zero top;
        below = λ k. (read_at_height opens all (b ∷ bs) d k h).0;
        pool_height = height;
        pool_block =
            ap (λ k. txs_of (get_block_by_number opens k d).0) (sym height) ∙ ap txs_of (r.0 ∙ top);
      }

  why_failed :
      (b : SyncBlock) (c : BlockChain)
      → AllOpen opens
      → (commit_block opens free b c).1 ≢ ok
      → (b.number ≢ suc (number opens c.tables))
        ⊎ ((b.parent_hash ≢ number_hash opens (number opens c.tables) c.tables) ⊎ (free ≡ false))
  why_failed b c all failed = elim (Bool-cases free) [
    | inr busy ↦ inr (inr busy)
    | inl got ↦ elim (Bool-cases (b.number == suc (number opens c.tables))) [
      | inr other ↦
          inl (λ e. ground (arith, other, (==_iff b.number (suc (number opens c.tables))).1 e))
      | inl next ↦ inr (
          inl (λ e. failed (
            ap (λ f. (commit_block opens f b c).1) got
            ∙ commit_fits opens b c all ((==_iff b.number (suc (number opens c.tables))).0 next)
                e)))
    ]
  ]

  -- `commitBlock` does for block synchronisation what its interface promises. Where all tables
  -- open, on a chain that got from a genesis block of height 0 by commits and reads to a list of
  -- blocks no two of which have the same hash, and with a block whose hash none of them has: either
  -- it reports success, the block fits onto the head by its height and its parent, and is the new
  -- head, with its hash at its height and its transactions for the pool, while the block at each
  -- lower height is the one of the list; or it reports no success, since the block does not fit or
  -- another commit is at work, and the chain is as it was.
  pub chain_ledger-Outcome :
      (g b : SyncBlock) (bs : List SyncBlock) (c : BlockChain)
      → g.number ≡ 0
      → AllOpen opens
      → History opens g bs c
      → contains (block_hashes bs) b.header_hash ≡ false
      → Commits (chain_ledger opens free executes)
        × Outcome
            (chain_ledger opens free executes)
            free
            b
            bs
            c
            ((chain_ledger opens free executes).commit_block b c)
  unfolding chain_ledger is_ok
  chain_ledger-Outcome g b bs c first_block all history new = (
    chain_ledger-Commits opens free executes,
    elim (commit_cases opens free b c) [
      | inl (failed, same) ↦
          rw (is_ok_only (commit_block opens free b c).1 failed, same)
            (Outcome.fails (why_failed b c all failed))
      | inr (done_ok, done) ↦
          let d = (commit_block opens free b c).0 in
          let h = History-Holds opens all g first_block (commits free b history new done_ok) in
          let height =
            ap (λ e. number opens e.tables) done.done ∙ number-written opens all b c.tables in
          rw (done_ok) (Outcome.succeeds d done.next done.parent (Holds-IsHead b bs d all h height))
    ],
  )
