-- ===== src/BlockChain/History.antt =====
-- The chain is the list of the blocks that were committed, the newest first and the genesis block last.
pub mod Genesis
pub mod Kept
use lab_bcos.Base.{
  ℕ, zero, suc, ◌+◌, ◌-◌, ◌≤◌, ◌<◌, ◌≡◌, ◌≢◌, refl, sym, ap, subst, ◌∙◌, ◌⊎◌, inl, inr, Bool, true,
  false, Option, none, some, List, [], ◌∷◌, map, arith,
}
use lab_bcos.Base.Tests.{◌==◌, ==_iff, ==_refl, if◌then◌else◌, Bool-cases, Option-cases}
use lab_bcos.Base.Lists.{length, contains}
use lab_bcos.Base.Dict.{lookup}
use lab_bcos.Sync.Blocks.{SyncBlock}
use lab_bcos.BlockChain.Tables.{
  SysTable, Tables, select, insert_row, first, or_zero, select-insert_row, select-insert_row_same,
  select-insert_row_other, number, number_hash,
}
use lab_bcos.BlockChain.Cache.{empty_cache, get}
use lab_bcos.BlockChain.Cache.Fifo.{keys}
use lab_bcos.BlockChain.Reads.{
  BlockChain, get_block, get_block_by_number, block_at, get_tx_by_hash, tx_at, pick_tx,
}
use lab_bcos.BlockChain.Commit.{ok, commit_block}
use lab_bcos.BlockChain.Served.{IsServed, Reads, stored, get_block-Reads}
use lab_bcos.BlockChain.Written.{written, AllOpen, IsCommitted, commit_cases}
use lab_bcos.BlockChain.Linked.{
  Link, IsLinked, hash_below, listed_new, stored_new, stored_kept, number-written,
}
use lab_bcos.BlockChain.Sound.{IsSound, commit_block-IsSound, by_number, hash_at}

-- The chain with the rows of the genesis block, as `checkAndBuildGenesisBlock` writes them.
unfoldable pub genesis_chain : SyncBlock → BlockChain
genesis_chain g = record {
  tables = record {
    heights = [];
    counts = [];
    places = [];
    hashes = insert_row g.number g.header_hash [];
    blocks = insert_row g.header_hash g [];
  };
  cache = empty_cache;
  ready_calls = 0;
}

-- The block at a height of the list.
unfoldable pub at_height : ℕ → List SyncBlock → Option SyncBlock
at_height k [] = none
at_height k (b ∷ bs) = if k == length bs then some b else at_height k bs

abbrev pub block_hashes : List SyncBlock → List ℕ
block_hashes bs = map (λ b. b.header_hash) bs

-- What a chain gets to from its genesis block by commits and reads, with the list of the blocks
-- committed. No two blocks that are handed to `commitBlock` and committed have the same hash.
pub data History (opens : SysTable → Bool) (g : SyncBlock)
    : List SyncBlock → BlockChain → Type 0 where
  start : History opens g (g ∷ []) (genesis_chain g)
  commits :
      {bs : List SyncBlock} {c : BlockChain} (free : Bool) (b : SyncBlock)
      → History opens g bs c
      → contains (block_hashes bs) b.header_hash ≡ false
      → (commit_block opens free b c).1 ≡ ok
      → History opens g (b ∷ bs) (commit_block opens free b c).0
  refuses :
      {bs : List SyncBlock} {c : BlockChain} (free : Bool) (b : SyncBlock)
      → History opens g bs c
      → (commit_block opens free b c).1 ≢ ok
      → History opens g bs (commit_block opens free b c).0
  reads :
      {bs : List SyncBlock} {c : BlockChain} (h : ℕ)
      → History opens g bs c
      → History opens g bs (get_block opens h c).1
  reads_at :
      {bs : List SyncBlock} {c : BlockChain} (k : ℕ)
      → History opens g bs c
      → History opens g bs (get_block_by_number opens k c).1
  searches :
      {bs : List SyncBlock} {c : BlockChain} (h : ℕ)
      → History opens g bs c
      → History opens g bs (get_tx_by_hash opens h c).1

-- The tables hold just the blocks of the list, each at its height, and the cache agrees with them.
pub record Holds (opens : SysTable → Bool) (bs : List SyncBlock) (c : BlockChain) : Type 0 where
  pub sound : IsSound opens c
  pub count : suc (number opens c.tables) ≡ length bs
  pub listed :
      (k : ℕ) (b : SyncBlock)
      → at_height k bs ≡ some b
      → first (select k c.tables.hashes) ≡ some b.header_hash
  pub kept :
      (k : ℕ) (b : SyncBlock) → at_height k bs ≡ some b → stored b.header_hash c.tables ≡ some b
  pub fresh : (h : ℕ) → contains (block_hashes bs) h ≡ false → stored h c.tables ≡ none

pub at_height_below :
    (k : ℕ) (bs : List SyncBlock) (b : SyncBlock) → at_height k bs ≡ some b → k < length bs
unfolding at_height
at_height_below k [] b e = absurd (ground (arith, e))
at_height_below k (v ∷ bs) b e = ground (arith, e, ==_iff k (length bs), at_height_below k bs b)

pub at_height_above : (k : ℕ) (bs : List SyncBlock) → at_height k bs ≡ none → length bs ≤ k
unfolding at_height
at_height_above k [] e = omega arith
at_height_above k (v ∷ bs) e = ground (arith, e, ==_iff k (length bs), at_height_above k bs)

-- A read keeps what the tables hold.
pub Holds-Reads :
    (opens : SysTable → Bool) (bs : List SyncBlock) (c d : BlockChain)
    → d.tables ≡ c.tables
    → IsServed d
    → Holds opens bs c
    → Holds opens bs d
Holds-Reads opens bs c d same served h = record {
  sound = record { linked = subst (IsLinked opens) (sym same) h.sound.linked; served = served };
  count = ap (λ t. suc (number opens t)) same ∙ h.count;
  listed = λ k b e. ap (λ t. first (select k t.hashes)) same ∙ h.listed k b e;
  kept = λ k b e. ap (stored b.header_hash) same ∙ h.kept k b e;
  fresh = λ k e. ap (stored k) same ∙ h.fresh k e;
}
