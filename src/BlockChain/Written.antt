-- ===== src/BlockChain/Written.antt =====
-- What `commitBlock` does to the tables, on each of its branches.
use lab_bcos.Base.{suc, ◌≡◌, ◌≢◌, refl, ◌⊎◌, inl, inr, Bool, true, none, some, arith}
use lab_bcos.Base.Tests.{◌==◌, ==_iff, Bool-cases}
use lab_bcos.Base.Lists.{length}
use lab_bcos.Sync.Blocks.{SyncBlock}
use lab_bcos.BlockChain.Tables.{
  SysTable, Tables, insert_row, number, number_hash, current_state, number_2_hash, hash_2_block,
  tx_hash_2_block,
}
use lab_bcos.BlockChain.Reads.{BlockChain}
use lab_bcos.BlockChain.Commit.{
  ok, write_row, new_count, place_txs, when_opened, write_number, write_total_transaction_count,
  write_tx_to_block, write_number_to_hash, write_hash_to_block, write_all, finish_commit,
  commit_block,
}

-- The tables with a block written to all of them.
unfoldable pub written : SyncBlock → Tables → Tables
written b t = record {
  heights = write_row t.heights b.number;
  counts = write_row t.counts (new_count t.counts (length b.contents.transactions));
  places = place_txs b.number 0 b.contents.transactions t.places;
  hashes = insert_row b.number b.header_hash t.hashes;
  blocks = insert_row b.header_hash b t.blocks;
}

-- All the tables open.
pub record AllOpen (opens : SysTable → Bool) : Type 0 where
  pub state : opens current_state ≡ true
  pub hashes : opens number_2_hash ≡ true
  pub blocks : opens hash_2_block ≡ true
  pub places : opens tx_hash_2_block ≡ true

-- A block that was committed: it fits onto the head, and is written to all tables.
pub record IsCommitted (opens : SysTable → Bool) (b : SyncBlock) (c d : BlockChain) : Type 0 where
  pub all_open : AllOpen opens
  pub next : b.number ≡ suc (number opens c.tables)
  pub parent : b.parent_hash ≡ number_hash opens (number opens c.tables) c.tables
  pub done : d ≡ record c { tables = written b c.tables; ready_calls = suc c.ready_calls }

module _ (opens : SysTable → Bool) where
  write_all-written :
      (b : SyncBlock) (t : Tables)
      → (write_all opens b t ≡ none) ⊎ (AllOpen opens × (write_all opens b t ≡ some (written b t)))
  unfolding write_all write_number write_total_transaction_count write_tx_to_block
      write_number_to_hash write_hash_to_block when_opened written
  write_all-written b t = elim (Bool-cases (opens current_state)) [
    | inr shut ↦ inl (rw (shut) refl)
    | inl state ↦ elim (Bool-cases (opens tx_hash_2_block)) [
      | inr shut ↦ inl (rw (state, shut) refl)
      | inl places ↦ elim (Bool-cases (opens number_2_hash)) [
        | inr shut ↦ inl (rw (state, places, shut) refl)
        | inl hashes ↦ elim (Bool-cases (opens hash_2_block)) [
          | inr shut ↦ inl (rw (state, places, hashes, shut) refl)
          | inl blocks ↦ inr (
            record { state = state; hashes = hashes; blocks = blocks; places = places },
            rw (state, places, hashes, blocks) refl,
          )
        ]
      ]
    ]
  ]

  -- A result of `commitBlock`: either it is not `OK` and nothing changed, or the block is committed.
  pub commit_cases :
      (free : Bool) (b : SyncBlock) (c : BlockChain)
      → (((commit_block opens free b c).1 ≢ ok) × ((commit_block opens free b c).0 ≡ c))
        ⊎ (((commit_block opens free b c).1 ≡ ok)
            × IsCommitted opens b c (commit_block opens free b c).0)
  unfolding commit_block finish_commit
  commit_cases free b c = elim (Bool-cases (b.number == suc (number opens c.tables))) [
    | inr other ↦ inl (rw (other) (λ e. ground arith), rw (other) refl)
    | inl next ↦
        elim (Bool-cases (b.parent_hash == number_hash opens (number opens c.tables) c.tables)) [
          | inr other ↦ inl (rw (next, other) (λ e. ground arith), rw (next, other) refl)
          | inl parent ↦ elim (Bool-cases free) [
            | inr busy ↦
                inl (rw (next, parent, busy) (λ e. ground arith), rw (next, parent, busy) refl)
            | inl got ↦ elim (write_all-written b c.tables) [
              | inl failed ↦ inl (
                rw (next, parent, got, failed) (λ e. ground arith),
                rw (next, parent, got, failed) refl,
              )
              | inr (all_open, wrote) ↦ inr (
                rw (next, parent, got, wrote) refl,
                record {
                  all_open = all_open;
                  next = (==_iff b.number (suc (number opens c.tables))).0 next;
                  parent =
                      (==_iff b.parent_hash (number_hash opens (number opens c.tables) c.tables)).0
                        parent;
                  done = rw (next, parent, got, wrote) refl;
                },
              )
            ]
          ]
        ]
  ]

  -- A block that fits is committed, where the mutex is free and all tables open.
  pub commit_fits :
      (b : SyncBlock) (c : BlockChain)
      → AllOpen opens
      → b.number ≡ suc (number opens c.tables)
      → b.parent_hash ≡ number_hash opens (number opens c.tables) c.tables
      → (commit_block opens true b c).1 ≡ ok
  unfolding commit_block finish_commit write_all write_number write_total_transaction_count
      write_tx_to_block write_number_to_hash write_hash_to_block when_opened
  commit_fits b c all next parent =
      rw
        (
          (==_iff b.number (suc (number opens c.tables))).1 next,
          (==_iff b.parent_hash (number_hash opens (number opens c.tables) c.tables)).1 parent,
          all.state,
          all.places,
          all.hashes,
          all.blocks,
        )
        refl
