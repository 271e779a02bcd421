-- ===== src/BlockChain/Examples.antt =====
-- The chain of blocks at work: a genesis block, and one block above it.
use lab_bcos.Base.{suc, ◌≡◌, refl, Bool, true, false, none, some, [], ◌∷◌}
use lab_bcos.Base.Lists.{contains, IsUnique}
use lab_bcos.TxPool.Types.{Tx}
use lab_bcos.BlockChain.Placed.{hashes_of, get_tx_by_hash-commit_block}
use lab_bcos.Sync.Blocks.{SyncBlock}
use lab_bcos.Sync.Examples.{make_block}
use lab_bcos.Base.Dict.{lookup, insert}
use lab_bcos.Sync.Download.Chained.{Commits}
use lab_bcos.Sync.Download.{Ledger}
use lab_bcos.BlockChain.Committed.{chain_ledger, Outcome, chain_ledger-Outcome}
use lab_bcos.BlockChain.History.{genesis_chain, at_height, block_hashes, History}
use lab_bcos.BlockChain.History.Genesis.{genesis-Holds}
use lab_bcos.BlockChain.History.Kept.{hash_or_zero, get_block_by_number-at_height}
use lab_bcos.BlockChain.Tables.{SysTable, select, insert_row, number, number_hash}
use lab_bcos.BlockChain.Reads.{BlockChain, get_tx_by_hash, get_block_by_number}
use lab_bcos.BlockChain.Commit.{
  ok, commit_block, finish_commit, write_all, write_number, write_total_transaction_count,
  write_tx_to_block, write_number_to_hash, write_hash_to_block, when_opened,
}
use lab_bcos.BlockChain.Served.{stored}
use lab_bcos.BlockChain.Written.{AllOpen}
use lab_bcos.BlockChain.Sound.{IsSound, commit_block-IsSound}

abbrev every_table : SysTable → Bool
every_table table = true

abbrev every_table-AllOpen : AllOpen every_table
every_table-AllOpen = record { state = refl; hashes = refl; blocks = refl; places = refl }

-- The chain of the genesis block, and the chain after block 1.
abbrev genesis : BlockChain
genesis = genesis_chain (make_block 0)

abbrev one_block : BlockChain
one_block = (commit_block every_table true (make_block 1) genesis).0

genesis-IsSound : IsSound every_table genesis
genesis-IsSound = (genesis-Holds every_table every_table-AllOpen (make_block 0) refl).sound

unused_hash : stored 101 genesis.tables ≡ none
unfolding genesis_chain stored select insert_row lookup insert
unused_hash = refl

commit_block-IsSound_example : IsSound every_table one_block
commit_block-IsSound_example =
    commit_block-IsSound every_table true (make_block 1) genesis genesis-IsSound unused_hash

other_hash : contains (block_hashes (make_block 0 ∷ [])) 101 ≡ false
unfolding contains
other_hash = refl

committed_1 : (commit_block every_table true (make_block 1) genesis).1 ≡ ok
unfolding genesis_chain insert_row insert number number_hash select lookup commit_block write_all
    write_number write_total_transaction_count write_tx_to_block write_number_to_hash
    write_hash_to_block when_opened finish_commit
committed_1 = refl

one_block-History : History every_table (make_block 0) (make_block 1 ∷ make_block 0 ∷ []) one_block
one_block-History = History.commits true (make_block 1) History.start other_hash committed_1

get_block_by_number-at_height_example :
    ((get_block_by_number every_table 1 one_block).0
      ≡ at_height 1 (make_block 1 ∷ make_block 0 ∷ []))
    × (number_hash every_table 1 one_block.tables
        ≡ hash_or_zero (at_height 1 (make_block 1 ∷ make_block 0 ∷ [])))
    × (suc (number every_table one_block.tables) ≡ 2)
get_block_by_number-at_height_example =
    get_block_by_number-at_height every_table (make_block 0) (make_block 1 ∷ make_block 0 ∷ [])
      one_block 1 every_table-AllOpen refl one_block-History

abbrev ledger : Ledger BlockChain
ledger = chain_ledger every_table true (λ c b parent. true)

chain_ledger-Outcome_example :
    Commits ledger
    × Outcome ledger true
        (make_block 1)
        (make_block 0 ∷ [])
        genesis
        (ledger.commit_block (make_block 1) genesis)
chain_ledger-Outcome_example =
    chain_ledger-Outcome every_table true (λ c b parent. true) (make_block 0) (make_block 1)
      (make_block 0 ∷ []) genesis refl every_table-AllOpen History.start other_hash

abbrev sent_tx : Tx
sent_tx = record {
  hash = 900;
  sender = 5;
  nonce = 1;
  block_limit = 50;
  receive_address = 6;
  import_time = 0;
}

-- A block 1 with one transaction.
abbrev full_block : SyncBlock
full_block = record {
  number = 1;
  parent_hash = 100;
  header_hash = 101;
  rlp_size = 500;
  contents = record {
    block_hash = 101;
    block_number = 1;
    transactions = sent_tx ∷ [];
    transaction_receipts = [];
  };
}

full_block_committed : (commit_block every_table true full_block genesis).1 ≡ ok
unfolding genesis_chain insert_row insert number number_hash select lookup commit_block write_all
    write_number write_total_transaction_count write_tx_to_block write_number_to_hash
    write_hash_to_block when_opened finish_commit
full_block_committed = refl

no_such_tx : select 900 genesis.tables.places ≡ []
unfolding genesis_chain select lookup
no_such_tx = refl

one_hash : IsUnique (hashes_of full_block.contents.transactions)
unfolding contains
one_hash = (refl, tt)

get_tx_by_hash-commit_block_example :
    (get_tx_by_hash every_table 900 (commit_block every_table true full_block genesis).0).0
    ≡ some sent_tx
get_tx_by_hash-commit_block_example =
    get_tx_by_hash-commit_block every_table true full_block genesis 0 sent_tx genesis-IsSound
      unused_hash one_hash no_such_tx refl full_block_committed
