-- ===== src/BlockChain/Placed.antt =====
-- The transactions of a committed block are found by their hashes.
use lab_bcos.Base.{
  ℕ, zero, suc, ◌+◌, ◌≡◌, refl, ap, subst, ◌∙◌, inl, inr, Bool, true, false, Option, none, some,
  List, [], ◌∷◌, map, arith,
}
use lab_bcos.Base.Tests.{◌==◌, ==_iff, ==_refl, Bool-cases}
use lab_bcos.Base.Lists.{get_elem?, contains, IsUnique}
use lab_bcos.Base.Dict.{Dict}
use lab_bcos.TxPool.Types.{Tx}
use lab_bcos.Sync.Blocks.{SyncBlock}
use lab_bcos.BlockChain.Tables.{
  SysTable, select, insert_row, first, select-insert_row_same, select-insert_row_other,
}
use lab_bcos.BlockChain.Reads.{BlockChain, get_block, get_tx_by_hash, tx_at, pick_tx}
use lab_bcos.BlockChain.Commit.{ok, place_txs, commit_block}
use lab_bcos.BlockChain.Committed.{txs_of}
use lab_bcos.BlockChain.Served.{stored, get_block-Reads}
use lab_bcos.BlockChain.Written.{written, AllOpen, commit_cases}
use lab_bcos.BlockChain.Linked.{listed_new, stored_new}
use lab_bcos.BlockChain.Sound.{IsSound, commit_block-IsSound, by_number}

abbrev pub hashes_of : List Tx → List ℕ
hashes_of txs = map (λ tx. tx.hash) txs

place_txs_absent :
    (height i h : ℕ) (txs : List Tx) (places : Dict (List (ℕ × ℕ)))
    → contains (hashes_of txs) h ≡ false
    → select h (place_txs height i txs places) ≡ select h places
unfolding place_txs contains
place_txs_absent height i h [] places e = refl
place_txs_absent height i h (tx ∷ txs) places e = elim (Bool-cases (tx.hash == h)) [
  | inl same ↦ absurd (ground (arith, same, e))
  | inr other ↦
      place_txs_absent height (suc i) h txs (insert_row tx.hash (height, i) places)
        (ground (arith, other, e))
      ∙ select-insert_row_other tx.hash h (height, i) places other
]

some_tx : (t tx : Tx) → Option.some t ≡ some tx → t ≡ tx
some_tx t tx e = ground arith

contains_hash :
    (j : ℕ) (tx : Tx) (txs : List Tx)
    → get_elem? txs j ≡ some tx
    → contains (hashes_of txs) tx.hash ≡ true
unfolding contains
contains_hash j tx [] e = absurd (ground (arith, e))
contains_hash zero tx (t ∷ txs) e = rw (ap (λ x. x.hash) (some_tx t tx e), ==_refl tx.hash) refl
contains_hash (suc j) tx (t ∷ txs) e = ground (arith, contains_hash j tx txs e)

first-place_txs :
    (height i : ℕ) (t : Tx) (txs : List Tx) (places : Dict (List (ℕ × ℕ)))
    → contains (hashes_of txs) t.hash ≡ false
    → select t.hash places ≡ []
    → first (select t.hash (place_txs height (suc i) txs (insert_row t.hash (height, i) places)))
      ≡ some (height, i + 0)
first-place_txs height i t txs places once free =
    ap first (
      place_txs_absent height (suc i) t.hash txs (insert_row t.hash (height, i) places) once
      ∙ select-insert_row_same t.hash (height, i) places free)
    ∙ ap (λ k. some (height, k)) (omega arith)

other_hash :
    (t tx : Tx) (txs : List Tx) (j : ℕ)
    → contains (hashes_of txs) t.hash ≡ false
    → get_elem? txs j ≡ some tx
    → (t.hash == tx.hash) ≡ false
other_hash t tx txs j once e = elim (Bool-cases (t.hash == tx.hash)) [
  | inr other ↦ other
  | inl same ↦ absurd (
      ground (
        arith,
        once,
        contains_hash j tx txs e,
        ap (contains (hashes_of txs)) ((==_iff t.hash tx.hash).0 same),
      ))
]

place_txs_found :
    (height i j : ℕ) (tx : Tx) (txs : List Tx) (places : Dict (List (ℕ × ℕ)))
    → IsUnique (hashes_of txs)
    → get_elem? txs j ≡ some tx
    → select tx.hash places ≡ []
    → first (select tx.hash (place_txs height i txs places)) ≡ some (height, i + j)
unfolding place_txs
place_txs_found height i j tx [] places distinct here free = absurd (ground (arith, here))
place_txs_found height i zero tx (t ∷ txs) places distinct here free =
    let same = some_tx t tx here in
    subst
      (λ x.
        first (select x.hash (place_txs height (suc i) txs (insert_row t.hash (height, i) places)))
        ≡ some (height, i + 0))
      same
      (first-place_txs height i t txs places distinct.0
        (ap (λ x. select x.hash places) same ∙ free))
place_txs_found height i (suc j) tx (t ∷ txs) places distinct here free =
    let rest = insert_row t.hash (height, i) places in
    let apart : (t.hash == tx.hash) ≡ false = other_hash t tx txs j distinct.0 here in
    place_txs_found height (suc i) j tx txs rest distinct.1 here
      (select-insert_row_other t.hash tx.hash (height, i) places apart ∙ free)
    ∙ ap (λ k. some (height, k)) (omega arith)

pick_tx_lem :
    (j : ℕ) (r : Option SyncBlock × BlockChain) (b : SyncBlock)
    → r.0 ≡ some b
    → (pick_tx j r).0 ≡ get_elem? b.contents.transactions j
unfolding pick_tx
pick_tx_lem j (none, c) b e = absurd (ground (arith, e))
pick_tx_lem j (some found, c) b e = ap (λ o. get_elem? (txs_of o) j) e

module _ (opens : SysTable → Bool) (b : SyncBlock) (tx : Tx) where
  -- The search in the chain after the block was written.
  tx_of_written :
      (j : ℕ) (d : BlockChain)
      → AllOpen opens
      → IsSound opens d
      → first (select tx.hash d.tables.places) ≡ some (b.number, j)
      → first (select b.number d.tables.hashes) ≡ some b.header_hash
      → stored b.header_hash d.tables ≡ some b
      → (get_tx_by_hash opens tx.hash d).0 ≡ get_elem? b.contents.transactions j
  unfolding get_tx_by_hash tx_at pick_tx
  tx_of_written j d all sound placed listed kept =
      let same = by_number opens all b.number d b.header_hash listed in
      let reads = get_block-Reads opens all.blocks b.header_hash d sound.served in
      rw (all.places, placed, same)
        (pick_tx_lem j (get_block opens b.header_hash d) b (reads.value ∙ kept))

-- On a chain whose tables hold a chain of blocks that its cache agrees with, which `commitBlock`
-- keeps, the transaction at an index of a block that it commits is what `getTxByHash` finds
-- afterwards under its hash, where no two transactions of the block have the same
-- hash, the chain had no transaction with that hash and no block with the block's hash.
pub get_tx_by_hash-commit_block :
    (opens : SysTable → Bool) (free : Bool) (b : SyncBlock) (c : BlockChain) (j : ℕ) (tx : Tx)
    → IsSound opens c
    → stored b.header_hash c.tables ≡ none
    → IsUnique (hashes_of b.contents.transactions)
    → select tx.hash c.tables.places ≡ []
    → get_elem? b.contents.transactions j ≡ some tx
    → (commit_block opens free b c).1 ≡ ok
    → (get_tx_by_hash opens tx.hash (commit_block opens free b c).0).0 ≡ some tx
unfolding written
get_tx_by_hash-commit_block opens free b c j tx sound new distinct unused here succeeded =
    elim (commit_cases opens free b c) [
      | inl (failed, same) ↦ absurd (failed succeeded)
      | inr (done_ok, done) ↦
          let all = done.all_open in
          let tables = ap (λ d. d.tables) done.done in
          tx_of_written opens b tx j (commit_block opens free b c).0 all
            (commit_block-IsSound opens free b c sound new)
            (ap (λ t. first (select tx.hash t.places)) tables
              ∙ place_txs_found b.number 0 j tx b.contents.transactions c.tables.places distinct
                  here unused
              ∙ ap (λ k. some (b.number, k)) (omega arith))
            (ap (λ t. first (select b.number t.hashes)) tables
              ∙ listed_new opens all b c.tables
                  (sound.linked.above b.number (omega (arith, done.next))))
            (ap (stored b.header_hash) tables ∙ stored_new opens all b c.tables new)
          ∙ here
    ]
