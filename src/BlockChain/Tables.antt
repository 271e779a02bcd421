-- ===== src/BlockChain/Tables.antt =====
-- The system tables that libblockchain/BlockChainImp.cpp reads and writes. A table maps a key to its
-- rows: `insert` adds a row at the end, `update` writes all rows, and `select` returns them, as
-- libstorage/MemoryTable.cpp does where there is no condition. `opens` says which tables open.
use lab_bcos.Base.{ℕ, ◌≡◌, refl, Bool, false, Option, none, some, List, [], ◌∷◌, ◌++◌, arith}
use lab_bcos.Base.Tests.{◌==◌, ==_refl, if◌then◌else◌}
use lab_bcos.Base.Dict.{Dict, lookup, insert, lookup-insert}
use lab_bcos.Sync.Blocks.{SyncBlock}

pub data SysTable : Type 0 where
  current_state number_2_hash tx_hash_2_block hash_2_block : SysTable

-- The rows: the height and the count of transactions (two keys of `SYS_CURRENT_STATE`), the height
-- and the index of a transaction, the hash at a height, and the block with a hash.
pub record Tables : Type 0 where
  pub heights : List ℕ
  pub counts : List ℕ
  pub places : Dict (List (ℕ × ℕ))
  pub hashes : Dict (List ℕ)
  pub blocks : Dict (List SyncBlock)

module _ {ℓ} {V : Type ℓ} where
  abbrev pub or_no_rows : Option (List V) → List V
  or_no_rows none = []
  or_no_rows (some rows) = rows

  -- `select`.
  unfoldable pub select : ℕ → Dict (List V) → List V
  select key table = or_no_rows (lookup key table)

  -- `insert`.
  unfoldable pub insert_row : ℕ → V → Dict (List V) → Dict (List V)
  insert_row key row table = insert key (select key table ++ row ∷ []) table

  -- `entries->get(0)` where there are entries.
  abbrev pub first : List V → Option V
  first [] = none
  first (row ∷ rows) = some row

  pub select-insert_row :
      (added wanted : ℕ) (row : V) (table : Dict (List V))
      → select wanted (insert_row added row table)
        ≡ (if added == wanted then select added table ++ row ∷ [] else select wanted table)
  unfolding select insert_row
  select-insert_row added wanted row table =
      ground (arith, lookup-insert added wanted (select added table ++ row ∷ []) table)

  pub select-insert_row_same :
      (key : ℕ) (row : V) (table : Dict (List V))
      → select key table ≡ []
      → select key (insert_row key row table) ≡ row ∷ []
  select-insert_row_same key row table e =
      rw (select-insert_row key key row table, ==_refl key, e) refl

  pub select-insert_row_other :
      (added wanted : ℕ) (row : V) (table : Dict (List V))
      → (added == wanted) ≡ false
      → select wanted (insert_row added row table) ≡ select wanted table
  select-insert_row_other added wanted row table e =
      rw (select-insert_row added wanted row table, e) refl

  -- A row that is added changes the first one only where there was none.
  pub first-append :
      (rows : List V) (row found : V)
      → first rows ≡ some found
      → first (rows ++ row ∷ []) ≡ some found
  first-append [] row found e = absurd (ground arith)
  first-append (r ∷ rows) row found e = e

  pub first-append_new :
      (rows : List V) (row : V) → first rows ≡ none → first (rows ++ row ∷ []) ≡ some row
  first-append_new [] row e = refl
  first-append_new (r ∷ rows) row e = absurd (ground arith)

-- `number`: 0 where the table has no height.
abbrev pub or_zero : Option ℕ → ℕ
or_zero none = 0
or_zero (some n) = n

unfoldable pub number : (SysTable → Bool) → Tables → ℕ
number opens t = if opens current_state then or_zero (first t.heights) else 0

-- `numberHash`: the hash of zeros where the table has none.
unfoldable pub number_hash : (SysTable → Bool) → ℕ → Tables → ℕ
number_hash opens i t = if opens number_2_hash then or_zero (first (select i t.hashes)) else 0
