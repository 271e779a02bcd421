-- ===== src/TxPool/Examples.antt =====
-- The transaction pool at work, on a chain of two blocks that each hold one transaction.
use lab_bcos.Base.{ℕ, zero, suc, ◌≡◌, refl, ◌⊎◌, min, true, false, List, [], ◌∷◌, arith}
use lab_bcos.Base.Tests.{leb, if◌then◌else◌}
use lab_bcos.Base.Lists.{take, filter, contains, add}
use lab_bcos.TxPool.Types.{
  Tx, Pool, Chain, TxNonceCheck, success, transaction_pool_is_full, ignore, retry,
}
use lab_bcos.TxPool.Nonce.{
  generate_key, ok, update_cache, init, new_check, is_nonce_ok, is_block_limit_ok, enter, expire,
  insert_all, start_of,
}
use lab_bcos.TxPool.Nonce.Window.{Covers, Grown, NoReuse, init-Covers, update_cache-Covers}
use lab_bcos.TxPool.Import.{
  import_tx, finish_import, verify, verify_nonces, is_block_limit_or_nonce_ok, tx_pool_nonce_check,
}
use lab_bcos.TxPool.Import.Outcome.{stamped, verdict, import_tx_lem}
use lab_bcos.TxPool.Nonce.Laws.{has_key}
use lab_bcos.TxPool.Drop.{new_pool, drop_tx}
use lab_bcos.TxPool.Drop.Undo.{Undone, drop_tx-import_tx}
use lab_bcos.TxPool.Top.{still_ok, top_transactions}
use lab_bcos.TxPool.Top.Laws.{allowed, top_transactions_lem}
use lab_bcos.TxPool.Invariant.{IsValid}
use lab_bcos.TxPool.Run.{import_op, drop_op, run, IsGood, new_pool-IsGood, run-new_pool}

abbrev make_tx : ℕ → ℕ → Tx
make_tx hash nonce = record {
  hash = hash;
  sender = 5;
  nonce = nonce;
  block_limit = 9;
  receive_address = 6;
  import_time = 0;
}

abbrev txs_at : ℕ → List Tx
txs_at zero = []
txs_at (suc zero) = make_tx 41 1 ∷ []
txs_at (suc (suc zero)) = make_tx 42 2 ∷ []
txs_at (suc (suc (suc n))) = []

abbrev short_chain : Chain
short_chain = record { number = 1; transactions_at = txs_at }

abbrev two_blocks : Chain
two_blocks = record { number = 2; transactions_at = txs_at }

abbrev fresh_pool : Pool
fresh_pool = new_pool two_blocks 3 1000

fresh_pool-IsValid : IsValid fresh_pool
fresh_pool-IsValid = (new_pool-IsGood two_blocks 3 1000).valid

imported : (import_tx two_blocks 7 (make_tx 43 3) ignore fresh_pool).1 ≡ success
unfolding import_tx finish_import verify verify_nonces is_block_limit_or_nonce_ok
    tx_pool_nonce_check ok is_nonce_ok is_block_limit_ok generate_key contains new_pool init
    update_cache enter expire insert_all add new_check start_of
imported = refl

run-new_pool_example : IsGood 3 (
    run
      ((two_blocks, import_op 7 (make_tx 43 3) ignore) ∷ (two_blocks, drop_op 43) ∷ [])
      (new_pool two_blocks 3 1000))
run-new_pool_example = run-new_pool two_blocks 3 1000 _

import_tx_lem_example :
    ((import_tx two_blocks 7 (make_tx 42 2) retry fresh_pool).1 ≡ (
      if leb 3 0
      then transaction_pool_is_full
      else verdict two_blocks (stamped (make_tx 42 2) 7) fresh_pool))
    × (((import_tx two_blocks 7 (make_tx 42 2) retry fresh_pool).1 ≡ success)
        ⊎ ((import_tx two_blocks 7 (make_tx 42 2) retry fresh_pool).0 ≡ fresh_pool))
unfolding new_pool
import_tx_lem_example = import_tx_lem two_blocks 7 (make_tx 42 2) retry fresh_pool

drop_tx-import_tx_example :
    Undone
      (stamped (make_tx 43 3) 7)
      fresh_pool
      (drop_tx 43 (import_tx two_blocks 7 (make_tx 43 3) ignore fresh_pool).0).0
    × ((drop_tx 43 (import_tx two_blocks 7 (make_tx 43 3) ignore fresh_pool).0).1 ≡ true)
drop_tx-import_tx_example =
    drop_tx-import_tx two_blocks 7 (make_tx 43 3) ignore fresh_pool fresh_pool-IsValid imported

-- The pool with one transaction.
abbrev one_pending : Pool
one_pending =
    run ((two_blocks, import_op 7 (make_tx 43 3) ignore) ∷ []) (new_pool two_blocks 3 1000)

one_pending-IsValid : IsValid one_pending
one_pending-IsValid = (run-new_pool two_blocks 3 1000 _).valid

top_transactions_lem_example :
    (top_transactions two_blocks 2 [] true one_pending).1.0
    ≡ take
        (min one_pending.limit 2)
        (filter (allowed (still_ok two_blocks one_pending) []) one_pending.txs_queue)
top_transactions_lem_example =
    top_transactions_lem two_blocks 2 [] true one_pending one_pending-IsValid

-- The nonces of the first block, with a window of two blocks.
abbrev first_check : TxNonceCheck
first_check = init short_chain (new_check 1)

first_check-Grown : Grown short_chain two_blocks first_check
unfolding init update_cache new_check start_of
first_check-Grown = record {
  kept = λ i h. refl;
  higher = omega arith;
  short = omega arith;
  forward = omega arith;
}

first_check-NoReuse : NoReuse two_blocks first_check
unfolding init update_cache new_check start_of has_key
first_check-NoReuse zero j k l u m n e = absurd (ground arith)
first_check-NoReuse (suc i) j k l u m n e = absurd (omega arith)

update_cache-Covers_example : Covers two_blocks (update_cache two_blocks false first_check)
update_cache-Covers_example =
    update_cache-Covers short_chain two_blocks first_check first_check-Grown first_check-NoReuse
      (init-Covers short_chain (new_check 1) (omega arith))
