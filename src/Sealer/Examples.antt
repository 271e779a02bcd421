-- ===== src/Sealer/Examples.antt =====
-- The sealer at work.
use lab_bcos.Base.{refl, true, false, none, [], ◌∷◌, arith}
use lab_bcos.Base.Lists.{contains}
use lab_bcos.TxPool.Types.{Tx, Pool, Chain, ignore}
use lab_bcos.TxPool.Drop.{new_pool}
use lab_bcos.TxPool.Import.{import_tx}
use lab_bcos.TxPool.Queue.Order.{find_tx}
use lab_bcos.Sealer.{Sealer, Answers, report_new_block, do_work}
use lab_bcos.Sealer.Sealed.{Sealable, do_work-Sealable}

abbrev pub head_view : Chain
head_view = record { number = 4; transactions_at = λ i. [] }

abbrev pub busy_leader : Answers
busy_leader = record {
  head_number = 4;
  head_hash = 104;
  head_time = 1000;
  now = 3000;
  pool_view = head_view;
  tx_count_limit = 10;
  is_miner = true;
  is_block_syncing = false;
  engine_should_seal = true;
  interval_at_load = false;
  interval_at_check = true;
  generated = λ b. true;
  should_reset = λ b. false;
  miner_list = 7 ∷ 8 ∷ [];
  node_idx = 1;
}

abbrev waiting_tx : Tx
waiting_tx = record {
  hash = 43;
  sender = 5;
  nonce = 3;
  block_limit = 9;
  receive_address = 6;
  import_time = 0;
}

abbrev waiting_pool : Pool
waiting_pool = (import_tx head_view 7 waiting_tx ignore (new_pool head_view 3 1000)).0

abbrev pub fresh_sealer : Sealer
fresh_sealer = record {
  sealing = record {
    block = record {
      number = 5;
      parent_hash = 104;
      timestamp = 0;
      sealer = none;
      sealer_list = [];
      txs = [];
    };
    transaction_set = [];
  };
  max_block_transactions = 10;
  sync_tx_pool = false;
  sync_block = false;
  start_consensus = true;
  noted = [];
  reports = 0;
}

fresh-Sealable : Sealable 10 fresh_sealer.sealing
unfolding contains find_tx
fresh-Sealable = record { sealed = record { differ = tt; noted = λ h. refl }; few = omega arith }

do_work-Sealable_example :
    Sealable
      (report_new_block busy_leader fresh_sealer).max_block_transactions
      (do_work busy_leader fresh_sealer waiting_pool).0.sealing
unfolding report_new_block
do_work-Sealable_example =
    do_work-Sealable busy_leader fresh_sealer waiting_pool (omega arith) fresh-Sealable
