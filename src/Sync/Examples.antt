-- ===== src/Sync/Examples.antt =====
-- Block synchronisation at work: a ledger that is a list of blocks, and a few requests.
use lab_bcos.Base.{
  ℕ, zero, suc, ◌+◌, ◌≡◌, refl, true, false, Option, none, some, List, [], ◌∷◌, arith,
}
use lab_bcos.Base.Tests.{◌==◌, ==_refl, if◌then◌else◌}
use lab_bcos.Base.Lists.{length}
use lab_bcos.Base.Dict.{lookup}
use lab_bcos.TxPool.Types.{Chain, PoolBlock}
use lab_bcos.TxPool.Drop.{new_pool}
use lab_bcos.TxPool.Run.{IsGood, new_pool-IsGood}
use lab_bcos.Sync.Requests.{ReqQueue}
use lab_bcos.Sync.Requests.Merge.{IsOrdered, asked}
use lab_bcos.Sync.Blocks.{SyncBlock, BlockQueue, flush_buffer_to_queue, clear_full_queue_if_not_has}
use lab_bcos.Sync.Blocks.Laws.{overfull_stuck}
use lab_bcos.Sync.Container.Bounds.{bit, sent_at}
use lab_bcos.Sync.Answer.{answer_peer}
use lab_bcos.Sync.Answer.Complete.{Here, answer_peer-keeps, answer_peer-all}
use lab_bcos.Sync.Peers.{SyncPeerStatus, new_peer, downloading}
use lab_bcos.Sync.Engine.{SyncWorld, Message, req_blocks_packet, fields, message_handler}
use lab_bcos.Sync.Engine.Sound.{IsSound, message_handler-IsSound}
use lab_bcos.Sync.Master.{Master, request_blocks}
use lab_bcos.Sync.Master.Shards.Tiles.{TurnDone, request_blocks-TurnDone}
use lab_bcos.Sync.Download.{Ledger}
use lab_bcos.Sync.Download.Chained.{Commits, Grows}
use lab_bcos.Sync.Work.{
  Round, do_work, do_work-Grows, maintain_downloading_queue, RoundDone,
  maintain_downloading_queue-RoundDone,
}

abbrev pub block_body : ℕ → PoolBlock
block_body number = record {
  block_hash = 100 + number;
  block_number = number;
  transactions = [];
  transaction_receipts = [];
}

abbrev pub make_block : ℕ → SyncBlock
make_block number = record {
  number = number;
  parent_hash = 99 + number;
  header_hash = 100 + number;
  rlp_size = 500;
  contents = block_body number;
}

abbrev head_hash : List SyncBlock → ℕ
head_hash [] = 100
head_hash (b ∷ bs) = b.header_hash

-- The blocks above the genesis block, the newest first.
abbrev list_ledger : Ledger (List SyncBlock)
list_ledger = record {
  number = length;
  number_hash = λ c k. head_hash c;
  block_by_number = λ c k. some (make_block k);
  executes = λ c b parent. true;
  commit_block = λ b c. if b.number == suc (length c) then (b ∷ c, true) else (c, false);
  view = λ c. record { number = length c; transactions_at = λ i. [] };
}

list_ledger-Commits : Commits list_ledger
list_ledger-Commits = record { raises = λ b c e. raised b c e; keeps = λ b c e. kept b c e }
  where
    raised :
        (b : SyncBlock) (c : List SyncBlock)
        → (list_ledger.commit_block b c).1 ≡ true
        → length (list_ledger.commit_block b c).0 ≡ b.number
    raised b c e = ground arith

    kept :
        (b : SyncBlock) (c : List SyncBlock)
        → (list_ledger.commit_block b c).1 ≡ false
        → (list_ledger.commit_block b c).0 ≡ c
    kept b c e = ground arith

-- A node that has fetched the first two blocks of three.
abbrev behind : Master
behind = record {
  status = record {
    genesis = 100;
    known_highest_number = 3;
    known_latest_hash = 103;
    state = downloading;
    peers_status = [];
    bq = record { blocks = make_block 1 ∷ make_block 2 ∷ []; buffer = [] };
  };
  max_request_number = 3;
  last_downloading_request_time = 5;
  current_sealing_number = 0;
  new_transactions = false;
  new_blocks = false;
  maintain_blocks_timeout = 0;
  out = [];
}

abbrev genesis_view : Chain
genesis_view = record { number = 0; transactions_at = λ i. [] }

maintain_downloading_queue-RoundDone_example :
    RoundDone list_ledger
      (λ b. true)
      behind
      3
      []
      (maintain_downloading_queue list_ledger
        (λ b. true)
        behind
        ([], new_pool genesis_view 3 1000)).0.0
      (maintain_downloading_queue list_ledger
        (λ b. true)
        behind
        ([], new_pool genesis_view 3 1000)).0.1
maintain_downloading_queue-RoundDone_example =
    maintain_downloading_queue-RoundDone list_ledger (λ b. true) 3 behind []
      (new_pool genesis_view 3 1000) list_ledger-Commits (new_pool-IsGood genesis_view 3 1000)

abbrev requests : ReqQueue
requests = record {
  reqs = record { from_number = 1; size = 3 } ∷ record { from_number = 2; size = 4 } ∷ [];
  can_push = true;
}

requests-IsOrdered : IsOrdered requests.reqs
requests-IsOrdered = ((omega arith, tt), (tt, tt))

abbrev block_at : ℕ → Option SyncBlock
block_at k = some (make_block k)

answer_peer-keeps_example :
    sent_at (answer_peer block_at (λ t. true) requests).1 4
      + bit (asked (answer_peer block_at (λ t. true) requests).0.reqs 4)
    ≡ bit (asked requests.reqs 4)
answer_peer-keeps_example =
    answer_peer-keeps block_at (λ t. true) requests 4 (omega arith) requests-IsOrdered

every_block : (j : ℕ) → asked requests.reqs j ≡ true → Here block_at j
every_block j h = (make_block j, refl, ==_refl j)

answer_peer-all_example :
    ((answer_peer block_at (λ t. true) requests).0.reqs ≡ [])
    × (sent_at (answer_peer block_at (λ t. true) requests).1 4 ≡ bit (asked requests.reqs 4))
answer_peer-all_example =
    answer_peer-all block_at (λ t. true) requests 4 (omega arith) requests-IsOrdered (λ t. refl)
      every_block

abbrev buffered : BlockQueue
buffered = record { blocks = make_block 5 ∷ []; buffer = (some (make_block 4) ∷ none ∷ []) ∷ [] }

unfoldable many : ℕ → List SyncBlock
many zero = []
many (suc n) = make_block 9 ∷ many n

length-many : (n : ℕ) → length (many n) ≡ n
unfolding many
length-many zero = refl
length-many (suc n) = omega (arith, length-many n)

abbrev overfull : BlockQueue
overfull = record { blocks = many 4097; buffer = (some (make_block 1) ∷ []) ∷ [] }

overfull_stuck_example :
    (flush_buffer_to_queue (some 0) (clear_full_queue_if_not_has 1 overfull)).blocks ≡ many 4097
overfull_stuck_example = overfull_stuck 1 0 overfull (omega (arith, length-many 4097))

abbrev ahead_peer : ℕ → SyncPeerStatus
ahead_peer id =
    new_peer (record { node_id = id; number = 70; genesis_hash = 100; latest_hash = 170 })

request_blocks-TurnDone_example :
    TurnDone
      (λ pass. ahead_peer 8 ∷ ahead_peer 9 ∷ [])
      0
      70
      (request_blocks (λ pass. ahead_peer 8 ∷ ahead_peer 9 ∷ []) 0 70).requests
request_blocks-TurnDone_example =
    request_blocks-TurnDone (λ pass. ahead_peer 8 ∷ ahead_peer 9 ∷ []) 0 70

-- A pool and a status that nothing has happened to.
abbrev quiet : SyncWorld
quiet = record { sync_status = behind.status; tx_pool = new_pool genesis_view 3 1000; stopped = [] }

quiet-IsSound : IsSound 3 quiet
unfolding lookup
quiet-IsSound = record {
  status_sound = record { waits = λ id. tt; buffered = omega arith };
  pool_good = new_pool-IsGood genesis_view 3 1000;
}

-- A peer asks for blocks before it has sent its status.
abbrev early_request : Message
early_request = record {
  session_node = 8;
  well_formed = true;
  decoded = some (req_blocks_packet (fields (1, 3)));
}

message_handler-IsSound_example :
    IsSound 3 (message_handler genesis_view 5 9 100 early_request quiet)
message_handler-IsSound_example =
    message_handler-IsSound 3 genesis_view 5 9 100 early_request quiet quiet-IsSound

-- A round in which the node is connected to one peer, which is far ahead.
abbrev calm_round : Round
calm_round = record {
  node_id = 9;
  now = 50000;
  in_time = λ t. true;
  is_connected = λ id. true;
  sessions = 8 ∷ [];
  order = λ pass. ahead_peer 8 ∷ [];
  serve_order = ahead_peer 8 ∷ [];
  rand = λ i n. 0;
}

do_work-Grows_example :
    Grows list_ledger
      (λ b. true)
      []
      (do_work list_ledger (λ b. true) calm_round behind ([], new_pool genesis_view 3 1000)).0.1.0
    × IsGood 3
        (do_work list_ledger (λ b. true) calm_round behind ([], new_pool genesis_view 3 1000)).0.1.1
do_work-Grows_example =
    do_work-Grows list_ledger (λ b. true) 3 calm_round behind [] (new_pool genesis_view 3 1000)
      list_ledger-Commits (new_pool-IsGood genesis_view 3 1000)
