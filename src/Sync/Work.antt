-- ===== src/Sync/Work.antt =====
-- `SyncMaster::maintainDownloadingQueue` and `doWork` of libsync/SyncMaster.cpp, as far as they
-- concern downloading.
use lab_bcos.Base.{
  ℕ, suc, ◌+◌, ◌||◌, ◌++◌, ◌≤◌, ◌≡◌, ◌⊎◌, refl, inl, inr, Bool, true, false, List, [], ◌∷◌, arith,
}
use lab_bcos.Base.Tests.{leb, ltb, if◌then◌else◌, Bool-cases}
use lab_bcos.TxPool.Types.{Pool}
use lab_bcos.TxPool.Run.{IsGood}
use lab_bcos.Sync.Blocks.{SyncBlock, top_above}
use lab_bcos.Sync.Peers.{SyncPeerStatus, note_downloading_finish}
use lab_bcos.Sync.Master.{
  Master, is_syncing, maintain_downloading_queue_buffer, maintain_peers_connection,
  maintain_peers_status,
}
use lab_bcos.Sync.Serve.{
  Served, maintain_blocks, maintain_transactions, maintain_transactions-IsGood,
  maintain_block_request,
}
use lab_bcos.Sync.Download.{Ledger, take_blocks}
use lab_bcos.Sync.Download.Chained.{Commits, Grows, Grows-le, take_blocks-Grows}

-- What one round of the thread finds: the sessions, the orders and numbers drawn at random, and the
-- clock, which is read once but for the answers to requests.
pub record Round : Type 0 where
  pub node_id : ℕ
  pub now : ℕ
  pub in_time : ℕ → Bool
  pub is_connected : ℕ → Bool
  pub sessions : List ℕ
  pub order : ℕ → List SyncPeerStatus
  pub serve_order : List SyncPeerStatus
  pub rand : ℕ → ℕ → ℕ

-- `c_maintainBlocksTimeout`.
abbrev pub maintain_blocks_interval : ℕ
maintain_blocks_interval = 5000

module _ {C : Type 0} (ledger : Ledger C) (is_consensus_ok : SyncBlock → Bool) where
  -- `maintainDownloadingQueue`; the Boolean says that the download has finished.
  unfoldable pub maintain_downloading_queue : Master → C × Pool → (Master × (C × Pool)) × Bool
  maintain_downloading_queue m (c, p) =
      let (rest, (c', p')) = take_blocks ledger is_consensus_ok m.status.bq.blocks (c, p) in
      let height = ledger.number c' in
      if leb m.status.known_highest_number (ledger.number c) then ((m, (c, p)), true) else (
        (
          record m {
            status = record m.status { bq = record m.status.bq { blocks = rest } };
            last_downloading_request_time =
                if leb m.max_request_number height then 0 else m.last_downloading_request_time;
          },
          (c', p'),
        ),
        leb m.status.known_highest_number height,
      )

  -- The last part of `doWork`.
  unfoldable pub download_step : Master → C × Pool → Master × (C × Pool)
  download_step m s =
      let ((m', s'), finished) = maintain_downloading_queue m s in
      if is_syncing m
      then if finished
        then (record m' { status = note_downloading_finish m'.status }, s')
        else (m', s')
      else (m, s)

  -- The flags of new transactions, of new blocks and of the time are taken back as they are served.
  unfoldable pub serve_blocks : Round → ℕ → Master → Master × List Served
  serve_blocks round height m =
      if m.new_blocks || ltb m.maintain_blocks_timeout round.now
      then (
        record m {
          new_blocks = false;
          maintain_blocks_timeout = round.now + maintain_blocks_interval;
        },
        maintain_blocks height m.status.peers_status,
      )
      else (m, [])

  unfoldable pub serve_transactions : Round → Master → Pool → (Master × Pool) × List Served
  serve_transactions round m p =
      let (sent, p') = maintain_transactions round.rand round.node_id m.status p in
      if m.new_transactions
      then ((record m { new_transactions = false }, p'), sent)
      else ((m, p), [])

  -- What `doWork` does when no download is under way.
  unfoldable pub idle_step : Round → Master → C × Pool → (Master × (C × Pool)) × List Served
  idle_step round m (c, p) =
      let ((m₁, p₁), transactions) = serve_transactions round m p in
      let (m₂, statuses) = serve_blocks round (ledger.number c) m₁ in
      let (s, blocks) =
        maintain_block_request (ledger.block_by_number c) round.in_time round.serve_order
          m₂.status in
      if is_syncing m
      then ((m, (c, p)), [])
      else ((record m₂ { status = s }, (c, p₁)), transactions ++ statuses ++ blocks)

  -- The first part of `doWork`, which is always done.
  unfoldable pub always_step : Round → ℕ → Master → Master
  always_step round height m = maintain_peers_status round.order round.now height (
      maintain_downloading_queue_buffer height
        (maintain_peers_connection round.is_connected round.sessions height m))

  -- `doWork`.
  unfoldable pub do_work : Round → Master → C × Pool → (Master × (C × Pool)) × List Served
  do_work round m (c, p) =
      let ((m', s'), sent) = idle_step round (always_step round (ledger.number c) m) (c, p) in
      (download_step m' s', sent)

  -- The queue is empty, or its top is above the block that the chain needs next.
  pub take_blocks_rest :
      (bs : List SyncBlock) (s : C × Pool)
      → ((take_blocks ledger is_consensus_ok bs s).0 ≡ [])
        ⊎ (top_above
              (suc (ledger.number (take_blocks ledger is_consensus_ok bs s).1.0))
              (take_blocks ledger is_consensus_ok bs s).0
            ≡ true)
  unfolding take_blocks top_above
  take_blocks_rest [] s = inl refl
  take_blocks_rest (b ∷ bs) s = elim (Bool-cases (leb b.number (suc (ledger.number s.0)))) [
    | inl due ↦ rw due (take_blocks_rest bs _)
    | inr ahead ↦ rw ahead (inr (ground arith))
  ]

  -- The result of a round of the download.
  pub record RoundDone (m : Master) (n : ℕ) (c : C) (m' : Master) (s : C × Pool) : Type 0 where
    pub grows : Grows ledger is_consensus_ok c s.0
    pub higher : ledger.number c ≤ ledger.number s.0
    pub pool_good : IsGood n s.1
    pub nothing_due :
        (m.status.known_highest_number ≤ ledger.number c)
        ⊎ ((m'.status.bq.blocks ≡ [])
            ⊎ (top_above (suc (ledger.number s.0)) m'.status.bq.blocks ≡ true))

  -- A round of the download adds to the chain only blocks that each follow its head, does not
  -- lower it, and keeps the pool in agreement and within its limit. Unless the node knew of no higher block, the queue is
  -- empty afterwards or starts above the block that the chain needs next.
  pub maintain_downloading_queue-RoundDone :
      (n : ℕ) (m : Master) (c : C) (p : Pool)
      → Commits ledger
      → IsGood n p
      → RoundDone m n c
          (maintain_downloading_queue m (c, p)).0.0
          (maintain_downloading_queue m (c, p)).0.1
  unfolding maintain_downloading_queue
  maintain_downloading_queue-RoundDone n m c p commits good =
      elim (Bool-cases (leb m.status.known_highest_number (ledger.number c))) [
        | inl known ↦ rw known (record {
          grows = Grows.same c;
          higher = omega arith;
          pool_good = good;
          nothing_due = inl (ground arith);
        })
        | inr behind ↦ rw behind (
            let taken =
              take_blocks-Grows ledger is_consensus_ok n m.status.bq.blocks c p commits good in
            record {
              grows = taken.0;
              higher = Grows-le ledger is_consensus_ok commits taken.0;
              pool_good = taken.1;
              nothing_due = inr (take_blocks_rest m.status.bq.blocks (c, p));
            })
      ]

  serve_transactions-IsGood :
      (n : ℕ) (round : Round) (m : Master) (p : Pool)
      → IsGood n p
      → IsGood n (serve_transactions round m p).0.1
  unfolding serve_transactions
  serve_transactions-IsGood n round m p good = elim (Bool-cases m.new_transactions) [
    | inl new ↦ rw new (maintain_transactions-IsGood round.rand n round.node_id m.status p good)
    | inr old ↦ rw old good
  ]

  idle_step-IsGood :
      (n : ℕ) (round : Round) (m : Master) (c : C) (p : Pool)
      → IsGood n p
      → ((idle_step round m (c, p)).0.1.0 ≡ c) × IsGood n (idle_step round m (c, p)).0.1.1
  unfolding idle_step
  idle_step-IsGood n round m c p good = elim (Bool-cases (is_syncing m)) [
    | inl busy ↦ rw busy (refl, good)
    | inr idle ↦ rw idle (refl, serve_transactions-IsGood n round m p good)
  ]

  download_step-Grows :
      (n : ℕ) (m : Master) (c : C) (p : Pool)
      → Commits ledger
      → IsGood n p
      → Grows ledger is_consensus_ok c (download_step m (c, p)).1.0
        × IsGood n (download_step m (c, p)).1.1
  unfolding download_step
  download_step-Grows n m c p commits good =
      let done = maintain_downloading_queue-RoundDone n m c p commits good in
      elim (Bool-cases (is_syncing m)) [
        | inr idle ↦ rw idle (Grows.same c, good)
        | inl busy ↦ rw busy (elim (Bool-cases (maintain_downloading_queue m (c, p)).1) [
          | inl finished ↦ rw finished (done.grows, done.pool_good)
          | inr going ↦ rw going (done.grows, done.pool_good)
        ])
      ]

  after_idle :
      (n : ℕ) (m : Master) (c : C) (s : C × Pool)
      → s.0 ≡ c
      → Commits ledger
      → IsGood n s.1
      → Grows ledger is_consensus_ok c (download_step m s).1.0 × IsGood n (download_step m s).1.1
  after_idle n m c (d, p) e commits good = rw (← e) (download_step-Grows n m d p commits good)

  -- A whole round of the thread, whatever the sessions, the clock and the random numbers are, adds to
  -- the chain only blocks that each follow its head, and keeps the pool in agreement and within its
  -- limit.
  pub do_work-Grows :
      (n : ℕ) (round : Round) (m : Master) (c : C) (p : Pool)
      → Commits ledger
      → IsGood n p
      → Grows ledger is_consensus_ok c (do_work round m (c, p)).0.1.0
        × IsGood n (do_work round m (c, p)).0.1.1
  unfolding do_work
  do_work-Grows n round m c p commits good =
      let before = idle_step-IsGood n round (always_step round (ledger.number c) m) c p good in
      after_idle n _ c (idle_step round (always_step round (ledger.number c) m) (c, p)).0.1 before.0
        commits before.1
