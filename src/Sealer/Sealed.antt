-- ===== src/Sealer/Sealed.antt =====
-- The block that is being sealed holds no transaction twice and no more of them than allowed.
use lab_bcos.Base.{
  ℕ, zero, suc, min, ◌+◌, ◌-◌, ◌%◌, ◌^◌, ◌≤◌, ◌<◌, ◌≡◌, refl, sym, ◌∙◌, ap, inl, inr, Bool, true,
  false, not, ◌&&◌, ◌||◌, ◌++◌, none, some, List, [], ◌∷◌, arith,
}
use lab_bcos.Base.Tests.{ltb, ◌==◌, ==_iff, ==_refl, if◌then◌else◌, Bool-cases}
use lab_bcos.Base.Lists.{length, length-append, contains, add, contains-add}
use lab_bcos.Base.Dict.{is_some, is_some-none}
use lab_bcos.TxPool.Types.{Tx, Pool}
use lab_bcos.TxPool.Queue.Order.{find_tx, HashesDiffer}
use lab_bcos.TxPool.Top.{Scan, scan, take_tx, reject_tx, still_ok, top_transactions}
use lab_bcos.TxPool.Top.Laws.{scan_reject, scan_avoid, scan_take}
use lab_bcos.Sealer.{
  Sealing, Sealer, Answers, reset_block, reset_sealing_block, should_reset_sealing,
  set_max_block_transactions, report_new_block, should_seal, load_transactions, check_txs_enough,
  set_block, handle_block, fill_block, do_work,
}

-- What a pass over the queue hands out, and the hashes to avoid after it.
record Handed (now : List ℕ) (room : ℕ) (s : Scan) : Type 0 where
  avoided : (h : ℕ) → contains s.avoid h ≡ (contains now h || is_some (find_tx h s.ret))
  new : (h : ℕ) → contains now h ≡ true → find_tx h s.ret ≡ none
  differ : HashesDiffer s.ret
  few : length s.ret ≤ room

scan_end-Handed :
    (room : ℕ) (now : List ℕ)
    → Handed now room (record { ret = []; invalid = []; nonce_keys = []; avoid = now })
unfolding find_tx
scan_end-Handed room now = record {
  avoided = λ h. ground arith;
  new = λ h e. refl;
  differ = tt;
  few = omega arith;
}

take_tx-Handed :
    (t : Tx) (now : List ℕ) (room : ℕ) (s : Scan)
    → contains now t.hash ≡ false
    → Handed (add t.hash now) room s
    → Handed now (suc room) (take_tx t s)
unfolding take_tx find_tx
take_tx-Handed t now room s e v = record {
  avoided = λ h. v.avoided h ∙ rw (contains-add t.hash h now) (ground arith);
  new = λ h f. elim (Bool-cases (t.hash == h)) [
    | inl same ↦ absurd (ground (arith, ap (contains now) ((==_iff t.hash h).0 same)))
    | inr other ↦ rw other (v.new h (contains-add t.hash h now ∙ rw other f))
  ];
  differ = (v.new t.hash (contains-add t.hash t.hash now ∙ rw (==_refl t.hash) refl), v.differ);
  few = omega (arith, v.few);
}

scan-Handed :
    (good : Tx → Bool) (ts : List Tx) (room : ℕ) (now : List ℕ)
    → Handed now room (scan good true ts room now)
unfolding reject_tx
scan-Handed good [] room now = unfold scan in scan_end-Handed room now
scan-Handed good (t ∷ ts) zero now = unfold scan in scan_end-Handed zero now
scan-Handed good (t ∷ ts) (suc room) now = elim (Bool-cases (good t)) [
  | inl e ↦ elim (Bool-cases (contains now t.hash)) [
    | inl f ↦ rw (scan_avoid good true t ts room now e f) (scan-Handed good ts (suc room) now)
    | inr f ↦
        rw (scan_take good true t ts room now e f)
          (take_tx-Handed t now room _ f (scan-Handed good ts room (add t.hash now)))
  ]
  | inr e ↦ rw (scan_reject good true t ts room now e) (
      let v = scan-Handed good ts (suc room) now in
      record { avoided = v.avoided; new = v.new; differ = v.differ; few = v.few })
]

find_tx-append :
    (h : ℕ) (xs ys : List Tx)
    → is_some (find_tx h (xs ++ ys)) ≡ (is_some (find_tx h xs) || is_some (find_tx h ys))
unfolding find_tx
find_tx-append h [] ys = refl
find_tx-append h (x ∷ xs) ys = elim (Bool-cases (x.hash == h)) [
  | inl e ↦ rw e refl
  | inr e ↦ rw e (find_tx-append h xs ys)
]

append-HashesDiffer :
    (xs ys : List Tx)
    → HashesDiffer xs
    → HashesDiffer ys
    → ((h : ℕ) → is_some (find_tx h xs) ≡ true → find_tx h ys ≡ none)
    → HashesDiffer (xs ++ ys)
unfolding find_tx
append-HashesDiffer [] ys d e apart = e
append-HashesDiffer (x ∷ xs) ys d e apart = (
  is_some-none _
      (find_tx-append x.hash xs ys ∙ rw (d.0, apart x.hash (rw (==_refl x.hash) refl)) refl),
  append-HashesDiffer xs ys d.1 e (λ h f. apart h (later x h f)),
)
  where
    later :
        (x : Tx) (h : ℕ)
        → is_some (find_tx h xs) ≡ true
        → is_some (if x.hash == h then some x else find_tx h xs) ≡ true
    later x h f = ground arith

-- The block's transactions differ, and the set holds just their hashes.
pub record IsSealed (s : Sealing) : Type 0 where
  pub differ : HashesDiffer s.block.txs
  pub noted : (h : ℕ) → contains s.transaction_set h ≡ is_some (find_tx h s.block.txs)

-- And they are no more than a number.
pub record Sealable (n : ℕ) (s : Sealing) : Type 0 where
  pub sealed : IsSealed s
  pub few : length s.block.txs ≤ n

empty-Sealable :
    (n : ℕ) (answers : Answers) (s : Sealer) → Sealable n (reset_sealing_block answers s).sealing
unfolding reset_sealing_block reset_block contains find_tx
empty-Sealable n answers s = record {
  sealed = record { differ = tt; noted = λ h. refl };
  few = omega arith;
}

load_transactions-Sealable :
    (answers : Answers) (n count : ℕ) (s : Sealer) (p : Pool)
    → length s.sealing.block.txs + count ≤ n
    → IsSealed s.sealing
    → Sealable n (load_transactions answers count s p).0.sealing
unfolding load_transactions top_transactions
load_transactions-Sealable answers n count s p h v =
    let handed =
      scan-Handed (still_ok answers.pool_view p) p.txs_queue (min p.limit count)
        s.sealing.transaction_set in
    record {
      sealed = record {
        differ =
            append-HashesDiffer s.sealing.block.txs _ v.differ handed.differ
              (λ k e. handed.new k (v.noted k ∙ e));
        noted =
            λ k. handed.avoided k ∙ rw (v.noted k) (sym (find_tx-append k s.sealing.block.txs _));
      };
      few = omega (
        arith,
        handed.few,
        length-append s.sealing.block.txs
            (scan (still_ok answers.pool_view p) true p.txs_queue (min p.limit count)
              s.sealing.transaction_set).ret,
      );
    }

fill_block-Sealable :
    (answers : Answers) (s : Sealer) (p : Pool)
    → s.max_block_transactions < 2 ^ 64
    → Sealable s.max_block_transactions s.sealing
    → Sealable s.max_block_transactions (fill_block answers s p).0.sealing
unfolding fill_block
fill_block-Sealable answers s p small v =
    elim (Bool-cases (ltb 0 (length p.txs_queue) && not answers.interval_at_load)) [
      | inr idle ↦ rw idle v
      | inl load ↦ rw load (
          load_transactions-Sealable answers s.max_block_transactions
            ((s.max_block_transactions + 2 ^ 64 - length s.sealing.block.txs) % 2 ^ 64) _ p
            (omega (arith, v.few)) v.sealed)
    ]

handle_block-Sealable :
    (n : ℕ) (answers : Answers) (s : Sealer)
    → Sealable n s.sealing
    → Sealable n (handle_block answers s).sealing
unfolding handle_block set_block
handle_block-Sealable n answers s v =
    elim (Bool-cases (
      not (answers.generated (set_block answers s).sealing.block)
      || answers.should_reset (set_block answers s).sealing.block)) [
        | inl again ↦ rw again (empty-Sealable n answers _)
        | inr kept ↦ rw kept (record {
          sealed = record { differ = v.sealed.differ; noted = v.sealed.noted };
          few = v.few;
        })
      ]

report_new_block-Sealable :
    (n : ℕ) (answers : Answers) (s : Sealer)
    → Sealable n s.sealing
    → Sealable n (report_new_block answers s).sealing
unfolding report_new_block set_max_block_transactions
report_new_block-Sealable n answers s v = elim (Bool-cases s.sync_block) [
  | inr same ↦ rw same v
  | inl changed ↦
      rw changed
        (elim (Bool-cases (
          should_reset_sealing answers
            (record s { sync_block = false; reports = suc s.reports }))) [
              | inl old ↦ rw old (empty-Sealable n answers _)
              | inr current ↦ rw current (record { sealed = v.sealed; few = v.few })
            ])
]

-- A round of the sealer keeps the transactions of the block distinct, their hashes noted, and their
-- number within the limit that is in force once a new block was reported, if they were so before and
-- the limit fits 64 bits.
pub do_work-Sealable :
    (answers : Answers) (s : Sealer) (p : Pool)
    → (report_new_block answers s).max_block_transactions < 2 ^ 64
    → Sealable (report_new_block answers s).max_block_transactions s.sealing
    → Sealable (report_new_block answers s).max_block_transactions (do_work answers s p).0.sealing
unfolding do_work
do_work-Sealable answers s p small before =
    let told = report_new_block answers s in
    let v = report_new_block-Sealable told.max_block_transactions answers s before in
    let filled = fill_block-Sealable answers told p small v in
    elim (Bool-cases (should_seal answers told)) [
      | inr idle ↦ rw idle v
      | inl busy ↦
          rw busy
            (elim (Bool-cases (
              check_txs_enough answers told.max_block_transactions (fill_block answers told p).0)) [
                | inl enough ↦ rw enough (handle_block-Sealable _ answers _ filled)
                | inr waits ↦ rw waits filled
              ])
    ]
