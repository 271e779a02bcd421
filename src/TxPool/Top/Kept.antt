-- ===== src/TxPool/Top/Kept.antt =====
-- What `topTransactions` leaves in the pool.
use lab_bcos.Base.{
  ℕ, zero, suc, min, ◌≡◌, refl, sym, ◌∙◌, ap, inl, inr, Bool, true, false, none, some, List, [],
  ◌∷◌, arith,
}
use lab_bcos.Base.Tests.{◌==◌, ==_iff, if◌then◌else◌, Bool-cases}
use lab_bcos.Base.Lists.{contains, contains-add}
use lab_bcos.TxPool.Types.{Tx, Pool, Chain}
use lab_bcos.TxPool.Queue.Order.{find_tx, HashesDiffer}
use lab_bcos.TxPool.Top.{Scan, take_tx, reject_tx, still_ok, scan, drop_invalid, top_transactions}
use lab_bcos.TxPool.Top.Laws.{scan_reject, scan_avoid, scan_take, seen_after}
use lab_bcos.TxPool.Invariant.{IsValid, IsValid-frame, remove_trans-IsValid, find_tx-remove_trans}

drop_invalid-IsValid : (hashes : List ℕ) (p : Pool) → IsValid p → IsValid (drop_invalid hashes p)
unfolding drop_invalid
drop_invalid-IsValid [] p v = v
drop_invalid-IsValid (h ∷ hashes) p v =
    drop_invalid-IsValid hashes _
      (IsValid-frame _ _ refl refl refl (remove_trans-IsValid h false none p v))

find_tx-drop_invalid :
    (hashes : List ℕ) (k : ℕ) (p : Pool)
    → IsValid p
    → find_tx k (drop_invalid hashes p).txs_queue
      ≡ (if contains hashes k then none else find_tx k p.txs_queue)
unfolding drop_invalid contains
find_tx-drop_invalid [] k p v = refl
find_tx-drop_invalid (h ∷ hashes) k p v =
    find_tx-drop_invalid hashes k _
      (IsValid-frame _ _ refl refl refl (remove_trans-IsValid h false none p v))
    ∙ rw (find_tx-remove_trans k h false none p v) (ground arith)

find_tx_self : (t : Tx) (ts : List Tx) (h : ℕ) → (t.hash == h) ≡ true → find_tx h (t ∷ ts) ≡ some t
unfolding find_tx
find_tx_self t ts h e = rw e refl

find_tx-later :
    (t : Tx) (ts : List Tx) (h : ℕ) (tx : Tx)
    → find_tx t.hash ts ≡ none
    → find_tx h ts ≡ some tx
    → find_tx h (t ∷ ts) ≡ some tx
unfolding find_tx
find_tx-later t ts h tx new e = elim (Bool-cases (t.hash == h)) [
  | inl f ↦ absurd (none≢some (sym new ∙ ap (λ k. find_tx k ts) ((==_iff t.hash h).0 f) ∙ e))
  | inr f ↦ rw f e
]
  where
    none≢some : none ≡ some tx → ⊥
    none≢some x = ground arith

scan_none :
    (good : Tx → Bool) (update : Bool) (room : ℕ) (now : List ℕ) (h : ℕ)
    → contains (scan good update [] room now).invalid h ≡ false
unfolding scan contains
scan_none good update room now h = refl

scan_full :
    (good : Tx → Bool) (update : Bool) (t : Tx) (ts : List Tx) (now : List ℕ) (h : ℕ)
    → contains (scan good update (t ∷ ts) zero now).invalid h ≡ false
unfolding scan contains
scan_full good update t ts now h = refl

contains-reject_tx :
    (t : Tx) (s : Scan) (h : ℕ)
    → contains (reject_tx t s).invalid h ≡ (if t.hash == h then true else contains s.invalid h)
unfolding reject_tx
contains-reject_tx t s h = contains-add t.hash h s.invalid

-- What the loop finds invalid is in the queue and fails the check.
scan-invalid :
    (good : Tx → Bool) (update : Bool) (ts : List Tx) (room : ℕ) (now : List ℕ) (h : ℕ)
    → HashesDiffer ts
    → contains (scan good update ts room now).invalid h ≡ true
    → (tx : Tx) × (find_tx h ts ≡ some tx) × (good tx ≡ false)
unfolding take_tx
scan-invalid good update [] room now h d e =
    absurd (ground (arith, scan_none good update room now h))
scan-invalid good update (t ∷ ts) zero now h d e =
    absurd (ground (arith, scan_full good update t ts now h))
scan-invalid good update (t ∷ ts) (suc room) now h d e = elim (Bool-cases (good t)) [
  | inl g ↦ elim (Bool-cases (contains now t.hash)) [
    | inl f ↦
        let (tx, w, b) =
          scan-invalid good update ts (suc room) now h d.1
            (rw (scan_avoid good update t ts room now g f) at e) in
        (tx, find_tx-later t ts h tx d.0 w, b)
    | inr f ↦
        let (tx, w, b) =
          scan-invalid good update ts room (seen_after update t now) h d.1
            (rw (scan_take good update t ts room now g f) at e) in
        (tx, find_tx-later t ts h tx d.0 w, b)
  ]
  | inr g ↦ elim (Bool-cases (t.hash == h)) [
    | inl same ↦ (t, find_tx_self t ts h same, g)
    | inr other ↦
        let (tx, w, b) = scan-invalid good update ts (suc room) now h d.1 (
          sym (contains-reject_tx t _ h ∙ rw other refl)
          ∙ ap (λ s. contains s.invalid h) (sym (scan_reject good update t ts room now g))
          ∙ e) in
        (tx, find_tx-later t ts h tx d.0 w, b)
  ]
]

-- When a pool in agreement hands out transactions, it stays in agreement and keeps every transaction
-- that passes the chain's check.
pub top_transactions-keeps :
    (chain : Chain) (max_count : ℕ) (avoid : List ℕ) (update : Bool) (p : Pool) (h : ℕ) (tx : Tx)
    → IsValid p
    → find_tx h p.txs_queue ≡ some tx
    → still_ok chain p tx ≡ true
    → IsValid (top_transactions chain max_count avoid update p).0
      × (find_tx h (top_transactions chain max_count avoid update p).0.txs_queue ≡ some tx)
unfolding top_transactions
top_transactions-keeps chain max_count avoid update p h tx v found good = (
  IsValid-frame _ _ refl refl refl (drop_invalid-IsValid _ p v),
  find_tx-drop_invalid _ h p v ∙ stays,
)
  where
    invalid_hashes : List ℕ
    invalid_hashes =
        (scan (still_ok chain p) update p.txs_queue (min p.limit max_count) avoid).invalid

    stays : (if contains invalid_hashes h then none else find_tx h p.txs_queue) ≡ some tx
    stays = elim (Bool-cases (contains invalid_hashes h)) [
      | inl gone ↦
          let (t, e, bad) =
            scan-invalid (still_ok chain p) update p.txs_queue _ avoid h v.differ gone in
          absurd (ground (arith, sym e ∙ found))
      | inr kept ↦ rw kept found
    ]
