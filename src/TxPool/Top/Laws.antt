-- ===== src/TxPool/Top/Laws.antt =====
-- What `topTransactions` hands out, and what it leaves in the pool.
use lab_bcos.Base.{
  ℕ, zero, suc, min, ◌≡◌, refl, sym, ◌∙◌, ap, inl, inr, Bool, true, false, ◌&&◌, not, none, List,
  [], ◌∷◌, arith,
}
use lab_bcos.Base.Tests.{◌==◌, ==_iff, ==_refl, if◌then◌else◌, Bool-cases}
use lab_bcos.Base.Lists.{contains, add, contains-add, filter, take}
use lab_bcos.Base.Dict.{is_some}
use lab_bcos.TxPool.Types.{Tx, Pool, Chain}
use lab_bcos.TxPool.Queue.Order.{find_tx, HashesDiffer}
use lab_bcos.TxPool.Top.{
  take_tx, reject_tx, still_ok, scan, top_transactions, select, top_transactions_condition,
}
use lab_bcos.TxPool.Invariant.{IsValid}

select-take :
    (wanted : Tx → Bool) (ts : List Tx) (room : ℕ)
    → select wanted ts room ≡ take room (filter wanted ts)
unfolding select take filter
select-take wanted [] zero = refl
select-take wanted [] (suc room) = refl
select-take wanted (t ∷ ts) zero = refl
select-take wanted (t ∷ ts) (suc room) =
    ground (arith, select-take wanted ts room, select-take wanted ts (suc room))

-- The first transactions that meet a condition, by at most the number asked for and the limit.
pub top_transactions_condition_lem :
    (max_count : ℕ) (wanted : Tx → Bool) (p : Pool)
    → top_transactions_condition max_count wanted p
      ≡ take (min p.limit max_count) (filter wanted p.txs_queue)
unfolding top_transactions_condition
top_transactions_condition_lem max_count wanted p = select-take wanted p.txs_queue _

-- A list of hashes to avoid that says the same as another of the transactions in the queue.
abbrev SameFor : List Tx → List ℕ → List ℕ → Type 0
SameFor ts avoid now = (h : ℕ) → is_some (find_tx h ts) ≡ true → contains now h ≡ contains avoid h

SameFor-rest :
    (t : Tx) (ts : List Tx) (avoid now : List ℕ) → SameFor (t ∷ ts) avoid now → SameFor ts avoid now
unfolding find_tx
SameFor-rest t ts avoid now same h e = ground (arith, same h)

SameFor-seen :
    (t : Tx) (ts : List Tx) (avoid now : List ℕ)
    → find_tx t.hash ts ≡ none
    → SameFor ts avoid now
    → SameFor ts avoid (add t.hash now)
SameFor-seen t ts avoid now new same h e = elim (Bool-cases (t.hash == h)) [
  | inl f ↦ absurd (ground (arith, ap (λ k. is_some (find_tx k ts)) ((==_iff t.hash h).0 f)))
  | inr f ↦ rw (contains-add t.hash h now, f) (same h e)
]

abbrev pub allowed : (Tx → Bool) → List ℕ → Tx → Bool
allowed good avoid tx = good tx && not (contains avoid tx.hash)

pub scan_reject :
    (good : Tx → Bool) (update : Bool) (t : Tx) (ts : List Tx) (room : ℕ) (now : List ℕ)
    → good t ≡ false
    → scan good update (t ∷ ts) (suc room) now ≡ reject_tx t (scan good update ts (suc room) now)
unfolding scan
scan_reject good update t ts room now e = rw e refl

pub scan_avoid :
    (good : Tx → Bool) (update : Bool) (t : Tx) (ts : List Tx) (room : ℕ) (now : List ℕ)
    → good t ≡ true
    → contains now t.hash ≡ true
    → scan good update (t ∷ ts) (suc room) now ≡ scan good update ts (suc room) now
unfolding scan
scan_avoid good update t ts room now e f = rw e (rw f refl)

abbrev pub seen_after : Bool → Tx → List ℕ → List ℕ
seen_after update t now = if update then add t.hash now else now

pub scan_take :
    (good : Tx → Bool) (update : Bool) (t : Tx) (ts : List Tx) (room : ℕ) (now : List ℕ)
    → good t ≡ true
    → contains now t.hash ≡ false
    → scan good update (t ∷ ts) (suc room) now
      ≡ take_tx t (scan good update ts room (seen_after update t now))
unfolding scan
scan_take good update t ts room now e f = rw e (rw f refl)

SameFor-after :
    (update : Bool) (t : Tx) (ts : List Tx) (avoid now : List ℕ)
    → find_tx t.hash ts ≡ none
    → SameFor ts avoid now
    → SameFor ts avoid (seen_after update t now)
SameFor-after true t ts avoid now new same = SameFor-seen t ts avoid now new same
SameFor-after false t ts avoid now new same = same

scan-ret :
    (good : Tx → Bool) (update : Bool) (ts : List Tx) (room : ℕ) (avoid now : List ℕ)
    → HashesDiffer ts
    → SameFor ts avoid now
    → (scan good update ts room now).ret ≡ select (allowed good avoid) ts room
unfolding select find_tx take_tx reject_tx
scan-ret good update [] room avoid now d same = unfold scan in refl
scan-ret good update (t ∷ ts) zero avoid now d same = unfold scan in refl
scan-ret good update (t ∷ ts) (suc room) avoid now d same =
    let rest = SameFor-rest t ts avoid now same in
    let here = same t.hash (ground (arith, ==_refl t.hash)) in
    elim (Bool-cases (good t)) [
      | inl e ↦ elim (Bool-cases (contains now t.hash)) [
        | inl f ↦
            rw (scan_avoid good update t ts room now e f)
              (rw (e, sym here ∙ f) (scan-ret good update ts (suc room) avoid now d.1 rest))
        | inr f ↦ rw (scan_take good update t ts room now e f) (
            rw (e, sym here ∙ f)
              (ap (◌∷◌ t) (
                scan-ret good update ts room avoid (seen_after update t now) d.1
                  (SameFor-after update t ts avoid now d.0 rest))))
      ]
      | inr e ↦
          rw (scan_reject good update t ts room now e)
            (rw e (scan-ret good update ts (suc room) avoid now d.1 rest))
    ]

-- A pool in agreement hands out the first transactions of its queue that pass the chain's check and
-- are not to be avoided, by at most the number asked for and the limit, whether or not it extends
-- the hashes to avoid as it goes.
pub top_transactions_lem :
    (chain : Chain) (max_count : ℕ) (avoid : List ℕ) (update : Bool) (p : Pool)
    → IsValid p
    → (top_transactions chain max_count avoid update p).1.0
      ≡ take (min p.limit max_count) (filter (allowed (still_ok chain p) avoid) p.txs_queue)
unfolding top_transactions
top_transactions_lem chain max_count avoid update p v =
    scan-ret (still_ok chain p) update p.txs_queue _ avoid avoid v.differ (λ h e. refl)
    ∙ select-take _ p.txs_queue _
