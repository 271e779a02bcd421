-- ===== src/TxPool/Queue/Order.antt =====
-- The queue: in the order of arrival, each hash once, found by its hash.
use lab_bcos.Base.{ℕ, suc, ◌≤◌, ◌≡◌, refl, inl, inr, Option, none, some, List, [], ◌∷◌, arith}
use lab_bcos.Base.Tests.{leb, ◌==◌, if◌then◌else◌, ==_iff, Bool-cases}
use lab_bcos.Base.Lists.{length}
use lab_bcos.TxPool.Types.{Tx}
use lab_bcos.TxPool.Queue.{emplace, erase_node}

unfoldable pub find_tx : ℕ → List Tx → Option Tx
find_tx hash [] = none
find_tx hash (t ∷ ts) = if t.hash == hash then some t else find_tx hash ts

-- No transaction of the list came before a time.
abbrev pub AllFrom : ℕ → List Tx → Type 0
AllFrom time [] = Unit
AllFrom time (t ∷ ts) = (time ≤ t.import_time) × AllFrom time ts

abbrev pub IsSorted : List Tx → Type 0
IsSorted [] = Unit
IsSorted (t ∷ ts) = AllFrom t.import_time ts × IsSorted ts

-- No hash stands twice.
abbrev pub HashesDiffer : List Tx → Type 0
HashesDiffer [] = Unit
HashesDiffer (t ∷ ts) = (find_tx t.hash ts ≡ none) × HashesDiffer ts

AllFrom-le : (a b : ℕ) (ts : List Tx) → a ≤ b → AllFrom b ts → AllFrom a ts
AllFrom-le a b [] h f = tt
AllFrom-le a b (t ∷ ts) h f = (omega (arith, f.0), AllFrom-le a b ts h f.1)

emplace-AllFrom :
    (a : ℕ) (tx : Tx) (ts : List Tx) → a ≤ tx.import_time → AllFrom a ts → AllFrom a (emplace tx ts)
unfolding emplace
emplace-AllFrom a tx [] h f = (h, tt)
emplace-AllFrom a tx (t ∷ ts) h f = ground (arith, emplace-AllFrom a tx ts h f.1, f.0, f.1)

pub emplace-IsSorted : (tx : Tx) (ts : List Tx) → IsSorted ts → IsSorted (emplace tx ts)
unfolding emplace
emplace-IsSorted tx [] s = (tt, tt)
emplace-IsSorted tx (t ∷ ts) s = elim (Bool-cases (leb tx.import_time t.import_time)) [
  | inl e ↦ rw e ((ground arith, AllFrom-le _ _ ts (ground arith) s.0), s)
  | inr e ↦ rw e (emplace-AllFrom _ tx ts (ground arith) s.0, emplace-IsSorted tx ts s.1)
]

pub find_tx-emplace :
    (h : ℕ) (tx : Tx) (ts : List Tx)
    → find_tx tx.hash ts ≡ none
    → find_tx h (emplace tx ts) ≡ (if tx.hash == h then some tx else find_tx h ts)
unfolding emplace find_tx
find_tx-emplace h tx [] e = refl
find_tx-emplace h tx (t ∷ ts) e = ground (arith, find_tx-emplace h tx ts, ==_iff tx.hash h)

pub emplace-HashesDiffer :
    (tx : Tx) (ts : List Tx)
    → find_tx tx.hash ts ≡ none
    → HashesDiffer ts
    → HashesDiffer (emplace tx ts)
unfolding emplace find_tx
emplace-HashesDiffer tx [] e d = (refl, tt)
emplace-HashesDiffer tx (t ∷ ts) e d = elim (Bool-cases (leb tx.import_time t.import_time)) [
  | inl f ↦ rw f (e, d)
  | inr f ↦ rw f (
    ground (arith, find_tx-emplace t.hash tx ts, ==_iff tx.hash t.hash, d.0),
    emplace-HashesDiffer tx ts (ground arith) d.1,
  )
]

pub length-emplace : (tx : Tx) (ts : List Tx) → length (emplace tx ts) ≡ suc (length ts)
unfolding emplace
length-emplace tx [] = refl
length-emplace tx (t ∷ ts) = ground (arith, length-emplace tx ts)

pub find_tx-erase_node :
    (h a : ℕ) (ts : List Tx)
    → HashesDiffer ts
    → find_tx h (erase_node a ts) ≡ (if a == h then none else find_tx h ts)
unfolding erase_node find_tx
find_tx-erase_node h a [] d = ground arith
find_tx-erase_node h a (t ∷ ts) d =
    ground (arith, find_tx-erase_node h a ts d.1, ==_iff a h, ==_iff t.hash a, d.0)

erase_node-AllFrom : (b a : ℕ) (ts : List Tx) → AllFrom b ts → AllFrom b (erase_node a ts)
unfolding erase_node
erase_node-AllFrom b a [] f = tt
erase_node-AllFrom b a (t ∷ ts) f = ground (arith, erase_node-AllFrom b a ts f.1, f.0, f.1)

pub erase_node-IsSorted : (a : ℕ) (ts : List Tx) → IsSorted ts → IsSorted (erase_node a ts)
unfolding erase_node
erase_node-IsSorted a [] s = tt
erase_node-IsSorted a (t ∷ ts) s =
    ground
      (arith, erase_node-IsSorted a ts s.1, erase_node-AllFrom t.import_time a ts s.0, s.0, s.1)

pub erase_node-HashesDiffer :
    (a : ℕ) (ts : List Tx) → HashesDiffer ts → HashesDiffer (erase_node a ts)
unfolding erase_node
erase_node-HashesDiffer a [] d = tt
erase_node-HashesDiffer a (t ∷ ts) d =
    ground (arith, erase_node-HashesDiffer a ts d.1, find_tx-erase_node t.hash a ts d.1, d.0, d.1)

pub length-erase_node-le : (a : ℕ) (ts : List Tx) → length (erase_node a ts) ≤ length ts
unfolding erase_node
length-erase_node-le a [] = omega arith
length-erase_node-le a (t ∷ ts) = ground (arith, length-erase_node-le a ts)

-- What is found by a hash has it.
pub find_tx-hash : (h : ℕ) (ts : List Tx) (tx : Tx) → find_tx h ts ≡ some tx → tx.hash ≡ h
unfolding find_tx
find_tx-hash h [] tx e = absurd (ground arith)
find_tx-hash h (t ∷ ts) tx e = elim (Bool-cases (t.hash == h)) [
  | inl here ↦ ground (arith, ==_iff t.hash h)
  | inr there ↦ find_tx-hash h ts tx (ground arith)
]
