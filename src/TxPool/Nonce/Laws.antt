-- ===== src/TxPool/Nonce/Laws.antt =====
-- What the nonce caches hold.
use lab_bcos.Base.{
  ℕ, zero, suc, ◌+◌, ◌≤◌, ◌<◌, ◌≡◌, refl, inl, inr, Bool, true, false, ◌||◌, ◌&&◌, not, List, [],
  ◌∷◌, arith,
}
use lab_bcos.Base.Tests.{◌==◌, ==_iff, Bool-cases}
use lab_bcos.Base.Lists.{contains, add, contains-remove, contains-add}
use lab_bcos.TxPool.Types.{Tx, Chain}
use lab_bcos.TxPool.Nonce.{generate_key, del_key, del_cache, insert_all, expire, enter}

-- Has one of the transactions this key?
unfoldable pub has_key : List Tx → ℕ → Bool
has_key [] key = false
has_key (tx ∷ txs) key = generate_key tx == key || has_key txs key

-- Has one of the `count` blocks from `i` on a transaction with this key?
unfoldable pub in_blocks : Chain → ℕ → ℕ → ℕ → Bool
in_blocks chain zero i key = false
in_blocks chain (suc count) i key =
    has_key (chain.transactions_at i) key || in_blocks chain count (suc i) key

pub contains-del_key :
    (key k : ℕ) (cache : List ℕ)
    → contains (del_key key cache) k ≡ (contains cache k && not (key == k))
unfolding del_key
contains-del_key key k cache = ground (arith, contains-remove key k cache, ==_iff key k)

pub contains-del_cache :
    (txs : List Tx) (k : ℕ) (cache : List ℕ)
    → contains (del_cache txs cache) k ≡ (contains cache k && not (has_key txs k))
unfolding del_cache has_key
contains-del_cache [] k cache = ground arith
contains-del_cache (tx ∷ txs) k cache = ground (
  arith,
  contains-del_cache txs k (del_key (generate_key tx) cache),
  contains-del_key (generate_key tx) k cache,
)

contains-insert_all :
    (txs : List Tx) (k : ℕ) (cache : List ℕ)
    → contains (insert_all txs cache) k ≡ (contains cache k || has_key txs k)
unfolding insert_all has_key
contains-insert_all [] k cache = ground arith
contains-insert_all (tx ∷ txs) k cache = ground (
  arith,
  contains-insert_all txs k (add (generate_key tx) cache),
  contains-add (generate_key tx) k cache,
)

pub contains-expire :
    (chain : Chain) (count i k : ℕ) (cache : List ℕ)
    → contains (expire chain count i cache) k
      ≡ (contains cache k && not (in_blocks chain count i k))
unfolding expire in_blocks
contains-expire chain zero i k cache = ground arith
contains-expire chain (suc count) i k cache = ground (
  arith,
  contains-expire chain count (suc i) k (del_cache (chain.transactions_at i) cache),
  contains-del_cache (chain.transactions_at i) k cache,
)

pub contains-enter :
    (chain : Chain) (count i k : ℕ) (cache : List ℕ)
    → contains (enter chain count i cache) k ≡ (contains cache k || in_blocks chain count i k)
unfolding enter in_blocks
contains-enter chain zero i k cache = ground arith
contains-enter chain (suc count) i k cache = ground (
  arith,
  contains-enter chain count (suc i) k (insert_all (chain.transactions_at i) cache),
  contains-insert_all (chain.transactions_at i) k cache,
)

-- A block from `first` to `last` has a transaction with this key.
abbrev pub Filed : Chain → ℕ → ℕ → ℕ → Type 0
Filed chain first last key =
    (i : ℕ) × (first ≤ i) × (i ≤ last) × (has_key (chain.transactions_at i) key ≡ true)

pub in_blocks→Filed :
    (chain : Chain) (count i k : ℕ)
    → in_blocks chain count i k ≡ true
    → (j : ℕ) × (i ≤ j) × (j < i + count) × (has_key (chain.transactions_at j) k ≡ true)
unfolding in_blocks
in_blocks→Filed chain zero i k h = absurd (ground arith)
in_blocks→Filed chain (suc count) i k h = elim (Bool-cases (has_key (chain.transactions_at i) k)) [
  | inl here ↦ (i, omega arith, omega arith, here)
  | inr there ↦
      let (j, l, u, e) = in_blocks→Filed chain count (suc i) k (ground arith) in
      (j, omega arith, omega arith, e)
]

pub Filed→in_blocks :
    (chain : Chain) (count i k j : ℕ)
    → i ≤ j
    → j < i + count
    → has_key (chain.transactions_at j) k ≡ true
    → in_blocks chain count i k ≡ true
unfolding in_blocks
Filed→in_blocks chain zero i k j l u e = absurd (omega arith)
Filed→in_blocks chain (suc count) i k j l u e = elim (Bool-cases (i == j)) [
  | inl here ↦ subst_here ((==_iff i j).0 here)
  | inr there ↦
      ground (arith, Filed→in_blocks chain count (suc i) k j (ground arith) (omega arith) e)
]
  where
    subst_here :
        i ≡ j → (has_key (chain.transactions_at i) k || in_blocks chain count (suc i) k) ≡ true
    subst_here here = rw here (rw e refl)
