-- ===== src/TxPool/Nonce.antt =====
-- libtxpool/CommonTransactionNonceCheck.cpp and TransactionNonceCheck.cpp: which pairs of a sender
-- and a nonce are taken, by transactions of the pool or of the latest blocks.
pub mod Laws
pub mod Window
use lab_bcos.Base.{
  ℕ, zero, suc, ◌+◌, ◌-◌, ◌*◌, ◌%◌, ◌^◌, max, Bool, true, false, ◌||◌, List, [], ◌∷◌,
}
use lab_bcos.Base.Tests.{ltb, leb, ◌==◌, if◌then◌else◌}
use lab_bcos.Base.Lists.{contains, remove, add}
use lab_bcos.TxPool.Types.{Tx, Chain, TxNonceCheck, invalid256}

-- `generateKey`: the text of the address and the nonce, which determines both of them, as a number
-- that does so for nonces of 256 bits.
unfoldable pub generate_key : Tx → ℕ
generate_key tx = tx.sender * 2 ^ 256 + tx.nonce

-- `CommonTransactionNonceCheck::isNonceOk`.
unfoldable pub is_nonce_ok : Tx → Bool → List ℕ → List ℕ × Bool
is_nonce_ok tx need_insert cache =
    if contains cache (generate_key tx)
    then (cache, false)
    else if need_insert
    then (add (generate_key tx) cache, true)
    else (cache, true)

-- `delCache` of one key.
unfoldable pub del_key : ℕ → List ℕ → List ℕ
del_key key cache = if contains cache key then remove key cache else cache

-- `delCache` of a list of transactions.
unfoldable pub del_cache : List Tx → List ℕ → List ℕ
del_cache [] cache = cache
del_cache (tx ∷ txs) cache = del_cache txs (del_key (generate_key tx) cache)

unfoldable pub insert_cache : Tx → List ℕ → List ℕ
insert_cache tx cache = add (generate_key tx) cache

-- The constructor and `init`, before the cache is built.
unfoldable pub new_check : ℕ → TxNonceCheck
new_check limit = record { cache = []; start_blk = 0; end_blk = 0; max_block_limit = limit }

unfoldable pub is_block_limit_ok : Chain → TxNonceCheck → Tx → Bool
is_block_limit_ok chain c tx =
    if tx.block_limit == invalid256
      || leb tx.block_limit chain.number
      || ltb (chain.number + c.max_block_limit) tx.block_limit
    then false
    else true

-- `TransactionNonceCheck::ok`.
unfoldable pub ok : Chain → Tx → Bool → TxNonceCheck → TxNonceCheck × Bool
ok chain tx need_insert c =
    if is_block_limit_ok chain c tx
    then (let (cache, fresh) = is_nonce_ok tx need_insert c.cache in
        (record c { cache = cache }, fresh))
    else (c, false)

-- The keys of a block put in, where they are missing.
unfoldable pub insert_all : List Tx → List ℕ → List ℕ
insert_all [] cache = cache
insert_all (tx ∷ txs) cache = insert_all txs (add (generate_key tx) cache)

-- The first loop of `updateCache`: `count` blocks from `i` on leave the cache.
unfoldable pub expire : Chain → ℕ → ℕ → List ℕ → List ℕ
expire chain zero i cache = cache
expire chain (suc count) i cache =
    expire chain count (suc i) (del_cache (chain.transactions_at i) cache)

-- The second loop: `count` blocks from `i` on enter it.
unfoldable pub enter : Chain → ℕ → ℕ → List ℕ → List ℕ
enter chain zero i cache = cache
enter chain (suc count) i cache =
    enter chain count (suc i) (insert_all (chain.transactions_at i) cache)

-- The first block that the cache covers at a height.
unfoldable pub start_of : ℕ → ℕ → ℕ
start_of limit last = if ltb limit last then last - limit else 0

-- `updateCache`. Block numbers are cut to `unsigned`; a chain stays below `2 ^ 32 - 1` blocks,
-- from where on the source's second loop does not end.
unfoldable pub update_cache : Chain → Bool → TxNonceCheck → TxNonceCheck
update_cache chain rebuild c =
    let last = chain.number % 2 ^ 32 in
    let start = start_of c.max_block_limit last in
    let pre_end = if rebuild then 0 else c.end_blk in
    let first = max ((pre_end + 1) % 2 ^ 32) start in
    let kept = if rebuild then [] else expire chain (start - c.start_blk) c.start_blk c.cache in
    record {
      cache = enter chain (suc last - first) first kept;
      start_blk = start;
      end_blk = last;
      max_block_limit = c.max_block_limit;
    }

-- `TransactionNonceCheck::init`.
unfoldable pub init : Chain → TxNonceCheck → TxNonceCheck
init chain c = update_cache chain true (record c { start_blk = 0; end_blk = 0 })
