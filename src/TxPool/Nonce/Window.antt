-- ===== src/TxPool/Nonce/Window.antt =====
-- The cache of the chain's nonces against its specification: the keys of a window of blocks.
use lab_bcos.Base.{
  ℕ, suc, ◌+◌, ◌-◌, ◌%◌, ◌^◌, ◌≤◌, ◌<◌, max, ◌≡◌, ◌≢◌, refl, sym, ◌∙◌, inl, inr, ◌↔◌, true, false,
  List, [], arith,
}
use lab_bcos.Base.Tests.{ltb, leb, Bool-cases}
use lab_bcos.Base.Lists.{contains}
use lab_bcos.TxPool.Types.{Tx, Chain, TxNonceCheck, invalid256}
use lab_bcos.TxPool.Nonce.{
  generate_key, is_nonce_ok, is_block_limit_ok, ok, expire, enter, start_of, update_cache, init,
}
use lab_bcos.TxPool.Nonce.Laws.{
  has_key, in_blocks, Filed, in_blocks→Filed, Filed→in_blocks, contains-expire, contains-enter,
}

-- The cache holds just the keys of the blocks from `start_blk`, the genesis block excepted, to
-- `end_blk`.
pub record Covers (chain : Chain) (c : TxNonceCheck) : Type 0 where
  pub window : (k : ℕ) → (contains c.cache k ≡ true) ↔ Filed chain (max 1 c.start_blk) c.end_blk k

-- The chain has grown, within 32 bits, since the cache was built.
pub record Grown (old chain : Chain) (c : TxNonceCheck) : Type 0 where
  pub kept : (i : ℕ) → i ≤ c.end_blk → chain.transactions_at i ≡ old.transactions_at i
  pub higher : c.end_blk ≤ chain.number
  pub short : chain.number < 2 ^ 32 - 1
  pub forward : c.start_blk ≤ start_of c.max_block_limit chain.number

-- No key of a block that leaves the window stands again in a block that was cached and stays.
abbrev pub NoReuse : Chain → TxNonceCheck → Type 0
NoReuse chain c =
    (i j k : ℕ)
    → c.start_blk ≤ i
    → i < start_of c.max_block_limit chain.number
    → start_of c.max_block_limit chain.number ≤ j
    → j ≤ c.end_blk
    → has_key (chain.transactions_at i) k ≡ true
    → has_key (chain.transactions_at j) k ≡ false

small_mod : (n : ℕ) → n < 2 ^ 32 → n % 2 ^ 32 ≡ n
small_mod n h = omega arith

-- The blocks that enter, as a window.
entered_iff :
    (chain : Chain) (first last k : ℕ)
    → (in_blocks chain (suc last - first) first k ≡ true) ↔ Filed chain first last k
entered_iff chain first last k = (
  λ h.
      let (j, l, u, e) = in_blocks→Filed chain (suc last - first) first k h in
      (j, l, omega arith, e),
  λ (j, l, u, e). Filed→in_blocks chain (suc last - first) first k j l (omega arith) e,
)

pub update_cache_small :
    (chain : Chain) (c : TxNonceCheck)
    → c.end_blk ≤ chain.number
    → chain.number < 2 ^ 32 - 1
    → update_cache chain false c ≡ record {
      cache =
          enter chain
            (suc chain.number - max (c.end_blk + 1) (start_of c.max_block_limit chain.number))
            (max (c.end_blk + 1) (start_of c.max_block_limit chain.number))
            (expire chain
              (start_of c.max_block_limit chain.number - c.start_blk)
              c.start_blk
              c.cache);
      start_blk = start_of c.max_block_limit chain.number;
      end_blk = chain.number;
      max_block_limit = c.max_block_limit;
    }
unfolding update_cache
update_cache_small chain c h s =
    rw (small_mod chain.number (omega arith), small_mod (c.end_blk + 1) (omega arith)) refl

-- One update, with the old window from `b` to `e` and the new one from `s` to `n`.
module _ (old chain : Chain) (b s e n : ℕ) (cache : List ℕ)
    (covers : (k : ℕ) → (contains cache k ≡ true) ↔ Filed old (max 1 b) e k)
    (same : (i : ℕ) → i ≤ e → chain.transactions_at i ≡ old.transactions_at i)
    (fresh : (i j k : ℕ)
      → b ≤ i
      → i < s
      → s ≤ j
      → j ≤ e
      → has_key (chain.transactions_at i) k ≡ true
      → has_key (chain.transactions_at j) k ≡ false)
    (forward : b ≤ s) (higher : e ≤ n) where
  moved :
      (i k : ℕ) → i ≤ e → has_key (old.transactions_at i) k ≡ has_key (chain.transactions_at i) k
  moved i k h = rw (same i h) refl

  expired→Filed :
      (k : ℕ) → contains (expire chain (s - b) b cache) k ≡ true → Filed chain (max 1 s) n k
  expired→Filed k h =
      let before = contains-expire chain (s - b) b k cache in
      let (j, l, u, f) = (covers k).0 (ground arith) in
      elim (Bool-cases (ltb j s)) [
        | inl gone ↦ absurd (
            ground (
              arith,
              Filed→in_blocks chain (s - b) b k j (omega arith) (ground arith)
                  (sym (moved j k u) ∙ f),
            ))
        | inr stays ↦ (j, ground arith, omega arith, sym (moved j k u) ∙ f)
      ]

  Filed→expired :
      (j k : ℕ)
      → s ≤ j
      → 1 ≤ j
      → j ≤ e
      → has_key (chain.transactions_at j) k ≡ true
      → contains (expire chain (s - b) b cache) k ≡ true
  Filed→expired j k l o u f = elim (Bool-cases (in_blocks chain (s - b) b k)) [
    | inl gone ↦
        let (i, li, ui, g) = in_blocks→Filed chain (s - b) b k gone in
        absurd (ground (arith, fresh i j k li (omega arith) l u g))
    | inr stays ↦ ground (
      arith,
      contains-expire chain (s - b) b k cache,
      (covers k).1 (j, omega arith, u, moved j k u ∙ f),
    )
  ]

  window_step :
      (k : ℕ)
      → (contains
            (enter chain (suc n - max (e + 1) s) (max (e + 1) s) (expire chain (s - b) b cache))
            k
          ≡ true)
        ↔ Filed chain (max 1 s) n k
  window_step k = (
    λ h. elim (Bool-cases (contains (expire chain (s - b) b cache) k)) [
      | inl old_key ↦ expired→Filed k old_key
      | inr none_old ↦
          let (j, l, u, f) = (entered_iff chain (max (e + 1) s) n k).0 (
            ground (
              arith,
              contains-enter chain (suc n - max (e + 1) s) (max (e + 1) s) k
                  (expire chain (s - b) b cache),
            )) in
          (j, omega arith, u, f)
    ],
    λ (j, l, u, f). elim (Bool-cases (leb j e)) [
      | inl cached ↦ ground (
        arith,
        contains-enter chain (suc n - max (e + 1) s) (max (e + 1) s) k
            (expire chain (s - b) b cache),
        Filed→expired j k (omega arith) (omega arith) (ground arith) f,
      )
      | inr new ↦ ground (
        arith,
        contains-enter chain (suc n - max (e + 1) s) (max (e + 1) s) k
            (expire chain (s - b) b cache),
        (entered_iff chain (max (e + 1) s) n k).1 (j, ground arith, u, f),
      )
    ],
  )

-- When the chain has grown, within 32 bits and with no fewer blocks outside the window, and no key
-- of a block that leaves the window stands again in a cached block that stays, then the update
-- without a rebuild leaves just the keys of the new window, as a rebuild would.
pub update_cache-Covers :
    (old chain : Chain) (c : TxNonceCheck)
    → Grown old chain c
    → NoReuse chain c
    → Covers old c
    → Covers chain (update_cache chain false c)
update_cache-Covers old chain c grown fresh covers =
    rw (update_cache_small chain c grown.higher grown.short) (record {
      window =
          window_step old chain c.start_blk (start_of c.max_block_limit chain.number) c.end_blk
            chain.number c.cache covers.window grown.kept fresh grown.forward grown.higher;
    })

-- Building the cache anew gives the keys of the window, on a chain within 32 bits.
pub init-Covers :
    (chain : Chain) (c : TxNonceCheck) → chain.number < 2 ^ 32 - 1 → Covers chain (init chain c)
unfolding init update_cache
init-Covers chain c h =
    rw (small_mod chain.number (omega arith)) (record { window = λ k. rebuilt k })
  where
    rebuilt :
        (k : ℕ)
        → (contains
              (enter chain
                (suc chain.number - max 1 (start_of c.max_block_limit chain.number))
                (max 1 (start_of c.max_block_limit chain.number))
                [])
              k
            ≡ true)
          ↔ Filed chain (max 1 (start_of c.max_block_limit chain.number)) chain.number k
    rebuilt k = rw (contains-enter chain _ _ k []) (
        unfold contains in
        entered_iff chain (max 1 (start_of c.max_block_limit chain.number)) chain.number k)

-- A transaction that passes, and nothing else, has a block limit above the height, by at most the
-- maximum, and a key that no block of the window has.
pub ok_iff :
    (chain : Chain) (c : TxNonceCheck) (tx : Tx)
    → Covers chain c
    → ((ok chain tx false c).1 ≡ true) ↔ (
        (tx.block_limit ≢ invalid256)
        × (chain.number < tx.block_limit)
        × (tx.block_limit ≤ chain.number + c.max_block_limit)
        × ¬ Filed chain (max 1 c.start_blk) c.end_blk (generate_key tx))
unfolding ok is_block_limit_ok is_nonce_ok
ok_iff chain c tx covers = (
  λ h. (
    ground arith,
    ground arith,
    ground arith,
    λ f. ground (arith, (covers.window (generate_key tx)).1 f),
  ),
  λ (v, l, u, f). elim (Bool-cases (contains c.cache (generate_key tx))) [
    | inl old_key ↦ absurd (f ((covers.window (generate_key tx)).0 old_key))
    | inr new ↦ ground arith
  ],
)

-- Without `need_insert` the cache stays as it is.
pub ok-same : (chain : Chain) (c : TxNonceCheck) (tx : Tx) → (ok chain tx false c).0 ≡ c
unfolding ok is_nonce_ok
ok-same chain c tx = ground arith
