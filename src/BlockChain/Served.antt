-- ===== src/BlockChain/Served.antt =====
-- The cache is never seen from outside: a block is read as the storage has it.
use lab_bcos.Base.{ℕ, ◌≡◌, refl, sym, ap, ◌∙◌, inl, inr, Bool, true, Option, none, some}
use lab_bcos.Sync.Blocks.{SyncBlock}
use lab_bcos.BlockChain.Tables.{SysTable, Tables, select, first, hash_2_block}
use lab_bcos.BlockChain.Cache.{add, get}
use lab_bcos.BlockChain.Cache.Fifo.{IsInStep, add-IsInStep, get-add}
use lab_bcos.BlockChain.Reads.{BlockChain, get_block, load_block, hit_or_load, remember}

-- The block that the storage has under a hash.
unfoldable pub stored : ℕ → Tables → Option SyncBlock
stored h t = first (select h t.blocks)

-- Each block stands in the storage under its own hash, the cache holds only what the storage has, and
-- the cache's queue is in step.
pub record IsServed (c : BlockChain) : Type 0 where
  pub filed : (h : ℕ) (b : SyncBlock) → stored h c.tables ≡ some b → b.header_hash ≡ h
  pub cached : (h : ℕ) (b : SyncBlock) → get h c.cache ≡ some b → stored h c.tables ≡ some b
  pub in_step : IsInStep c.cache

-- What a read gives: the value of the storage, and a chain with the same tables that is still served.
pub record Reads {A : Type 0} (expected : A) (c : BlockChain) (r : A × BlockChain) : Type 0 where
  pub value : r.0 ≡ expected
  pub same_tables : r.1.tables ≡ c.tables
  pub served : IsServed r.1

remembered :
    (c : BlockChain) (b : SyncBlock)
    → IsServed c
    → get b.header_hash c.cache ≡ none
    → stored b.header_hash c.tables ≡ some b
    → IsServed (record c { cache = add b c.cache })
remembered c b served miss here = record {
  filed = served.filed;
  cached = λ h found e. elim (get-add h b found c.cache served.in_step miss e) [
    | inl (same, fits) ↦ ap (λ k. stored k c.tables) (sym same) ∙ here ∙ ap some fits
    | inr held ↦ served.cached h found held
  ];
  in_step = add-IsInStep b c.cache served.in_step miss;
}

remember-Reads :
    (h : ℕ) (c : BlockChain) (o : Option SyncBlock)
    → IsServed c
    → get h c.cache ≡ none
    → stored h c.tables ≡ o
    → Reads o c (remember c o)
unfolding remember
remember-Reads h c none served miss e = record { value = refl; same_tables = refl; served = served }
remember-Reads h c (some b) served miss e =
    let own = served.filed h b e in
    record {
      value = refl;
      same_tables = refl;
      served =
          remembered c b served (ap (λ k. get k c.cache) own ∙ miss)
            (ap (λ k. stored k c.tables) own ∙ e);
    }

module _ (opens : SysTable → Bool) (opened : opens hash_2_block ≡ true) where
  hit_or_load-Reads :
      (h : ℕ) (c : BlockChain) (o : Option SyncBlock)
      → IsServed c
      → get h c.cache ≡ o
      → Reads (stored h c.tables) c (hit_or_load opens h c o)
  unfolding hit_or_load load_block stored
  hit_or_load-Reads h c none served e =
      rw (opened) (remember-Reads h c (stored h c.tables) served e refl)
  hit_or_load-Reads h c (some b) served e = record {
    value = sym (served.cached h b e);
    same_tables = refl;
    served = served;
  }

  -- Where the table of blocks opens, and the cache agrees with the storage, `getBlock` gives the block
  -- that the storage has under the hash, or none where it has none, whatever is in the cache; the
  -- tables stay, and the cache goes on agreeing with them.
  pub get_block-Reads :
      (h : ℕ) (c : BlockChain) → IsServed c → Reads (stored h c.tables) c (get_block opens h c)
  unfolding get_block
  get_block-Reads h c served = hit_or_load-Reads h c (get h c.cache) served refl
