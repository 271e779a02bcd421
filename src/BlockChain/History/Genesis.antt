-- ===== src/BlockChain/History/Genesis.antt =====
-- What the tables hold with the genesis block alone.
use lab_bcos.Base.{
  ℕ, suc, ◌<◌, ◌≡◌, refl, sym, ap, subst, ◌∙◌, inl, inr, Bool, false, Option, none, some, [], ◌∷◌,
  arith,
}
use lab_bcos.Base.Tests.{◌==◌, ==_iff, Bool-cases}
use lab_bcos.Base.Lists.{contains}
use lab_bcos.Base.Dict.{lookup}
use lab_bcos.Sync.Blocks.{SyncBlock}
use lab_bcos.BlockChain.Tables.{
  SysTable, select, insert_row, first, select-insert_row_same, select-insert_row_other, number,
}
use lab_bcos.BlockChain.Cache.{empty_cache, get}
use lab_bcos.BlockChain.Cache.Fifo.{keys}
use lab_bcos.BlockChain.Served.{IsServed, stored}
use lab_bcos.BlockChain.Written.{AllOpen}
use lab_bcos.BlockChain.Linked.{Link}
use lab_bcos.BlockChain.Sound.{same_block}
use lab_bcos.BlockChain.History.{genesis_chain, at_height, Holds}

module _ (opens : SysTable → Bool) (all : AllOpen opens) (g : SyncBlock)
    (first_block : g.number ≡ 0) where
  genesis_number : number opens (genesis_chain g).tables ≡ 0
  unfolding number genesis_chain
  genesis_number = rw (all.state) refl

  genesis_listed : first (select 0 (genesis_chain g).tables.hashes) ≡ some g.header_hash
  unfolding genesis_chain select lookup
  genesis_listed =
      subst (λ k. first (select k (insert_row g.number g.header_hash [])) ≡ some g.header_hash)
        first_block (ap first (select-insert_row_same g.number g.header_hash [] refl))

  genesis_stored : stored g.header_hash (genesis_chain g).tables ≡ some g
  unfolding genesis_chain stored select lookup
  genesis_stored = ap first (select-insert_row_same g.header_hash g [] refl)

  genesis_other : (h : ℕ) → (g.header_hash == h) ≡ false → stored h (genesis_chain g).tables ≡ none
  unfolding genesis_chain stored select lookup
  genesis_other h e = ap first (select-insert_row_other g.header_hash h g [] e)

  genesis_above : (k : ℕ) → 0 < k → select k (genesis_chain g).tables.hashes ≡ []
  unfolding genesis_chain select lookup
  genesis_above k e =
      select-insert_row_other g.number k g.header_hash []
        (ground (arith, e, first_block, ==_iff g.number k))

  genesis-Link : (k : ℕ) → k ≡ 0 → Link opens k (genesis_chain g).tables
  genesis-Link k e = record {
    block = g;
    listed =
        subst (λ i. first (select i (genesis_chain g).tables.hashes) ≡ some g.header_hash) (sym e)
          genesis_listed;
    kept = genesis_stored;
    height = first_block ∙ sym e;
    parent = λ j next. absurd (omega (arith, e, next));
  }

  genesis_filed :
      (h : ℕ) (b : SyncBlock) → stored h (genesis_chain g).tables ≡ some b → b.header_hash ≡ h
  genesis_filed h b e = elim (Bool-cases (g.header_hash == h)) [
    | inr other ↦ absurd (ground (arith, sym (genesis_other h other) ∙ e))
    | inl same ↦
        let at = (==_iff g.header_hash h).0 same in
        let here : Option.some g ≡ some b =
          sym (subst (λ i. stored i (genesis_chain g).tables ≡ some g) at genesis_stored) ∙ e in
        ap (λ v. v.header_hash) (sym (same_block g b here)) ∙ at
  ]

  genesis-IsServed : IsServed (genesis_chain g)
  unfolding genesis_chain get lookup empty_cache keys
  genesis-IsServed = record {
    filed = genesis_filed;
    cached = λ h b e. absurd (ground (arith, e));
    in_step = record { is_map = tt; listed = refl; bounded = omega arith };
  }

  only_genesis : (k : ℕ) (b : SyncBlock) → at_height k (g ∷ []) ≡ some b → (k ≡ 0) × (g ≡ b)
  unfolding at_height
  only_genesis k b e = ground (arith, e, ==_iff k 0)

  pub genesis-Holds : Holds opens (g ∷ []) (genesis_chain g)
  unfolding contains
  genesis-Holds = record {
    sound = record {
      linked = record {
        link = λ k up_to. genesis-Link k (omega (arith, up_to, genesis_number));
        above = λ k above. genesis_above k (omega (arith, above, genesis_number));
      };
      served = genesis-IsServed;
    };
    count = ap suc genesis_number;
    listed = λ k b e.
        let (at, same) = only_genesis k b e in
        ap (λ i. first (select i (genesis_chain g).tables.hashes)) at
        ∙ genesis_listed
        ∙ ap (λ v. some v.header_hash) same;
    kept = λ k b e.
        subst (λ v. stored v.header_hash (genesis_chain g).tables ≡ some v) (only_genesis k b e).1
          genesis_stored;
    fresh = λ h e. genesis_other h (ground (arith, e));
  }
