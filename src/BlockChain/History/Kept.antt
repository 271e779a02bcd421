-- ===== src/BlockChain/History/Kept.antt =====
-- Commits and reads keep the tables those of the list of blocks, and each block is read at its
-- height.
use lab_bcos.Base.{
  ℕ, suc, ◌≡◌, ◌≢◌, refl, sym, ap, subst, ◌∙◌, ◌⊎◌, inl, inr, Bool, false, Option, none, some, List,
  ◌∷◌, arith,
}
use lab_bcos.Base.Tests.{◌==◌, ==_iff, Bool-cases, Option-cases}
use lab_bcos.Base.Lists.{length, contains}
use lab_bcos.Sync.Blocks.{SyncBlock}
use lab_bcos.BlockChain.Tables.{
  SysTable, select, first, select-insert_row_other, number, number_hash,
}
use lab_bcos.BlockChain.Reads.{
  BlockChain, get_block, get_block_by_number, block_at, get_tx_by_hash, tx_at, pick_tx,
}
use lab_bcos.BlockChain.Commit.{ok, commit_block}
use lab_bcos.BlockChain.Served.{stored, get_block-Reads}
use lab_bcos.BlockChain.Written.{written, AllOpen, commit_cases}
use lab_bcos.BlockChain.Linked.{hash_below, listed_new, stored_new, stored_kept, number-written}
use lab_bcos.BlockChain.Sound.{IsSound, commit_block-IsSound, by_number, hash_at, same_block}
use lab_bcos.BlockChain.History.{
  at_height, block_hashes, History, start, commits, refuses, reads, reads_at, searches, Holds,
  at_height_below, at_height_above, Holds-Reads,
}
use lab_bcos.BlockChain.History.Genesis.{genesis-Holds}

-- The hash that `numberHash` gives for a block, or of none.
abbrev pub hash_or_zero : Option SyncBlock → ℕ
hash_or_zero none = 0
hash_or_zero (some b) = b.header_hash

module _ (opens : SysTable → Bool) (all : AllOpen opens) where
  -- A block that is written is the one at its height, and the others stay at theirs.
  at_height_new :
      (bs : List SyncBlock) (b v : SyncBlock) (k : ℕ)
      → at_height k (b ∷ bs) ≡ some v
      → ((k ≡ length bs) × (b ≡ v)) ⊎ (at_height k bs ≡ some v)
  unfolding at_height
  at_height_new bs b v k = elim (Bool-cases (k == length bs)) [
    | inl same ↦ rw (same) (λ e. inl ((==_iff k (length bs)).0 same, same_block b v e))
    | inr other ↦ rw (other) (λ e. inr e)
  ]

  module _ (bs : List SyncBlock) (b : SyncBlock) (c : BlockChain) (h : Holds opens bs c)
      (next : b.number ≡ suc (number opens c.tables))
      (new : contains (block_hashes bs) b.header_hash ≡ false) where
    at_new : (k : ℕ) → k ≡ length bs → b.number ≡ k
    at_new k e = next ∙ h.count ∙ sym e

    written_listed :
        (k : ℕ) (v : SyncBlock)
        → at_height k (b ∷ bs) ≡ some v
        → first (select k (written b c.tables).hashes) ≡ some v.header_hash
    written_listed k v e = elim (at_height_new bs b v k e) [
      | inl (top, same) ↦
          subst (λ i. first (select i (written b c.tables).hashes) ≡ some v.header_hash)
            (at_new k top)
            (listed_new opens all b c.tables (h.sound.linked.above b.number (omega (arith, next)))
              ∙ ap (λ w. some w.header_hash) same)
      | inr below ↦
          ap first (
            hash_below opens all b c.tables k
              (omega (arith, next, h.count, at_height_below k bs v below)))
          ∙ h.listed k v below
    ]

    written_kept :
        (k : ℕ) (v : SyncBlock)
        → at_height k (b ∷ bs) ≡ some v
        → stored v.header_hash (written b c.tables) ≡ some v
    written_kept k v e = elim (at_height_new bs b v k e) [
      | inl (top, same) ↦
          subst (λ w. stored w.header_hash (written b c.tables) ≡ some w) same
            (stored_new opens all b c.tables (h.fresh b.header_hash new))
      | inr below ↦ stored_kept opens all b c.tables v.header_hash v (h.kept k v below)
    ]

    written_fresh :
        (i : ℕ) → contains (block_hashes (b ∷ bs)) i ≡ false → stored i (written b c.tables) ≡ none
    unfolding contains stored written
    written_fresh i e =
        ap first (select-insert_row_other b.header_hash i b c.tables.blocks (ground (arith, e)))
        ∙ h.fresh i (ground (arith, e))

    written-Holds :
        (d : BlockChain) → d.tables ≡ written b c.tables → IsSound opens d → Holds opens (b ∷ bs) d
    written-Holds d same sound = record {
      sound = sound;
      count =
          ap (λ t. suc (number opens t)) same
          ∙ ap suc (number-written opens all b c.tables ∙ next ∙ h.count);
      listed = λ k v e. ap (λ t. first (select k t.hashes)) same ∙ written_listed k v e;
      kept = λ k v e. ap (stored v.header_hash) same ∙ written_kept k v e;
      fresh = λ i e. ap (stored i) same ∙ written_fresh i e;
    }

  commits-Holds :
      (bs : List SyncBlock) (free : Bool) (b : SyncBlock) (c : BlockChain)
      → Holds opens bs c
      → contains (block_hashes bs) b.header_hash ≡ false
      → (commit_block opens free b c).1 ≡ ok
      → Holds opens (b ∷ bs) (commit_block opens free b c).0
  commits-Holds bs free b c h new succeeded = elim (commit_cases opens free b c) [
    | inl (failed, same) ↦ absurd (failed succeeded)
    | inr (done_ok, done) ↦
        written-Holds bs b c h done.next new (commit_block opens free b c).0
          (ap (λ d. d.tables) done.done)
          (commit_block-IsSound opens free b c h.sound (h.fresh b.header_hash new))
  ]

  refuses-Holds :
      (bs : List SyncBlock) (free : Bool) (b : SyncBlock) (c : BlockChain)
      → Holds opens bs c
      → (commit_block opens free b c).1 ≢ ok
      → Holds opens bs (commit_block opens free b c).0
  refuses-Holds bs free b c h failed = elim (commit_cases opens free b c) [
    | inl (other, same) ↦ subst (Holds opens bs) (sym same) h
    | inr (done_ok, done) ↦ absurd (failed done_ok)
  ]

  reads-Holds :
      (bs : List SyncBlock) (k : ℕ) (c : BlockChain)
      → Holds opens bs c
      → Holds opens bs (get_block opens k c).1
  reads-Holds bs k c h =
      let r = get_block-Reads opens all.blocks k c h.sound.served in
      Holds-Reads opens bs c (get_block opens k c).1 r.same_tables r.served h

  reads_at-Holds :
      (bs : List SyncBlock) (k : ℕ) (c : BlockChain)
      → Holds opens bs c
      → Holds opens bs (get_block_by_number opens k c).1
  unfolding get_block_by_number block_at
  reads_at-Holds bs k c h =
      rw (all.hashes) (elim (Option-cases (first (select k c.tables.hashes))) [
        | inl e ↦ rw (e) h
        | inr (i, e) ↦ rw (e) (reads-Holds bs i c h)
      ])

  pick_tx_same : (i : ℕ) (r : Option SyncBlock × BlockChain) → (pick_tx i r).1 ≡ r.1
  unfolding pick_tx
  pick_tx_same i (none, c) = refl
  pick_tx_same i (some b, c) = refl

  searches-Holds :
      (bs : List SyncBlock) (k : ℕ) (c : BlockChain)
      → Holds opens bs c
      → Holds opens bs (get_tx_by_hash opens k c).1
  unfolding get_tx_by_hash tx_at
  searches-Holds bs k c h =
      rw (all.places) (elim (Option-cases (first (select k c.tables.places))) [
        | inl e ↦ rw (e) h
        | inr ((height, i), e) ↦ rw (e) (
            subst (Holds opens bs) (sym (pick_tx_same i (get_block_by_number opens height c)))
              (reads_at-Holds bs height c h))
      ])

  module _ (g : SyncBlock) (first_block : g.number ≡ 0) where
    pub History-Holds :
        {bs : List SyncBlock} {c : BlockChain} → History opens g bs c → Holds opens bs c
    History-Holds start = genesis-Holds opens all g first_block
    History-Holds (commits {bs = bs} {c = c} free b r new done) =
        commits-Holds bs free b c (History-Holds r) new done
    History-Holds (refuses {bs = bs} {c = c} free b r failed) =
        refuses-Holds bs free b c (History-Holds r) failed
    History-Holds (reads {bs = bs} {c = c} h r) = reads-Holds bs h c (History-Holds r)
    History-Holds (reads_at {bs = bs} {c = c} k r) = reads_at-Holds bs k c (History-Holds r)
    History-Holds (searches {bs = bs} {c = c} h r) = searches-Holds bs h c (History-Holds r)

  -- The reads of a chain, by the list of its blocks.
  pub read_at_height :
      (bs : List SyncBlock) (c : BlockChain) (k : ℕ)
      → Holds opens bs c
      → ((get_block_by_number opens k c).0 ≡ at_height k bs)
        × (number_hash opens k c.tables ≡ hash_or_zero (at_height k bs))
  unfolding get_block_by_number block_at number_hash
  read_at_height bs c k h = elim (Option-cases (at_height k bs)) [
    | inl e ↦
        let free = h.sound.linked.above k (omega (arith, h.count, at_height_above k bs e)) in
        rw (e, all.hashes, free) (refl, refl)
    | inr (v, e) ↦
        let listed = h.listed k v e in
        let r = get_block-Reads opens all.blocks v.header_hash c h.sound.served in
        rw (e) (
          ap (λ q. q.0) (by_number opens all k c v.header_hash listed) ∙ r.value ∙ h.kept k v e,
          hash_at opens all k c v.header_hash listed,
        )
  ]

-- Where all tables open and no two committed blocks have the same hash, a chain that got from a
-- genesis block of height 0 to some state by commits and reads gives at each height the block that
-- was committed at that place, its hash for `numberHash`, and no block and the hash 0 above the
-- head; and the head's height is the number of blocks above the genesis block.
pub get_block_by_number-at_height :
    (opens : SysTable → Bool) (g : SyncBlock) (bs : List SyncBlock) (c : BlockChain) (k : ℕ)
    → AllOpen opens
    → g.number ≡ 0
    → History opens g bs c
    → ((get_block_by_number opens k c).0 ≡ at_height k bs)
      × (number_hash opens k c.tables ≡ hash_or_zero (at_height k bs))
      × (suc (number opens c.tables) ≡ length bs)
get_block_by_number-at_height opens g bs c k all first_block history =
    let h = History-Holds opens all g first_block history in
    let r = read_at_height opens all bs c k h in (r.0, r.1, h.count)
