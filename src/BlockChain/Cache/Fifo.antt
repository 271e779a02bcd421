-- ===== src/BlockChain/Cache/Fifo.antt =====
-- The queue of the block cache lists the blocks of its map, at most eleven of them, and what is added
-- is found.
use lab_bcos.Base.{
  ℕ, suc, ◌-◌, ◌≤◌, ◌≡◌, refl, sym, ap, ◌∙◌, ◌⊎◌, inl, inr, Bool, true, false, Option, none, some,
  List, [], ◌∷◌, ◌++◌, arith,
}
use lab_bcos.Base.Tests.{ltb, ◌==◌, ==_iff, ==_refl, if◌then◌else◌, Bool-cases}
use lab_bcos.Base.Lists.{length}
use lab_bcos.Base.Dict.{
  Dict, lookup, insert, has, erase, retain, IsMap, insert-IsMap, lookup-insert, other_key,
  length-insert,
}
use lab_bcos.Sync.Blocks.{SyncBlock}
use lab_bcos.BlockChain.Cache.{BlockCache, cache_size, drop_front, make_room, put, add, get}

-- The keys of a map, in its order.
unfoldable pub keys : Dict SyncBlock → List ℕ
keys [] = []
keys ((h, b) ∷ rest) = h ∷ keys rest

-- The queue holds the keys of the map in the order in which they came.
pub record IsInStep (c : BlockCache) : Type 0 where
  pub is_map : IsMap c.blocks
  pub listed : keys c.blocks ≡ c.fifo
  pub bounded : length c.blocks ≤ suc cache_size

keys-insert :
    (h : ℕ) (b : SyncBlock) (m : Dict SyncBlock)
    → lookup h m ≡ none
    → keys (insert h b m) ≡ keys m ++ h ∷ []
unfolding keys insert lookup
keys-insert h b [] e = refl
keys-insert h b ((k, v) ∷ m) e = ground (arith, keys-insert h b m)

retain_same : (h : ℕ) (m : Dict SyncBlock) → lookup h m ≡ none → retain (other_key h) m ≡ m
unfolding retain lookup
retain_same h [] e = refl
retain_same h ((k, v) ∷ m) e = ground (arith, retain_same h m)

-- The map without its first entry.
unfoldable pub rest_of : Dict SyncBlock → Dict SyncBlock
rest_of [] = []
rest_of (entry ∷ m) = m

-- The cache of a map, with the queue of its keys.
abbrev pub queued : Dict SyncBlock → BlockCache
queued m = record { blocks = m; fifo = keys m }

drop_front-keys : (m : Dict SyncBlock) → IsMap m → drop_front m (keys m) ≡ queued (rest_of m)
unfolding drop_front keys rest_of erase retain
drop_front-keys [] h = refl
drop_front-keys ((k, v) ∷ m) h = ground (arith, ==_refl k, retain_same k m)

lookup-rest_of :
    (h : ℕ) (b : SyncBlock) (m : Dict SyncBlock)
    → IsMap m
    → lookup h (rest_of m) ≡ some b
    → lookup h m ≡ some b
unfolding rest_of lookup
lookup-rest_of h b [] is_map e = e
lookup-rest_of h b ((k, v) ∷ m) is_map e = ground (arith, ==_iff k h)

rest_of-IsMap : (m : Dict SyncBlock) → IsMap m → IsMap (rest_of m)
unfolding rest_of
rest_of-IsMap [] h = tt
rest_of-IsMap (entry ∷ m) h = h.1

length-rest_of : (m : Dict SyncBlock) → length (rest_of m) ≡ length m - 1
unfolding rest_of
length-rest_of [] = refl
length-rest_of (entry ∷ m) = omega arith

-- Making room takes the oldest block away where there are more than ten, and never empties the cache.
pub make_room_lem :
    (c : BlockCache)
    → IsInStep c
    → make_room c ≡ (if ltb cache_size (length c.blocks) then queued (rest_of c.blocks) else c)
unfolding make_room
make_room_lem c step =
    rw (sym step.listed, drop_front-keys c.blocks step.is_map)
      (ground (arith, step.bounded, length-rest_of c.blocks))

-- There is room for one more block.
record HasRoom (c : BlockCache) : Type 0 where
  is_map : IsMap c.blocks
  listed : keys c.blocks ≡ c.fifo
  bounded : length c.blocks ≤ cache_size

make_room-HasRoom : (c : BlockCache) → IsInStep c → HasRoom (make_room c)
make_room-HasRoom c step =
    rw (make_room_lem c step) (elim (Bool-cases (ltb cache_size (length c.blocks))) [
      | inl full ↦ rw (full) (record {
        is_map = rest_of-IsMap c.blocks step.is_map;
        listed = refl;
        bounded = omega (arith, step.bounded, length-rest_of c.blocks);
      })
      | inr roomy ↦
          rw (roomy)
            (record { is_map = step.is_map; listed = step.listed; bounded = ground (arith, roomy) })
    ])

absent_rest_of : (h : ℕ) (m : Dict SyncBlock) → lookup h m ≡ none → lookup h (rest_of m) ≡ none
unfolding rest_of lookup
absent_rest_of h [] e = e
absent_rest_of h ((k, v) ∷ m) e = ground arith

make_room_found :
    (h : ℕ) (b : SyncBlock) (c : BlockCache)
    → IsInStep c
    → lookup h (make_room c).blocks ≡ some b
    → lookup h c.blocks ≡ some b
make_room_found h b c step =
    rw (make_room_lem c step) (elim (Bool-cases (ltb cache_size (length c.blocks))) [
      | inl full ↦ rw (full) (lookup-rest_of h b c.blocks step.is_map)
      | inr roomy ↦ rw (roomy) (λ e. e)
    ])

make_room_absent :
    (h : ℕ) (c : BlockCache)
    → IsInStep c
    → lookup h c.blocks ≡ none
    → lookup h (make_room c).blocks ≡ none
make_room_absent h c step =
    rw (make_room_lem c step) (elim (Bool-cases (ltb cache_size (length c.blocks))) [
      | inl full ↦ rw (full) (absent_rest_of h c.blocks)
      | inr roomy ↦ rw (roomy) (λ e. e)
    ])

put_absent :
    (b : SyncBlock) (c : BlockCache)
    → lookup b.header_hash c.blocks ≡ none
    → (put b c).blocks ≡ insert b.header_hash b c.blocks
unfolding put has
put_absent b c e = rw (e) refl

-- A block that the cache does not hold keeps the queue in step when it is added.
pub add-IsInStep :
    (b : SyncBlock) (c : BlockCache) → IsInStep c → get b.header_hash c ≡ none → IsInStep (add b c)
unfolding add get put
add-IsInStep b c step miss =
    let absent = make_room_absent b.header_hash c step miss in
    let room = make_room-HasRoom c step in
    let d = make_room c in
    record {
      is_map = rw (put_absent b d absent) (insert-IsMap b.header_hash b d.blocks room.is_map);
      listed = rw (put_absent b d absent) (
          keys-insert b.header_hash b d.blocks absent
          ∙ ap (λ hs. hs ++ b.header_hash ∷ []) room.listed);
      bounded =
          rw (put_absent b d absent)
            (ground (arith, length-insert b.header_hash b d.blocks, room.bounded));
    }

choose :
    (p : Bool) (b found : SyncBlock) (o : Option SyncBlock)
    → (if p then some b else o) ≡ some found
    → ((p ≡ true) × (b ≡ found)) ⊎ (o ≡ some found)
choose true b found o e = inl (refl, ground arith)
choose false b found o e = inr e

-- What the cache holds after a block was added: that block, or what it held before.
pub get-add :
    (h : ℕ) (b found : SyncBlock) (c : BlockCache)
    → IsInStep c
    → get b.header_hash c ≡ none
    → get h (add b c) ≡ some found
    → ((b.header_hash ≡ h) × (b ≡ found)) ⊎ (get h c ≡ some found)
unfolding add get
get-add h b found c step miss e =
    let d = make_room c in
    let absent = make_room_absent b.header_hash c step miss in
    let stored = ap (lookup h) (put_absent b d absent) ∙ lookup-insert b.header_hash h b d.blocks in
    elim (choose (b.header_hash == h) b found (lookup h d.blocks) (sym stored ∙ e)) [
      | inl (same, fits) ↦ inl ((==_iff b.header_hash h).0 same, fits)
      | inr held ↦ inr (make_room_found h found c step held)
    ]
