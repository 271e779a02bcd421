-- ===== src/BlockChain/Cache.antt =====
-- The class `BlockCache` of libblockchain/BlockChainImp.h and .cpp: the blocks that were read last.
pub mod Fifo
use lab_bcos.Base.{ℕ, ◌++◌, Option, List, [], ◌∷◌}
use lab_bcos.Base.Tests.{ltb, if◌then◌else◌}
use lab_bcos.Base.Lists.{length}
use lab_bcos.Base.Dict.{Dict, lookup, insert, has, erase}
use lab_bcos.Sync.Blocks.{SyncBlock}

pub record BlockCache : Type 0 where
  pub blocks : Dict SyncBlock
  pub fifo : List ℕ

abbrev pub cache_size : ℕ
cache_size = 10

unfoldable pub empty_cache : BlockCache
empty_cache = record { blocks = []; fifo = [] }

-- The removal of the first hash of the queue; the code takes the front of the queue unchecked, which
-- is undefined on an empty one, left as it is here.
unfoldable pub drop_front : Dict SyncBlock → List ℕ → BlockCache
drop_front blocks [] = record { blocks = blocks; fifo = [] }
drop_front blocks (h ∷ hs) = record { blocks = erase h blocks; fifo = hs }

-- The part of `add` that makes room.
unfoldable pub make_room : BlockCache → BlockCache
make_room c =
    let d = drop_front c.blocks c.fifo in
    if ltb cache_size (length c.blocks)
    then if ltb cache_size (length d.blocks) then empty_cache else d
    else c

-- `std::map::insert` keeps the block that is there.
unfoldable pub put : SyncBlock → BlockCache → BlockCache
put b c = record {
  blocks = if has b.header_hash c.blocks then c.blocks else insert b.header_hash b c.blocks;
  fifo = c.fifo ++ b.header_hash ∷ [];
}

-- `add`.
unfoldable pub add : SyncBlock → BlockCache → BlockCache
add b c = put b (make_room c)

-- `get`.
unfoldable pub get : ℕ → BlockCache → Option SyncBlock
get h c = lookup h c.blocks
