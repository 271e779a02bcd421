-- ===== src/Broadcast.antt =====
-- libconsensus/pbft/PBFTMsgCache.h: which message keys went to which node. Keys, node ids and
-- packet types are numbers.
pub mod Laws
use lab_bcos.Base.{ℕ, Bool, true, false, Option, none, some, [], ◌∷◌}
use lab_bcos.Base.Tests.{ltb, ◌==◌, if◌then◌else◌}
use lab_bcos.Base.Dict.{Dict, lookup, insert}
use lab_bcos.QueueSet
use lab_bcos.QueueSet.{QueueSet}

-- `PBFTPacketType`: the type of a packet by its number.
pub data PacketType : Type 0 where
  prepare sign commit view_change : PacketType

pub PacketType-discrete : Discrete PacketType
PacketType-discrete = hlevel

unfoldable pub packet_type : ℕ → Option PacketType
packet_type n =
    if n == 0
    then some prepare
    else if n == 1
    then some sign
    else if n == 2
    then some commit
    else if n == 3
    then some view_change
    else none

-- `PBFTMsgCache`: what one node is known to have.
pub record MsgCache : Type 0 where
  pub known_prepare : QueueSet
  pub known_sign : QueueSet
  pub known_commit : QueueSet
  pub known_view_change : QueueSet

unfoldable pub no_messages : MsgCache
no_messages = record {
  known_prepare = QueueSet.empty;
  known_sign = QueueSet.empty;
  known_commit = QueueSet.empty;
  known_view_change = QueueSet.empty;
}

-- `c_knownPrepare` and its three companions.
abbrev pub max_known : ℕ
max_known = 1024

-- The first half of `insertMessage`: the oldest key goes when the queue is over its limit.
unfoldable pub make_room : QueueSet → ℕ → QueueSet
make_room queue max_cache_size =
    if ltb max_cache_size (QueueSet.size queue) then (QueueSet.pop queue).0 else queue

unfoldable pub insert_message : QueueSet → ℕ → ℕ → QueueSet
insert_message queue max_cache_size key = (QueueSet.push (make_room queue max_cache_size) key).0

-- The queue of a packet type, and the cache with that queue replaced.
abbrev pub known : PacketType → MsgCache → QueueSet
known prepare c = c.known_prepare
known sign c = c.known_sign
known commit c = c.known_commit
known view_change c = c.known_view_change

abbrev pub set_known : PacketType → QueueSet → MsgCache → MsgCache
set_known prepare q c = record c { known_prepare = q }
set_known sign q c = record c { known_sign = q }
set_known commit q c = record c { known_commit = q }
set_known view_change q c = record c { known_view_change = q }

-- `insertByPacketType`.
unfoldable pub insert_by_packet_type : MsgCache → ℕ → ℕ → MsgCache × Bool
insert_by_packet_type c type key = elim (packet_type type) [
  | none ↦ (c, false)
  | some t ↦ (set_known t (insert_message (known t c) max_known key) c, true)
]

-- `PBFTMsgCache::exists`.
unfoldable pub exists : MsgCache → ℕ → ℕ → Bool
exists c type key = elim (packet_type type) [
  | none ↦ false
  | some t ↦ QueueSet.exist (known t c) key
]

-- `PBFTMsgCache::clearAll`: every queue is emptied.
unfoldable pub clear_messages : MsgCache → MsgCache
clear_messages c = record {
  known_prepare = QueueSet.empty;
  known_sign = QueueSet.empty;
  known_commit = QueueSet.empty;
  known_view_change = QueueSet.empty;
}

-- `PBFTBroadcastCache`: the cache of each node.
abbrev pub BroadcastCache : Type 0
BroadcastCache = Dict MsgCache

-- `m_broadCastKeyCache[nodeId]`, made if it is not there.
abbrev pub or_new : Option MsgCache → MsgCache
or_new none = no_messages
or_new (some c) = c

unfoldable pub insert_key : BroadcastCache → ℕ → ℕ → ℕ → BroadcastCache × Bool
insert_key m node type key =
    let (c, done) = insert_by_packet_type (or_new (lookup node m)) type key in
    (insert node c m, done)

abbrev pub exists_in : Option MsgCache → ℕ → ℕ → Bool
exists_in none type key = false
exists_in (some c) type key = exists c type key

unfoldable pub key_exists : BroadcastCache → ℕ → ℕ → ℕ → Bool
key_exists m node type key = exists_in (lookup node m) type key

-- `PBFTBroadcastCache::clearAll`: each node keeps an entry, with nothing in it.
unfoldable pub clear_all : BroadcastCache → BroadcastCache
clear_all [] = []
clear_all ((node, c) ∷ m) = (node, clear_messages c) ∷ clear_all m

-- `PBFTEngine::broadcastMark`: no key is inserted twice.
unfoldable pub broadcast_mark : BroadcastCache → ℕ → ℕ → ℕ → BroadcastCache
broadcast_mark m node type key =
    if key_exists m node type key then m else (insert_key m node type key).0
