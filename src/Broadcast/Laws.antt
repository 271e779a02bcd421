-- ===== src/Broadcast/Laws.antt =====
-- What the broadcast cache remembers, and how much.
use lab_bcos.Base.{
  ℕ, zero, suc, ◌≢◌, ◌+◌, ◌≤◌, ◌≡◌, refl, sym, ap, ◌∙◌, true, false, ◌&&◌, Option, none, some,
  arith, [], ◌∷◌, inl, inr,
}
use lab_bcos.Base.Tests.{ltb, ◌==◌, ==_iff, ==_refl, ltb→lt, Bool-cases}
use lab_bcos.Base.Lists.{contains}
use lab_bcos.Base.Dict.{lookup, insert, lookup-insert}
use lab_bcos.QueueSet
use lab_bcos.QueueSet.{QueueSet}
use lab_bcos.QueueSet.Laws.{
  IsConsistent, empty-IsConsistent, push-IsConsistent, pop-IsConsistent, exist-push, size-push,
  size-pop,
}
use lab_bcos.Broadcast.{
  MsgCache, BroadcastCache, PacketType, prepare, sign, commit, view_change, packet_type, exists_in,
  or_new, make_room, PacketType-discrete, insert_message, max_known, known, set_known,
  insert_by_packet_type, exists, insert_key, key_exists, broadcast_mark, no_messages,
}

-- A queue whose set and order agree, within one item of the limit.
pub record IsBounded (n : ℕ) (q : QueueSet) : Type 0 where
  pub consistent : IsConsistent q
  pub limited : QueueSet.size q ≤ n + 1

make_room-le :
    (q : QueueSet) (n : ℕ)
    → IsBounded n q
    → IsConsistent (make_room q n) × (QueueSet.size (make_room q n) ≤ n)
unfolding make_room
make_room-le q n b = elim (Bool-cases (ltb n (QueueSet.size q))) [
  | inl full ↦ rw full (
    pop-IsConsistent q b.consistent,
    omega (arith, size-pop q b.consistent, b.limited, ltb→lt _ _ full),
  )
  | inr room ↦ rw room (b.consistent, ground arith)
]

-- Storing a key keeps a queue, whose set and order agree, in step and within one item of its limit.
pub insert_message-IsBounded :
    (q : QueueSet) (n key : ℕ) → IsBounded n q → IsBounded n (insert_message q n key)
unfolding insert_message
insert_message-IsBounded q n key b = record {
  consistent = push-IsConsistent (make_room q n) key (make_room-le q n b).0;
  limited = ground (arith, size-push (make_room q n) key, (make_room-le q n b).1);
}

pub exist-insert_message :
    (q : QueueSet) (n key : ℕ) → QueueSet.exist (insert_message q n key) key ≡ true
unfolding insert_message
exist-insert_message q n key = ground (arith, exist-push (make_room q n) key key)

known-set_known : (t : PacketType) (q : QueueSet) (c : MsgCache) → known t (set_known t q c) ≡ q
known-set_known prepare q c = refl
known-set_known sign q c = refl
known-set_known commit q c = refl
known-set_known view_change q c = refl

packet_type_valid : (n : ℕ) → n ≤ 3 → (t : PacketType) × (packet_type n ≡ some t)
unfolding packet_type
packet_type_valid zero h = (prepare, refl)
packet_type_valid (suc zero) h = (sign, refl)
packet_type_valid (suc (suc zero)) h = (commit, refl)
packet_type_valid (suc (suc (suc zero))) h = (view_change, refl)
packet_type_valid (suc (suc (suc (suc n)))) h = absurd (omega arith)

insert_by_packet_type_valid :
    (c : MsgCache) (type key : ℕ) (t : PacketType)
    → packet_type type ≡ some t
    → insert_by_packet_type c type key
      ≡ (set_known t (insert_message (known t c) max_known key) c, true)
unfolding insert_by_packet_type
insert_by_packet_type_valid c type key t e = rw (e, insert_by_packet_type)

exists-insert_by_packet_type :
    (c : MsgCache) (type key : ℕ)
    → type ≤ 3
    → exists (insert_by_packet_type c type key).0 type key ≡ true
unfolding exists
exists-insert_by_packet_type c type key h = stored (packet_type_valid type h)
  where
    stored :
        (t : PacketType) × (packet_type type ≡ some t)
        → exists (insert_by_packet_type c type key).0 type key ≡ true
    stored (t, e) =
        rw (insert_by_packet_type_valid c type key t e)
          (rw (e, exists) (rw known-set_known (exist-insert_message (known t c) max_known key)))

-- A key that was stored for a node is found for it, if its packet type is one of the four.
pub key_exists-insert_key :
    (m : BroadcastCache) (node type key : ℕ)
    → type ≤ 3
    → key_exists (insert_key m node type key).0 node type key ≡ true
unfolding key_exists insert_key
key_exists-insert_key m node type key h =
    rw (lookup-insert, ==_refl) (exists-insert_by_packet_type _ type key h)

known-set_known_ne :
    (t u : PacketType) (q : QueueSet) (c : MsgCache) → t ≢ u → known u (set_known t q c) ≡ known u c
known-set_known_ne t u q c h = ground arith

packet_type-injective :
    (m n : ℕ) (t : PacketType) → packet_type m ≡ some t → packet_type n ≡ some t → m ≡ n
unfolding packet_type
packet_type-injective m n t p q = ground arith

exists-insert_by_packet_type_ne :
    (c : MsgCache) (type key type' key' : ℕ)
    → type ≢ type'
    → exists (insert_by_packet_type c type key).0 type' key' ≡ exists c type' key'
unfolding exists
exists-insert_by_packet_type_ne c type key type' key' h =
    go (packet_type type) (packet_type type') refl refl
  where
    go :
        (o p : Option PacketType)
        → packet_type type ≡ o
        → packet_type type' ≡ p
        → exists (insert_by_packet_type c type key).0 type' key' ≡ exists c type' key'
    go o none e f = rw (f, exists)
    go none (some u) e f = unfold insert_by_packet_type in rw (e, insert_by_packet_type)
    go (some t) (some u) e f = rw (insert_by_packet_type_valid c type key t e) (
        rw (f, exists)
          (rw (
            known-set_known_ne t u _ c
              (λ s. h (packet_type-injective type type' t e (f ∙ ap some (sym s)))))))

exists_in-or_new :
    (o : Option MsgCache) (type key : ℕ) → exists_in o type key ≡ exists (or_new o) type key
unfolding exists packet_type no_messages QueueSet.exist QueueSet.empty
exists_in-or_new none type key = unfold contains in ground arith
exists_in-or_new (some c) type key = refl

-- Storing a key for a node and a packet type changes nothing of what is known to another node or
-- of another packet type.
pub key_exists-insert_key_ne :
    (m : BroadcastCache) (node type key node' type' key' : ℕ)
    → (node == node' && type == type') ≡ false
    → key_exists (insert_key m node type key).0 node' type' key' ≡ key_exists m node' type' key'
unfolding key_exists insert_key
key_exists-insert_key_ne m node type key node' type' key' h = elim (Bool-cases (node == node')) [
  | inl same ↦
      rw (lookup-insert, same)
        (exists-insert_by_packet_type_ne _ type key type' key' (ground arith)
          ∙ sym (exists_in-or_new (lookup node m) type' key')
          ∙ ap (λ k. exists_in (lookup k m) type' key') ((==_iff node node').0 same))
  | inr other ↦ rw (lookup-insert, other)
]

-- Each of the four queues of a node is in step and within one key of `max_known`.
abbrev pub AllBounded : MsgCache → Type 0
AllBounded c = (t : PacketType) → IsBounded max_known (known t c)

-- Every queue of every node.
abbrev pub IsValid : BroadcastCache → Type 0
IsValid [] = Unit
IsValid ((node, c) ∷ m) = AllBounded c × IsValid m

empty-IsBounded : (n : ℕ) → IsBounded n QueueSet.empty
unfolding QueueSet.empty QueueSet.size
empty-IsBounded n = record { consistent = empty-IsConsistent; limited = omega arith }

or_new-AllBounded :
    (node : ℕ) (m : BroadcastCache) → IsValid m → AllBounded (or_new (lookup node m))
unfolding lookup no_messages
or_new-AllBounded node [] v prepare = empty-IsBounded max_known
or_new-AllBounded node [] v sign = empty-IsBounded max_known
or_new-AllBounded node [] v commit = empty-IsBounded max_known
or_new-AllBounded node [] v view_change = empty-IsBounded max_known
or_new-AllBounded node ((i, c) ∷ m) v t = elim (Bool-cases (i == node)) [
  | inl e ↦ rw e (v.0 t)
  | inr e ↦ rw e (or_new-AllBounded node m v.1 t)
]

insert_by_packet_type-AllBounded :
    (c : MsgCache) (type key : ℕ) → AllBounded c → AllBounded (insert_by_packet_type c type key).0
insert_by_packet_type-AllBounded c type key b u = go (packet_type type) refl
  where
    go :
        (o : Option PacketType)
        → packet_type type ≡ o
        → IsBounded max_known (known u (insert_by_packet_type c type key).0)
    go none e = unfold insert_by_packet_type in rw (e, insert_by_packet_type) (b u)
    go (some t) e =
        rw (insert_by_packet_type_valid c type key t e) (elim (PacketType-discrete t u) [
          | yes s ↦ rw (← s) (rw known-set_known (insert_message-IsBounded _ max_known key (b t)))
          | no s ↦ rw (known-set_known_ne t u _ c s) (b u)
        ])

insert-IsValid :
    (node : ℕ) (c : MsgCache) (m : BroadcastCache)
    → AllBounded c
    → IsValid m
    → IsValid (insert node c m)
unfolding insert
insert-IsValid node c [] b v = (b, tt)
insert-IsValid node c ((i, d) ∷ m) b v = elim (Bool-cases (i == node)) [
  | inl e ↦ rw e (b, v.1)
  | inr e ↦ rw e (v.0, insert-IsValid node c m b v.1)
]

-- Marking a message of one of the four packet types as sent to a node keeps every queue in step and
-- within `max_known + 1` keys, and the message is known to the node afterwards.
pub broadcast_mark_lem :
    (m : BroadcastCache) (node type key : ℕ)
    → type ≤ 3
    → IsValid m
    → IsValid (broadcast_mark m node type key)
      × (key_exists (broadcast_mark m node type key) node type key ≡ true)
unfolding broadcast_mark
broadcast_mark_lem m node type key h v = elim (Bool-cases (key_exists m node type key)) [
  | inl old ↦ rw old (v, old)
  | inr new ↦ rw new (
    unfold insert_key in
        insert-IsValid node _ m
          (insert_by_packet_type-AllBounded _ type key (or_new-AllBounded node m v)) v,
    key_exists-insert_key m node type key h,
  )
]
