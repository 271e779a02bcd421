-- ===== src/Sync/Blocks/Laws.antt =====
-- The queue of fetched blocks: its order, what it holds, and its size.
use lab_bcos.Base.{
  ℕ, suc, ◌+◌, ◌≤◌, ◌<◌, ◌≡◌, refl, inl, inr, Option, none, some, List, [], ◌∷◌, arith,
}
use lab_bcos.Base.Tests.{ltb, leb, ◌==◌, Bool-cases}
use lab_bcos.Base.Lists.{length}
use lab_bcos.Sync.Blocks.{
  SyncBlock, Shard, BlockQueue, enqueue, is_newer_block, flush_shard, flush_shards,
  flush_buffer_to_queue, clear_full_queue_if_not_has, max_queue_size,
}

abbrev pub AllFrom : ℕ → List SyncBlock → Type 0
AllFrom number [] = Unit
AllFrom number (b ∷ bs) = (number ≤ b.number) × AllFrom number bs

-- The lowest block first.
abbrev pub IsOrdered : List SyncBlock → Type 0
IsOrdered [] = Unit
IsOrdered (b ∷ bs) = AllFrom b.number bs × IsOrdered bs

AllFrom-le : (m n : ℕ) (bs : List SyncBlock) → m ≤ n → AllFrom n bs → AllFrom m bs
AllFrom-le m n [] h f = tt
AllFrom-le m n (b ∷ bs) h f = (omega (arith, f.0), AllFrom-le m n bs h f.1)

enqueue-AllFrom :
    (n : ℕ) (b : SyncBlock) (bs : List SyncBlock)
    → n ≤ b.number
    → AllFrom n bs
    → AllFrom n (enqueue b bs)
unfolding enqueue
enqueue-AllFrom n b [] h f = (h, tt)
enqueue-AllFrom n b (c ∷ cs) h f = ground (arith, enqueue-AllFrom n b cs h f.1, f.0, f.1)

enqueue-IsOrdered : (b : SyncBlock) (bs : List SyncBlock) → IsOrdered bs → IsOrdered (enqueue b bs)
unfolding enqueue
enqueue-IsOrdered b [] o = (tt, tt)
enqueue-IsOrdered b (c ∷ cs) o = elim (Bool-cases (ltb b.number c.number)) [
  | inl e ↦ rw e ((ground arith, AllFrom-le _ _ cs (ground arith) o.0), o)
  | inr e ↦ rw e (enqueue-AllFrom _ b cs (ground arith) o.0, enqueue-IsOrdered b cs o.1)
]

length-enqueue : (b : SyncBlock) (bs : List SyncBlock) → length (enqueue b bs) ≡ suc (length bs)
unfolding enqueue
length-enqueue b [] = refl
length-enqueue b (c ∷ cs) = ground (arith, length-enqueue b cs)

-- Ordered blocks above a height, no more of them than a number.
pub record Queued (height limit : ℕ) (bs : List SyncBlock) : Type 0 where
  pub ordered : IsOrdered bs
  pub newer : AllFrom (suc height) bs
  pub counted : length bs ≤ limit

Queued-le : (height m n : ℕ) (bs : List SyncBlock) → m ≤ n → Queued height m bs → Queued height n bs
Queued-le height m n bs h v = record {
  ordered = v.ordered;
  newer = v.newer;
  counted = omega (arith, v.counted);
}

enqueue-Queued :
    (height limit : ℕ) (b : SyncBlock) (bs : List SyncBlock)
    → height < b.number
    → Queued height limit bs
    → Queued height (suc limit) (enqueue b bs)
enqueue-Queued height limit b bs h v = record {
  ordered = enqueue-IsOrdered b bs v.ordered;
  newer = enqueue-AllFrom (suc height) b bs h v.newer;
  counted = omega (arith, length-enqueue b bs, v.counted);
}

flush_shard-Queued :
    (height : ℕ) (items : Shard) (limit : ℕ) (bs : List SyncBlock)
    → Queued height limit bs
    → Queued height (limit + length items) (flush_shard (some height) items bs)
unfolding flush_shard is_newer_block
flush_shard-Queued height [] limit bs v = Queued-le height _ _ _ (omega arith) v
flush_shard-Queued height (none ∷ items) limit bs v =
    Queued-le height _ _ _ (omega arith) (flush_shard-Queued height items limit bs v)
flush_shard-Queued height (some b ∷ items) limit bs v = elim (Bool-cases (ltb height b.number)) [
  | inl e ↦ rw e (
      Queued-le height (suc limit + length items) _ _ (omega arith) (
        flush_shard-Queued height items (suc limit) (enqueue b bs)
          (enqueue-Queued height limit b bs (ground arith) v)))
  | inr e ↦ rw e (
      Queued-le height (limit + length items) _ _ (omega arith)
        (flush_shard-Queued height items limit bs v))
]

-- No packet of the buffer has more blocks than a number.
abbrev pub AllShort : ℕ → List Shard → Type 0
AllShort m [] = Unit
AllShort m (shard ∷ shards) = (length shard ≤ m) × AllShort m shards

flush_shards-Queued :
    (height m : ℕ) (shards : List Shard) (bs : List SyncBlock)
    → AllShort m shards
    → Queued height (max_queue_size + m) bs
    → Queued height (max_queue_size + m) (flush_shards (some height) shards bs)
unfolding flush_shards
flush_shards-Queued height m [] bs short v = v
flush_shards-Queued height m (shard ∷ shards) bs short v =
    elim (Bool-cases (leb max_queue_size (length bs))) [
      | inl full ↦ rw full v
      | inr room ↦ rw room (
          flush_shards-Queued height m shards _ short.1 (
            Queued-le height (max_queue_size + length shard) _ _ (omega (arith, short.0)) (
              flush_shard-Queued height shard max_queue_size bs
                (record { ordered = v.ordered; newer = v.newer; counted = ground arith }))))
    ]

-- Flushing the buffer keeps the queue in the order of the heights, with blocks above the chain's
-- height only, and, when no packet has more than `m` blocks, within `max_queue_size + m` blocks.
pub flush_buffer_to_queue-Queued :
    (height m : ℕ) (q : BlockQueue)
    → AllShort m q.buffer
    → Queued height (max_queue_size + m) q.blocks
    → Queued height (max_queue_size + m) (flush_buffer_to_queue (some height) q).blocks
unfolding flush_buffer_to_queue
flush_buffer_to_queue-Queued height m q short v =
    flush_shards-Queued height m q.buffer q.blocks short v

flush_shards_full :
    (height : Option ℕ) (shards : List Shard) (bs : List SyncBlock)
    → max_queue_size ≤ length bs
    → flush_shards height shards bs ≡ bs
unfolding flush_shards
flush_shards_full height [] bs full = refl
flush_shards_full height (shard ∷ shards) bs full = ground arith

-- A queue with more than `max_queue_size` blocks is neither emptied, whatever height is wanted, nor
-- added to: both steps of `maintainDownloadingQueueBuffer` leave its blocks as they are.
pub overfull_stuck :
    (number height : ℕ) (q : BlockQueue)
    → max_queue_size < length q.blocks
    → (flush_buffer_to_queue (some height) (clear_full_queue_if_not_has number q)).blocks ≡ q.blocks
unfolding flush_buffer_to_queue clear_full_queue_if_not_has
overfull_stuck number height q full = elim (Bool-cases (length q.blocks == max_queue_size)) [
  | inl e ↦ absurd (ground arith)
  | inr e ↦ rw e (flush_shards_full (some height) q.buffer q.blocks (omega arith))
]
