-- ===== src/Sync/Container/Bounds.antt =====
-- The sizes of the packets of blocks, and the blocks in them.
use lab_bcos.Base.{
  ℕ, ◌+◌, ◌≤◌, ◌≡◌, refl, ap, inl, inr, ◌⊎◌, Bool, true, false, List, [], ◌∷◌, ◌++◌, arith,
}
use lab_bcos.Base.Tests.{ltb, ◌==◌, Bool-cases}
use lab_bcos.Base.Lists.{length}
use lab_bcos.Sync.Blocks.{SyncBlock}
use lab_bcos.Sync.Container.{
  Container, max_payload, send_batch, clear_batch_and_send, send_big_block, add_to_batch,
  batch_and_send,
}

-- The size of the encodings of some blocks together.
unfoldable pub total_size : List SyncBlock → ℕ
total_size [] = 0
total_size (b ∷ bs) = b.rlp_size + total_size bs

total_size-append :
    (bs : List SyncBlock) (b : SyncBlock) → total_size (bs ++ b ∷ []) ≡ total_size bs + b.rlp_size
unfolding total_size
total_size-append [] b = omega arith
total_size-append (c ∷ cs) b = omega (arith, total_size-append cs b)

-- A packet that fits, or that holds one block.
abbrev pub Fits : List SyncBlock → Type 0
Fits packet = (total_size packet ≤ max_payload) ⊎ (length packet ≡ 1)

abbrev pub AllFit : List (List SyncBlock) → Type 0
AllFit [] = Unit
AllFit (packet ∷ packets) = Fits packet × AllFit packets

-- The batch's size is kept right and within the payload, and each packet sent fits.
pub record IsPacked (c : Container) : Type 0 where
  pub counted : c.current_batch_size ≡ total_size c.block_rlps_batch
  pub within : c.current_batch_size ≤ max_payload
  pub sent_fit : AllFit c.sent

send_batch-IsPacked :
    (c : Container) (bs : List SyncBlock)
    → c.block_rlps_batch ≡ bs
    → IsPacked c
    → IsPacked (send_batch c bs)
unfolding send_batch total_size
send_batch-IsPacked c [] e v = v
send_batch-IsPacked c (b ∷ bs) e v = record {
  counted = refl;
  within = omega arith;
  sent_fit = (inl (omega (arith, v.counted, v.within, ap total_size e)), v.sent_fit);
}

pub clear_batch_and_send-IsPacked : (c : Container) → IsPacked c → IsPacked (clear_batch_and_send c)
unfolding clear_batch_and_send
clear_batch_and_send-IsPacked c v = send_batch-IsPacked c c.block_rlps_batch refl v

send_batch_size :
    (c : Container) (bs : List SyncBlock)
    → c.block_rlps_batch ≡ bs
    → IsPacked c
    → (send_batch c bs).current_batch_size ≡ 0
unfolding send_batch total_size
send_batch_size c [] e v = rw e at v.counted
send_batch_size c (b ∷ bs) e v = refl

add_to_batch-IsPacked :
    (b : SyncBlock) (c : Container)
    → c.current_batch_size + b.rlp_size ≤ max_payload
    → IsPacked c
    → IsPacked (add_to_batch b c)
unfolding add_to_batch
add_to_batch-IsPacked b c h v = record {
  counted = omega (arith, v.counted, total_size-append c.block_rlps_batch b);
  within = h;
  sent_fit = v.sent_fit;
}

-- Batching a block keeps the count of the batch right and the batch within the payload, and every
-- packet that is sent is within the payload or holds a single block.
pub batch_and_send-IsPacked :
    (b : SyncBlock) (c : Container) → IsPacked c → IsPacked (batch_and_send b c)
unfolding batch_and_send send_big_block
batch_and_send-IsPacked b c v = elim (Bool-cases (ltb max_payload b.rlp_size)) [
  | inl big ↦
      rw big (record { counted = v.counted; within = v.within; sent_fit = (inr refl, v.sent_fit) })
  | inr small ↦ rw small (elim (Bool-cases (ltb max_payload (c.current_batch_size + b.rlp_size))) [
    | inl full ↦ rw full (
        add_to_batch-IsPacked b _
          (unfold clear_batch_and_send in
            rw (send_batch_size c c.block_rlps_batch refl v) (ground arith))
          (clear_batch_and_send-IsPacked c v))
    | inr room ↦ rw room (add_to_batch-IsPacked b c (ground arith) v)
  ])
]

abbrev pub bit : Bool → ℕ
bit true = 1
bit false = 0

-- How many of the blocks are at a height.
unfoldable pub count_at : List SyncBlock → ℕ → ℕ
count_at [] k = 0
count_at (b ∷ bs) k = bit (b.number == k) + count_at bs k

unfoldable pub sent_at : List (List SyncBlock) → ℕ → ℕ
sent_at [] k = 0
sent_at (packet ∷ packets) k = count_at packet k + sent_at packets k

-- How many blocks at a height the container has sent or holds.
unfoldable pub holds : Container → ℕ → ℕ
holds c k = sent_at c.sent k + count_at c.block_rlps_batch k

count_at-append :
    (bs : List SyncBlock) (b : SyncBlock) (k : ℕ)
    → count_at (bs ++ b ∷ []) k ≡ count_at bs k + bit (b.number == k)
unfolding count_at
count_at-append [] b k = omega arith
count_at-append (c ∷ cs) b k = omega (arith, count_at-append cs b k)

holds-send_batch :
    (c : Container) (bs : List SyncBlock) (k : ℕ)
    → c.block_rlps_batch ≡ bs
    → (holds (send_batch c bs) k ≡ holds c k) × ((send_batch c bs).block_rlps_batch ≡ [])
unfolding send_batch holds sent_at
holds-send_batch c [] k e = (refl, e)
holds-send_batch c (b ∷ bs) k e = (unfold count_at in rw e (omega arith), refl)

pub holds-clear :
    (c : Container) (k : ℕ)
    → (holds (clear_batch_and_send c) k ≡ holds c k)
      × ((clear_batch_and_send c).block_rlps_batch ≡ [])
unfolding clear_batch_and_send
holds-clear c k = holds-send_batch c c.block_rlps_batch k refl

holds-add_to_batch :
    (b : SyncBlock) (c : Container) (k : ℕ)
    → holds (add_to_batch b c) k ≡ holds c k + bit (b.number == k)
unfolding add_to_batch holds
holds-add_to_batch b c k = omega (arith, count_at-append c.block_rlps_batch b k)

pub holds-batch_and_send :
    (b : SyncBlock) (c : Container) (k : ℕ)
    → holds (batch_and_send b c) k ≡ holds c k + bit (b.number == k)
unfolding batch_and_send
holds-batch_and_send b c k = elim (Bool-cases (ltb max_payload b.rlp_size)) [
  | inl big ↦ rw big (unfold send_big_block holds sent_at count_at in omega arith)
  | inr small ↦ rw small (elim (Bool-cases (ltb max_payload (c.current_batch_size + b.rlp_size))) [
    | inl full ↦
        rw full
          (omega (arith, holds-add_to_batch b (clear_batch_and_send c) k, (holds-clear c k).0))
    | inr room ↦ rw room (holds-add_to_batch b c k)
  ])
]
