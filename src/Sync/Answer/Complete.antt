-- ===== src/Sync/Answer/Complete.antt =====
-- Each block that a peer asks for is sent once or stays asked for.
use lab_bcos.Base.{
  ℕ, zero, suc, ◌+◌, ◌-◌, ◌≤◌, ◌<◌, ◌≡◌, refl, ◌∙◌, ap, inl, inr, Bool, true, false, ◌||◌, Option,
  some, List, [], ◌∷◌, arith,
}
use lab_bcos.Base.Tests.{ltb, leb, ◌==◌, Bool-cases, Option-cases}
use lab_bcos.Base.Lists.{length}
use lab_bcos.Sync.Requests.{
  DownloadRequest, ReqQueue, push, top_and_pop, is_empty, no_reqs, enable_push, disable_push,
  max_received_requests,
}
use lab_bcos.Sync.Requests.Merge.{
  asks_for, asked, AllAbove, IsOrdered, asked-enlist, range, top_and_pop_lem,
}
use lab_bcos.Sync.Blocks.{SyncBlock}
use lab_bcos.Sync.Container.{Container, new_container, clear_batch_and_send, batch_and_send}
use lab_bcos.Sync.Container.Bounds.{
  bit, count_at, sent_at, holds, holds-clear, holds-batch_and_send,
}
use lab_bcos.Sync.Answer.{Progress, send_found, send_range, respond, answer_peer}

-- What one pass over a request did: it reached a height, and the blocks below it were batched.
record Advanced (start count : ℕ) (c : Container) (r : Progress) : Type 0 where
  low : start ≤ r.0
  high : r.0 ≤ start + count
  batched : (k : ℕ) → holds r.1.0 k ≡ holds c k + bit (asks_for (range start (r.0 - start)) k)

stays : (start count : ℕ) (c : Container) (tick : ℕ) → Advanced start count c (start, (c, tick))
stays start count c tick = record {
  low = omega arith;
  high = omega arith;
  batched = λ k. unfold asks_for in ground arith;
}

goes_on :
    (start count : ℕ) (b : SyncBlock) (c : Container) (r : Progress)
    → (b.number == start) ≡ true
    → Advanced (suc start) count (batch_and_send b c) r
    → Advanced start (suc count) c r
goes_on start count b c r e v = record {
  low = omega (arith, v.low);
  high = omega (arith, v.high);
  batched = λ k. unfold asks_for in ground (arith, v.batched k, holds-batch_and_send b c k, v.low);
}

send_range-Advanced :
    (block_at : ℕ → Option SyncBlock) (in_time : ℕ → Bool) (count start : ℕ) (c : Container)
    (tick : ℕ)
    → Advanced start count c (send_range block_at in_time count start c tick)
unfolding send_range send_found
send_range-Advanced block_at in_time zero start c tick = stays start 0 c tick
send_range-Advanced block_at in_time (suc count) start c tick = elim (Bool-cases (in_time tick)) [
  | inr late ↦ rw late (stays start (suc count) c (suc tick))
  | inl early ↦ rw early (elim (Option-cases (block_at start)) [
    | inl e ↦ rw (e, send_found) (stays start (suc count) c (suc tick))
    | inr (b, e) ↦
        rw (e, send_found)
          (elim (Bool-cases (b.number == start)) [
            | inl f ↦ rw f (
                goes_on start count b c _ f (
                  send_range-Advanced block_at in_time count (suc start) (batch_and_send b c)
                    (suc tick)))
            | inr f ↦ rw f (stays start (suc count) c (suc tick))
          ])
  ])
]

asked_below : (m k : ℕ) (rs : List DownloadRequest) → AllAbove m rs → k < m → asked rs k ≡ false
unfolding asked asks_for
asked_below m k [] h l = refl
asked_below m k (r ∷ rs) h l = ground (arith, asked_below m k rs h.1 l, h.0)

not_empty : (rs : List DownloadRequest) → no_reqs rs ≡ false → 1 ≤ length rs
unfolding no_reqs
not_empty [] e = absurd (ground arith)
not_empty (r ∷ rs) e = omega arith

-- A range that was sent up to a height, with what is left of it asked for again or not.
sent_part :
    (from_number size number k : ℕ) (rest : List DownloadRequest)
    → from_number ≤ number
    → number ≤ from_number + size
    → AllAbove (suc (from_number + size)) rest
    → bit (asks_for (range from_number (number - from_number)) k)
        + bit (asks_for (range number (from_number + size - number)) k || asked rest k)
      ≡ bit (asks_for (range from_number size) k || asked rest k)
unfolding asks_for
sent_part from_number size number k rest l h apart =
    elim (Bool-cases (ltb k (suc (from_number + size)))) [
      | inl e ↦ ground (arith, asked_below _ k rest apart (ground arith))
      | inr e ↦ ground arith
    ]

-- The same with nothing left of the range.
whole_done :
    (number from_number size k : ℕ) (rest : List DownloadRequest)
    → ltb number (from_number + size) ≡ false
    → bit (asks_for (range from_number (number - from_number)) k)
        + bit (asks_for (range number (from_number + size - number)) k || asked rest k)
      ≡ bit (asks_for (range from_number size) k || asked rest k)
    → bit (asks_for (range from_number (number - from_number)) k) + bit (asked rest k)
      ≡ bit (asks_for (range from_number size) k || asked rest k)
unfolding asks_for
whole_done number from_number size k rest e h = ground arith

pushed_back :
    (number count k : ℕ) (q : ReqQueue)
    → length q.reqs < max_received_requests
    → asked (push number count (enable_push q)).reqs k
      ≡ (asks_for (range number count) k || asked q.reqs k)
unfolding push enable_push
pushed_back number count k q h = elim (Bool-cases (leb max_received_requests (length q.reqs))) [
  | inl full ↦ absurd (ground arith)
  | inr room ↦ rw room (asked-enlist (range number count) q.reqs k)
]

respond-keeps :
    (block_at : ℕ → Option SyncBlock) (in_time : ℕ → Bool) (fuel : ℕ) (q : ReqQueue) (c : Container)
    (tick k : ℕ)
    → length q.reqs < fuel
    → length q.reqs ≤ max_received_requests
    → IsOrdered q.reqs
    → holds (respond block_at in_time fuel q c tick).1 k
        + bit (asked (respond block_at in_time fuel q c tick).0.reqs k)
      ≡ holds c k + bit (asked q.reqs k)
unfolding respond enable_push is_empty
respond-keeps block_at in_time zero q c tick k f l o = absurd (omega arith)
respond-keeps block_at in_time (suc fuel) q c tick k f l o = elim (Bool-cases (no_reqs q.reqs)) [
  | inl none_left ↦ rw none_left refl
  | inr some_left ↦ rw some_left (elim (Bool-cases (in_time tick)) [
    | inr late ↦ rw late refl
    | inl early ↦ rw early (
        let req = (top_and_pop q).0 in
        let rest = (top_and_pop q).1 in
        let popped = top_and_pop_lem q o in
        let part = send_range-Advanced block_at in_time req.size req.from_number c (suc tick) in
        let r = send_range block_at in_time req.size req.from_number c (suc tick) in
        let whole =
          sent_part req.from_number req.size r.0 k rest.reqs part.low part.high popped.apart in
        let some_req = not_empty q.reqs some_left in
        elim (Bool-cases (ltb r.0 (req.from_number + req.size))) [
          | inl cut ↦ rw cut (
              omega (
                arith,
                part.batched k,
                whole,
                ap bit (
                    pushed_back r.0 (req.from_number + req.size - r.0) k rest
                      (omega (arith, popped.shorter, some_req))),
                ap bit (popped.same_blocks k),
              ))
          | inr done ↦ rw done (
              omega (
                arith,
                respond-keeps block_at in_time fuel rest r.1.0 r.1.1 k
                    (omega (arith, popped.shorter, some_req))
                    (omega (arith, popped.shorter, some_req)) popped.ordered,
                part.batched k,
                whole_done r.0 req.from_number req.size k rest.reqs (ground arith) whole,
                ap bit (popped.same_blocks k),
              ))
        ])
  ])
]

-- What the destructor leaves: every block that was held is sent.
flushed : (c : Container) (k : ℕ) → sent_at (clear_batch_and_send c).sent k ≡ holds c k
unfolding holds count_at
flushed c k = omega (arith, (holds-clear c k).0, ap (λ bs. count_at bs k) (holds-clear c k).1)

nothing_held : (k : ℕ) → holds new_container k ≡ 0
unfolding holds new_container sent_at count_at
nothing_held k = refl

-- Whatever the clock says and whatever blocks the chain has, an answer sends each block that was
-- asked for just once or leaves it asked for, and sends no other block, if the requests were in
-- order and no more than `push` lets in.
pub answer_peer-keeps :
    (block_at : ℕ → Option SyncBlock) (in_time : ℕ → Bool) (q : ReqQueue) (k : ℕ)
    → length q.reqs ≤ max_received_requests
    → IsOrdered q.reqs
    → sent_at (answer_peer block_at in_time q).1 k
        + bit (asked (answer_peer block_at in_time q).0.reqs k)
      ≡ bit (asked q.reqs k)
unfolding answer_peer disable_push
answer_peer-keeps block_at in_time q k l o = omega (
  arith,
  respond-keeps block_at in_time (suc (length q.reqs)) (record q { can_push = false }) new_container
      0 k (omega arith) l o,
  flushed
      (respond block_at in_time (suc (length q.reqs)) (record q { can_push = false }) new_container
        0).1
      k,
  nothing_held k,
)

-- The chain has the block at a height.
abbrev pub Here : (ℕ → Option SyncBlock) → ℕ → Type 0
Here block_at k = (b : SyncBlock) × (block_at k ≡ some b) × ((b.number == k) ≡ true)

send_range-all :
    (block_at : ℕ → Option SyncBlock) (in_time : ℕ → Bool) (count start : ℕ) (c : Container)
    (tick : ℕ)
    → ((t : ℕ) → in_time t ≡ true)
    → ((k : ℕ) → start ≤ k → k < start + count → Here block_at k)
    → (send_range block_at in_time count start c tick).0 ≡ start + count
unfolding send_range send_found
send_range-all block_at in_time zero start c tick early here = omega arith
send_range-all block_at in_time (suc count) start c tick early here =
    let (b, e, f) = here start (omega arith) (omega arith) in
    rw (early tick) (
      rw e (
        rw f (
          send_range-all block_at in_time count (suc start) (batch_and_send b c) (suc tick) early
            (λ k l u. here k (omega arith) (omega arith))
          ∙ omega arith)))

asks_for-true :
    (r : DownloadRequest) (k : ℕ)
    → r.from_number ≤ k
    → k < r.from_number + r.size
    → asks_for r k ≡ true
unfolding asks_for
asks_for-true r k l u = ground arith

no_reqs-nil : (rs : List DownloadRequest) → no_reqs rs ≡ true → rs ≡ []
unfolding no_reqs
no_reqs-nil [] e = refl
no_reqs-nil (r ∷ rs) e = absurd (ground arith)

respond-all :
    (block_at : ℕ → Option SyncBlock) (in_time : ℕ → Bool) (fuel : ℕ) (q : ReqQueue) (c : Container)
    (tick : ℕ)
    → length q.reqs < fuel
    → IsOrdered q.reqs
    → ((t : ℕ) → in_time t ≡ true)
    → ((k : ℕ) → asked q.reqs k ≡ true → Here block_at k)
    → (respond block_at in_time fuel q c tick).0.reqs ≡ []
unfolding respond enable_push is_empty
respond-all block_at in_time zero q c tick f o early here = absurd (omega arith)
respond-all block_at in_time (suc fuel) q c tick f o early here =
    elim (Bool-cases (no_reqs q.reqs)) [
      | inl none_left ↦ rw none_left (no_reqs-nil q.reqs none_left)
      | inr some_left ↦
          rw (some_left, early tick)
            (let req = (top_and_pop q).0 in
              let rest = (top_and_pop q).1 in
              let popped = top_and_pop_lem q o in
              let r = send_range block_at in_time req.size req.from_number c (suc tick) in
              let full =
                send_range-all block_at in_time req.size req.from_number c (suc tick) early
                  (λ k l u. here k (popped.same_blocks k ∙ rw (asks_for-true req k l u) refl)) in
              rw (not_cut r.0 _ full) (
                respond-all block_at in_time fuel rest r.1.0 r.1.1
                  (omega (arith, popped.shorter, not_empty q.reqs some_left)) popped.ordered early
                  (λ k a. here k (popped.same_blocks k ∙ or_true _ _ a))))
    ]
  where
    not_cut : (m n : ℕ) → m ≡ n → ltb m n ≡ false
    not_cut m n e = ground arith

    or_true : (a b : Bool) → b ≡ true → (a || b) ≡ true
    or_true a b e = ground arith

-- When the clock is always in time and the chain has every block that is asked for, an answer empties
-- the queue and sends each block that was asked for once, and no other.
pub answer_peer-all :
    (block_at : ℕ → Option SyncBlock) (in_time : ℕ → Bool) (q : ReqQueue) (k : ℕ)
    → length q.reqs ≤ max_received_requests
    → IsOrdered q.reqs
    → ((t : ℕ) → in_time t ≡ true)
    → ((j : ℕ) → asked q.reqs j ≡ true → Here block_at j)
    → ((answer_peer block_at in_time q).0.reqs ≡ [])
      × (sent_at (answer_peer block_at in_time q).1 k ≡ bit (asked q.reqs k))
unfolding answer_peer disable_push asked
answer_peer-all block_at in_time q k l o early here =
    let gone =
      respond-all block_at in_time (suc (length q.reqs)) (record q { can_push = false })
        new_container 0 (omega arith) o early here in
    (
      gone,
      omega (arith, answer_peer-keeps block_at in_time q k l o, ap (λ rs. bit (asked rs k)) gone),
    )
