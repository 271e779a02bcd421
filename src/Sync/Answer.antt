-- ===== src/Sync/Answer.antt =====
-- `SyncMaster::maintainBlockRequest` of libsync/SyncMaster.cpp, for the peer that it selects. The
-- chain's blocks by height, and whether each reading of the clock is in time, are arguments.
pub mod Complete
use lab_bcos.Base.{ℕ, zero, suc, ◌+◌, ◌-◌, Bool, Option, none, some, List, []}
use lab_bcos.Base.Tests.{ltb, ◌==◌, if◌then◌else◌}
use lab_bcos.Base.Lists.{length}
use lab_bcos.Sync.Requests.{ReqQueue, push, top_and_pop, is_empty, enable_push, disable_push}
use lab_bcos.Sync.Blocks.{SyncBlock}
use lab_bcos.Sync.Container.{Container, new_container, clear_batch_and_send, batch_and_send}

-- The height that was reached, the container, and the number of readings of the clock so far.
abbrev pub Progress : Type 0
Progress = ℕ × (Container × ℕ)

-- The body of the loop over a request: a missing block or a wrong one ends it.
unfoldable pub send_found : Option SyncBlock → ℕ → Container → ℕ → (SyncBlock → Progress) → Progress
send_found none number c tick next = (number, (c, tick))
send_found (some b) number c tick next = if b.number == number then next b else (number, (c, tick))

-- The loop over the blocks of a request.
unfoldable pub send_range : (ℕ → Option SyncBlock) → (ℕ → Bool) → ℕ → ℕ → Container → ℕ → Progress
send_range block_at in_time zero number c tick = (number, (c, tick))
send_range block_at in_time (suc count) number c tick =
    let sent =
      send_found (block_at number) number c (suc tick)
        (λ b. send_range block_at in_time count (suc number) (batch_and_send b c) (suc tick)) in
    if in_time tick then sent else (number, (c, suc tick))

-- The loop over the requests. Each round takes one from the queue or ends it, so that a round for
-- each request and one more are enough.
unfoldable pub respond :
    (ℕ → Option SyncBlock) → (ℕ → Bool) → ℕ → ReqQueue → Container → ℕ → ReqQueue × Container
respond block_at in_time zero q c tick = (q, c)
respond block_at in_time (suc fuel) q c tick =
    let (req, rest) = top_and_pop q in
    let limit = req.from_number + req.size in
    let (number, (c', tick')) = send_range block_at in_time req.size req.from_number c (suc tick) in
    let next = respond block_at in_time fuel rest c' tick' in
    if is_empty q
    then (enable_push q, c)
    else if in_time tick
    then if ltb number limit then (push number (limit - number) (enable_push rest), c') else next
    else (enable_push q, c)

-- The answer to one peer: the queue after it, and the packets that were sent, newest first.
unfoldable pub answer_peer :
    (ℕ → Option SyncBlock) → (ℕ → Bool) → ReqQueue → ReqQueue × List (List SyncBlock)
answer_peer block_at in_time q =
    let (rest, c) =
      respond block_at in_time (suc (length q.reqs)) (disable_push q) new_container 0 in
    (rest, (clear_batch_and_send c).sent)
