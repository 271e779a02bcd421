-- ===== src/Sync/Requests.antt =====
-- libsync/RspBlockReq.h and .cpp: the block requests of one peer that wait for an answer. Heights and
-- sizes are natural numbers.
pub mod Merge
use lab_bcos.Base.{ℕ, ◌+◌, ◌-◌, max, Bool, true, false, List, [], ◌∷◌}
use lab_bcos.Base.Tests.{ltb, leb, ◌==◌, if◌then◌else◌}
use lab_bcos.Base.Lists.{length}

pub record DownloadRequest : Type 0 where
  pub from_number : ℕ
  pub size : ℕ

-- `RequestQueueCmp` with its arguments in reverse: the first is served before the second.
unfoldable pub served_first : DownloadRequest → DownloadRequest → Bool
served_first a b =
    if a.from_number == b.from_number then ltb b.size a.size else ltb a.from_number b.from_number

-- `DownloadRequestQueue`: the priority queue as a list, its top first, and whether `x_canPush` is free.
pub record ReqQueue : Type 0 where
  pub reqs : List DownloadRequest
  pub can_push : Bool

unfoldable pub no_requests : ReqQueue
no_requests = record { reqs = []; can_push = true }

abbrev pub max_received_requests : ℕ
max_received_requests = 8

-- `m_reqQueue.push`; requests that neither serve first are the same.
unfoldable pub enlist : DownloadRequest → List DownloadRequest → List DownloadRequest
enlist r [] = r ∷ []
enlist r (q ∷ qs) = if served_first q r then q ∷ enlist r qs else r ∷ q ∷ qs

-- `push`.
unfoldable pub push : ℕ → ℕ → ReqQueue → ReqQueue
push from_number size q =
    if q.can_push
    then if leb max_received_requests (length q.reqs)
      then q
      else record q { reqs = enlist (record { from_number = from_number; size = size }) q.reqs }
    else q

-- The loop of `topAndPop`: what can be joined to the range so far is popped.
unfoldable pub join : ℕ → ℕ → List DownloadRequest → ℕ × List DownloadRequest
join start size [] = (size, [])
join start size (r ∷ rs) =
    let joined = join start (max size (r.from_number + r.size - start)) rs in
    if leb r.from_number (start + size) then joined else (size, r ∷ rs)

-- `topAndPop`, by what the queue holds.
unfoldable pub pop_tops : ReqQueue → List DownloadRequest → DownloadRequest × ReqQueue
pop_tops q [] = (record { from_number = 0; size = 0 }, q)
pop_tops q (r ∷ rs) =
    let (size, rest) = join r.from_number 0 (r ∷ rs) in
    (record { from_number = r.from_number; size = size }, record q { reqs = rest })

unfoldable pub top_and_pop : ReqQueue → DownloadRequest × ReqQueue
top_and_pop q = pop_tops q q.reqs

unfoldable pub no_reqs : List DownloadRequest → Bool
no_reqs [] = true
no_reqs (r ∷ rs) = false

-- `empty`.
unfoldable pub is_empty : ReqQueue → Bool
is_empty q = no_reqs q.reqs

unfoldable pub enable_push : ReqQueue → ReqQueue
enable_push q = record q { can_push = true }

unfoldable pub disable_push : ReqQueue → ReqQueue
disable_push q = record q { can_push = false }
