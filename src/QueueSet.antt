-- ===== src/QueueSet.antt =====
-- `QueueSet` of libdevcore/Common.h: a queue that holds each item once, with a hash set beside it.
-- A method that changes the object returns the new record beside its result.
pub mod Laws
use lab_bcos.Base.{ℕ, Bool, true, false, List, [], ◌∷◌, ◌++◌}
use lab_bcos.Base.Tests.{if◌then◌else◌}
use lab_bcos.Base.Lists.{length, contains, remove}

-- The queue's front is the list's head.
pub record QueueSet : Type 0 where
  pub items : List ℕ
  pub queue : List ℕ

unfoldable pub empty : QueueSet
empty = record { items = []; queue = [] }

unfoldable pub exist : QueueSet → ℕ → Bool
exist q t = contains q.items t

unfoldable pub size : QueueSet → ℕ
size q = length q.items

unfoldable pub push : QueueSet → ℕ → QueueSet × Bool
push q t =
    if contains q.items t
    then (q, false)
    else (record { items = t ∷ q.items; queue = q.queue ++ t ∷ [] }, true)

unfoldable pub pop_front : QueueSet → List ℕ → QueueSet × Bool
pop_front q [] = (q, false)
pop_front q (t ∷ rest) = (record { items = remove t q.items; queue = rest }, true)

unfoldable pub pop : QueueSet → QueueSet × Bool
pop q = pop_front q q.queue
