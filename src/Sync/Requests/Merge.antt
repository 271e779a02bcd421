-- ===== src/Sync/Requests/Merge.antt =====
-- Joining requests: no block that was asked for is lost, and none is added.
use lab_bcos.Base.{
  ℕ, suc, ◌+◌, ◌-◌, ◌≤◌, max, ◌≡◌, refl, inl, inr, Bool, false, ◌&&◌, ◌||◌, List, [], ◌∷◌, arith,
}
use lab_bcos.Base.Tests.{ltb, leb, Bool-cases}
use lab_bcos.Base.Lists.{length}
use lab_bcos.Sync.Requests.{
  DownloadRequest, ReqQueue, served_first, enlist, join, pop_tops, top_and_pop,
}

-- Is a height in the range of a request?
unfoldable pub asks_for : DownloadRequest → ℕ → Bool
asks_for r k = leb r.from_number k && ltb k (r.from_number + r.size)

unfoldable pub asked : List DownloadRequest → ℕ → Bool
asked [] k = false
asked (r ∷ rs) k = asks_for r k || asked rs k

-- Each request starts at a height or above.
abbrev pub AllAbove : ℕ → List DownloadRequest → Type 0
AllAbove start [] = Unit
AllAbove start (r ∷ rs) = (start ≤ r.from_number) × AllAbove start rs

abbrev pub IsOrdered : List DownloadRequest → Type 0
IsOrdered [] = Unit
IsOrdered (r ∷ rs) = AllAbove r.from_number rs × IsOrdered rs

AllAbove-le : (a b : ℕ) (rs : List DownloadRequest) → a ≤ b → AllAbove b rs → AllAbove a rs
AllAbove-le a b [] h f = tt
AllAbove-le a b (r ∷ rs) h f = (omega (arith, f.0), AllAbove-le a b rs h f.1)

enlist-AllAbove :
    (a : ℕ) (r : DownloadRequest) (rs : List DownloadRequest)
    → a ≤ r.from_number
    → AllAbove a rs
    → AllAbove a (enlist r rs)
unfolding enlist
enlist-AllAbove a r [] h f = (h, tt)
enlist-AllAbove a r (q ∷ qs) h f = ground (arith, enlist-AllAbove a r qs h f.1, f.0, f.1)

pub enlist-IsOrdered :
    (r : DownloadRequest) (rs : List DownloadRequest) → IsOrdered rs → IsOrdered (enlist r rs)
unfolding enlist served_first
enlist-IsOrdered r [] o = (tt, tt)
enlist-IsOrdered r (q ∷ qs) o = elim (Bool-cases (served_first q r)) [
  | inl e ↦ rw e (enlist-AllAbove _ r qs (ground arith) o.0, enlist-IsOrdered r qs o.1)
  | inr e ↦ rw e ((ground arith, AllAbove-le _ _ qs (ground arith) o.0), o)
]

pub asked-enlist :
    (r : DownloadRequest) (rs : List DownloadRequest) (k : ℕ)
    → asked (enlist r rs) k ≡ (asks_for r k || asked rs k)
unfolding asked enlist
asked-enlist r [] k = refl
asked-enlist r (q ∷ qs) k = ground (arith, asked-enlist r qs k)

abbrev pub range : ℕ → ℕ → DownloadRequest
range start size = record { from_number = start; size = size }

asks_for-join :
    (start size : ℕ) (r : DownloadRequest) (k : ℕ)
    → start ≤ r.from_number
    → r.from_number ≤ start + size
    → asks_for (range start (max size (r.from_number + r.size - start))) k
      ≡ (asks_for (range start size) k || asks_for r k)
unfolding asks_for
asks_for-join start size r k h j = ground arith

asked-join :
    (start size : ℕ) (rs : List DownloadRequest) (k : ℕ)
    → AllAbove start rs
    → (asks_for (range start (join start size rs).0) k || asked (join start size rs).1 k)
      ≡ (asks_for (range start size) k || asked rs k)
unfolding asked join
asked-join start size [] k h = refl
asked-join start size (r ∷ rs) k h = elim (Bool-cases (leb r.from_number (start + size))) [
  | inl e ↦ rw e (
      ground (
        arith,
        asked-join start (max size (r.from_number + r.size - start)) rs k h.1,
        asks_for-join start size r k h.0 (ground arith),
      ))
  | inr e ↦ rw e refl
]

join-IsOrdered :
    (start size : ℕ) (rs : List DownloadRequest) → IsOrdered rs → IsOrdered (join start size rs).1
unfolding join
join-IsOrdered start size [] o = tt
join-IsOrdered start size (r ∷ rs) o = elim (Bool-cases (leb r.from_number (start + size))) [
  | inl e ↦ rw e (join-IsOrdered start (max size (r.from_number + r.size - start)) rs o.1)
  | inr e ↦ rw e o
]

join-AllAbove :
    (start size : ℕ) (rs : List DownloadRequest)
    → IsOrdered rs
    → AllAbove (suc (start + (join start size rs).0)) (join start size rs).1
unfolding join
join-AllAbove start size [] o = tt
join-AllAbove start size (r ∷ rs) o = elim (Bool-cases (leb r.from_number (start + size))) [
  | inl e ↦ rw e (join-AllAbove start (max size (r.from_number + r.size - start)) rs o.1)
  | inr e ↦ rw e (ground arith, AllAbove-le _ _ rs (ground arith) o.0)
]

length-join-le :
    (start size : ℕ) (rs : List DownloadRequest) → length (join start size rs).1 ≤ length rs
unfolding join
length-join-le start size [] = omega arith
length-join-le start size (r ∷ rs) =
    ground (arith, length-join-le start (max size (r.from_number + r.size - start)) rs)

-- What `topAndPop` takes from a queue of requests, and what it leaves.
pub record Popped (q : ReqQueue) (r : DownloadRequest) (q' : ReqQueue) : Type 0 where
  pub same_blocks : (k : ℕ) → asked q.reqs k ≡ (asks_for r k || asked q'.reqs k)
  pub ordered : IsOrdered q'.reqs
  pub apart : AllAbove (suc (r.from_number + r.size)) q'.reqs
  pub shorter : suc (length q'.reqs) ≤ max 1 (length q.reqs)

nothing_asked : (k : ℕ) → asks_for (range 0 0) k ≡ false
unfolding asks_for
nothing_asked k = ground arith

empty_range : (start k : ℕ) → asks_for (range start 0) k ≡ false
unfolding asks_for
empty_range start k = ground arith

join_first :
    (r : DownloadRequest) (rs : List DownloadRequest)
    → join r.from_number 0 (r ∷ rs)
      ≡ join r.from_number (max 0 (r.from_number + r.size - r.from_number)) rs
unfolding join
join_first r rs = ground arith

pop_tops_lem :
    (q : ReqQueue) (rs : List DownloadRequest)
    → q.reqs ≡ rs
    → IsOrdered rs
    → Popped q (pop_tops q rs).0 (pop_tops q rs).1
unfolding pop_tops asked
pop_tops_lem q [] e o = record {
  same_blocks = λ k. ground (arith, nothing_asked k);
  ordered = rw e tt;
  apart = rw e tt;
  shorter = rw e (omega arith);
}
pop_tops_lem q (r ∷ rs) e o = record {
  same_blocks = λ k. rw e (
      ground (
        arith,
        asked-join r.from_number 0 (r ∷ rs) k (omega arith, o.0),
        empty_range r.from_number k,
      ));
  ordered = join-IsOrdered r.from_number 0 (r ∷ rs) o;
  apart = join-AllAbove r.from_number 0 (r ∷ rs) o;
  shorter =
      rw (e, join_first r rs)
        (omega (
          arith,
          length-join-le r.from_number (max 0 (r.from_number + r.size - r.from_number)) rs,
        ));
}

-- `topAndPop` of an ordered queue takes a range of blocks, such that what was asked for is what is in
-- the range or still asked for. The queue gets shorter, stays ordered, and its requests start above
-- the block that follows the range.
pub top_and_pop_lem :
    (q : ReqQueue) → IsOrdered q.reqs → Popped q (top_and_pop q).0 (top_and_pop q).1
unfolding top_and_pop
top_and_pop_lem q o = pop_tops_lem q q.reqs refl o

pub length-enlist :
    (r : DownloadRequest) (rs : List DownloadRequest) → length (enlist r rs) ≡ suc (length rs)
unfolding enlist
length-enlist r [] = refl
length-enlist r (q ∷ qs) = ground (arith, length-enlist r qs)
