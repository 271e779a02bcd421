-- ===== src/Pbft/ViewScan/Bounds.antt =====
-- What `canTriggerViewChange` has seen when it says yes.
use mathlib.Core.List.{Memᴰ}
use lab_bcos.Base.{
  ℕ, ◌%◌, ◌^◌, ◌<◌, ◌≡◌, refl, ap, subst, Bool, true, ◌&&◌, inl, inr, [], ◌∷◌, arith,
}
use lab_bcos.Base.Tests.{ltb, ◌==◌, Bool-cases}
use lab_bcos.Base.Lists.{length}
use lab_bcos.Base.Int.{ℤ, ltz, lez, ◌<ℤ◌, ◌≤ℤ◌, max_int64}
use lab_bcos.Base.Dict.{Dict, lookup, insert, IsMap, insert-IsMap}
use lab_bcos.Pbft.Msg.{Header, Msg}
use lab_bcos.Pbft.VoteCache.{ViewCache}
use lab_bcos.Pbft.ReqCache.{ReqCache}
use lab_bcos.Pbft.ViewScan.{
  Scan, takes, scan_entry, scan_entries, scan_views, scan_start, can_trigger_view_change,
}

-- The cache holds a request for the view from the node, at no lower height than the highest block.
abbrev pub Asked : Header → ViewCache → ℤ → ℕ → Type 0
Asked highest cache v i =
    (d : Dict Msg) × (req : Msg) × Memᴰ (v, d) cache
    × Memᴰ (i, req) d
    × (highest.number ≤ℤ req.height)

-- Each node of a map asked for its view there, which lies above `to_view`.
abbrev pub AllAsked : Header → ViewCache → ℤ → Dict ℤ → Type 0
AllAsked highest cache to_view [] = Unit
AllAsked highest cache to_view ((i, v) ∷ m) =
    (to_view <ℤ v) × Asked highest cache v i × AllAsked highest cache to_view m

pub record IsSeen (highest : Header) (cache : ViewCache) (to_view : ℤ) (s : Scan) : Type 0 where
  pub keys : IsMap s.idx_view_map
  pub asked : AllAsked highest cache to_view s.idx_view_map
  pub above : to_view <ℤ s.min_view
  pub heights : highest.number ≤ℤ s.min_height

insert-AllAsked :
    (highest : Header) (cache : ViewCache) (to_view : ℤ) (i : ℕ) (v : ℤ) (m : Dict ℤ)
    → to_view <ℤ v
    → Asked highest cache v i
    → AllAsked highest cache to_view m
    → AllAsked highest cache to_view (insert i v m)
unfolding insert
insert-AllAsked highest cache to_view i v [] lt k a = (lt, k, tt)
insert-AllAsked highest cache to_view i v ((j, w) ∷ m) lt k a = elim (Bool-cases (j == i)) [
  | inl e ↦ rw e (lt, k, a.2)
  | inr e ↦ rw e (a.0, a.1, insert-AllAsked highest cache to_view i v m lt k a.2)
]

module _ (highest : Header) (cache : ViewCache) (to_view : ℤ) where
  scan_entry-IsSeen :
      (view : ℤ) (d : Dict Msg) (s : Scan) (i : ℕ) (req : Msg)
      → to_view <ℤ view
      → Memᴰ (view, d) cache
      → Memᴰ (i, req) d
      → IsSeen highest cache to_view s
      → IsSeen highest cache to_view (scan_entry highest view s i req)
  unfolding scan_entry
  scan_entry-IsSeen view d s i req lt there here a =
      elim (Bool-cases (takes (lookup i s.idx_view_map) view && lez highest.number req.height)) [
        | inl e ↦ rw e (record {
          keys = insert-IsMap i view s.idx_view_map a.keys;
          asked =
              insert-AllAsked highest cache to_view i view s.idx_view_map lt
                (d, req, there, here, ground arith) a.asked;
          above = ground (arith, a.above);
          heights = ground (arith, a.heights);
        })
        | inr e ↦ rw e a
      ]

  scan_entries-IsSeen :
      (view : ℤ) (d0 : Dict Msg) (d : Dict Msg) (s : Scan)
      → to_view <ℤ view
      → Memᴰ (view, d0) cache
      → ((e : ℕ × Msg) → Memᴰ e d → Memᴰ e d0)
      → IsSeen highest cache to_view s
      → IsSeen highest cache to_view (scan_entries highest view s d)
  unfolding scan_entries
  scan_entries-IsSeen view d0 [] s lt there sub a = a
  scan_entries-IsSeen view d0 ((i, req) ∷ d) s lt there sub a =
      scan_entries-IsSeen view d0 d (scan_entry highest view s i req) lt there
        (λ e m. sub e (Memᴰ.tail m))
        (scan_entry-IsSeen view d0 s i req lt there (sub (i, req) (Memᴰ.head refl)) a)

  scan_views-IsSeen :
      (m : ViewCache) (s : Scan)
      → ((e : ℤ × Dict Msg) → Memᴰ e m → Memᴰ e cache)
      → IsSeen highest cache to_view s
      → IsSeen highest cache to_view (scan_views highest to_view s m)
  unfolding scan_views
  scan_views-IsSeen [] s sub a = a
  scan_views-IsSeen ((view, d) ∷ m) s sub a = elim (Bool-cases (ltz to_view view)) [
    | inl e ↦ rw e (
        scan_views-IsSeen m (scan_entries highest view s d) (λ x h. sub x (Memᴰ.tail h))
          (scan_entries-IsSeen view d d s (ground arith) (sub (view, d) (Memᴰ.head refl)) (λ x h. h)
            a))
    | inr e ↦ rw e (scan_views-IsSeen m s (λ x h. sub x (Memᴰ.tail h)) a)
  ]

enough : (f n : ℕ) (more : Bool) → (ltb f (n % 2 ^ 16) && more) ≡ true → f < n
enough f n more h = ground arith

-- When a view change can be triggered, the least view found lies above `to_view`, and more than
-- `max_invalid` different nodes have asked for views above `to_view` at no lower height than the
-- highest block. `to_view` is below the largest `int64_t` and the block's number at most that.
pub can_trigger_view_change_sound :
    (c : ReqCache) (max_invalid : ℕ) (to_view : ℤ) (highest : Header) (number min_view : ℤ)
    → to_view <ℤ max_int64
    → highest.number ≤ℤ max_int64
    → can_trigger_view_change c max_invalid to_view highest number ≡ (min_view, true)
    → (to_view <ℤ min_view)
      × (seen : Dict ℤ) × IsMap seen
      × (max_invalid < length seen)
      × AllAsked highest c.recv_view_change to_view seen
unfolding can_trigger_view_change scan_start
can_trigger_view_change_sound c max_invalid to_view highest number min_view small low e =
    let final = scan_views highest to_view scan_start c.recv_view_change in
    let seen : IsSeen highest c.recv_view_change to_view final =
      scan_views-IsSeen highest c.recv_view_change to_view c.recv_view_change scan_start (λ x h. h)
        (record { keys = tt; asked = tt; above = small; heights = low }) in
    (
      subst (λ v. to_view <ℤ v) (ap (λ p. p.0) e) seen.above,
      final.idx_view_map,
      seen.keys,
      enough max_invalid (length final.idx_view_map) _ (ap (λ p. p.1) e),
      seen.asked,
    )
