-- ===== src/Pbft/VoteCache/ByView.antt =====
-- The shape of the view change requests: by the view and by the sender's index.
use lab_bcos.Base.{ℕ, ◌≡◌, refl, subst, Bool, none, some, [], ◌∷◌, arith, inl, inr}
use lab_bcos.Base.Tests.{if◌then◌else◌, Bool-cases}
use lab_bcos.Base.Int.{ℤ, eqz, lez, eqz→eq}
use lab_bcos.Base.Dict.{Dict, insert, retain, IsMap, retain-IsMap, insert-IsMap}
use lab_bcos.Pbft.Msg.{Header, Msg}
use lab_bcos.Pbft.VoteCache.{
  ViewCache, or_empty, find_view, set_view, view_requests, remove_views_upto,
  remove_invalid_entries,
}
use lab_bcos.Pbft.VoteCache.Filed.{
  Filed, AllFiled, insert-Filed, retain-Filed, remove_invalid_entries-AllFiled,
}

-- A view change request stands under its view and its sender's index.
abbrev pub ViewKeys : ℤ → ℕ → Msg → Type 0
ViewKeys view idx m = (m.view ≡ view) × (m.idx ≡ idx)

-- No view stands twice.
abbrev pub IsViewMap : ViewCache → Type 0
IsViewMap [] = Unit
IsViewMap ((v, d) ∷ m) = (find_view v m ≡ none) × IsViewMap m

pub record IsViewCache (m : ViewCache) : Type 0 where
  pub views : IsViewMap m
  pub filed : AllFiled ViewKeys m

find_view-Filed :
    (v : ℤ) (m : ViewCache)
    → AllFiled ViewKeys m
    → IsMap (or_empty (find_view v m)) × Filed (ViewKeys v) (or_empty (find_view v m))
unfolding find_view
find_view-Filed v [] f = (tt, tt)
find_view-Filed v ((w, d) ∷ m) f = elim (Bool-cases (eqz w v)) [
  | inl e ↦ rw e (f.0, subst (λ u. Filed (ViewKeys u) d) (eqz→eq w v e) f.1)
  | inr e ↦ rw e (find_view-Filed v m f.2)
]

find_view-set_view :
    (v w : ℤ) (d : Dict Msg) (m : ViewCache)
    → find_view w (set_view v d m) ≡ (if eqz v w then some d else find_view w m)
unfolding find_view set_view
find_view-set_view v w d [] = refl
find_view-set_view v w d ((u, e) ∷ m) = ground (arith, find_view-set_view v w d m)

set_view-IsViewMap :
    (v : ℤ) (d : Dict Msg) (m : ViewCache) → IsViewMap m → IsViewMap (set_view v d m)
unfolding find_view set_view
set_view-IsViewMap v d [] h = (refl, tt)
set_view-IsViewMap v d ((u, e) ∷ m) h =
    ground (arith, set_view-IsViewMap v d m h.1, find_view-set_view v u d m, eqz→eq u v)

set_view-AllFiled :
    (v : ℤ) (d : Dict Msg) (m : ViewCache)
    → IsMap d
    → Filed (ViewKeys v) d
    → AllFiled ViewKeys m
    → AllFiled ViewKeys (set_view v d m)
unfolding set_view
set_view-AllFiled v d [] u p f = (u, p, tt)
set_view-AllFiled v d ((w, e) ∷ m) u p f = elim (Bool-cases (eqz w v)) [
  | inl s ↦ rw s (u, p, f.2)
  | inr s ↦ rw s (f.0, f.1, set_view-AllFiled v d m u p f.2)
]

-- Adding a request under its view and index.
pub add_view-IsViewCache :
    (req : Msg) (m : ViewCache)
    → IsViewCache m
    → IsViewCache (set_view req.view (insert req.idx req (view_requests req.view m)) m)
unfolding view_requests
add_view-IsViewCache req m c =
    let (u, p) = find_view-Filed req.view m c.filed in
    record {
      views = set_view-IsViewMap req.view _ m c.views;
      filed =
          set_view-AllFiled req.view _ m (insert-IsMap req.idx req _ u)
            (insert-Filed (ViewKeys req.view) req.idx req _ (refl, refl) p) c.filed;
    }

-- Dropping requests of one view.
pub prune_view-IsViewCache :
    (v : ℤ) (q : ℕ → Msg → Bool) (m : ViewCache) (d : Dict Msg)
    → find_view v m ≡ some d
    → IsViewCache m
    → IsViewCache (set_view v (retain q d) m)
prune_view-IsViewCache v q m d e c =
    let (u, p) = rw e at (find_view-Filed v m c.filed) in
    record {
      views = set_view-IsViewMap v _ m c.views;
      filed =
          set_view-AllFiled v _ m (retain-IsMap q d u) (retain-Filed (ViewKeys v) q d p) c.filed;
    }

find_view-remove_views_upto-none :
    (cur v : ℤ) (m : ViewCache)
    → find_view v m ≡ none
    → find_view v (remove_views_upto cur m) ≡ none
unfolding find_view remove_views_upto
find_view-remove_views_upto-none cur v [] h = refl
find_view-remove_views_upto-none cur v ((w, d) ∷ m) h =
    ground (arith, find_view-remove_views_upto-none cur v m)

remove_views_upto-IsViewMap :
    (cur : ℤ) (m : ViewCache) → IsViewMap m → IsViewMap (remove_views_upto cur m)
unfolding remove_views_upto
remove_views_upto-IsViewMap cur [] h = tt
remove_views_upto-IsViewMap cur ((w, d) ∷ m) h =
    ground
      (arith, remove_views_upto-IsViewMap cur m h.1, find_view-remove_views_upto-none cur w m h.0)

remove_views_upto-AllFiled :
    (cur : ℤ) (m : ViewCache) → AllFiled ViewKeys m → AllFiled ViewKeys (remove_views_upto cur m)
unfolding remove_views_upto
remove_views_upto-AllFiled cur [] f = tt
remove_views_upto-AllFiled cur ((w, d) ∷ m) f = elim (Bool-cases (lez w cur)) [
  | inl e ↦ rw e (remove_views_upto-AllFiled cur m f.2)
  | inr e ↦ rw e (f.0, f.1, remove_views_upto-AllFiled cur m f.2)
]

pub remove_views_upto-IsViewCache :
    (cur : ℤ) (m : ViewCache) → IsViewCache m → IsViewCache (remove_views_upto cur m)
remove_views_upto-IsViewCache cur m c = record {
  views = remove_views_upto-IsViewMap cur m c.views;
  filed = remove_views_upto-AllFiled cur m c.filed;
}

find_view-remove_invalid_entries-none :
    (highest : Header) (v : ℤ) (m : ViewCache)
    → find_view v m ≡ none
    → find_view v (remove_invalid_entries highest m) ≡ none
unfolding find_view remove_invalid_entries
find_view-remove_invalid_entries-none highest v [] h = refl
find_view-remove_invalid_entries-none highest v ((w, d) ∷ m) h =
    ground (arith, find_view-remove_invalid_entries-none highest v m)

views-remove_invalid_entries :
    (highest : Header) (m : ViewCache) → IsViewMap m → IsViewMap (remove_invalid_entries highest m)
unfolding remove_invalid_entries
views-remove_invalid_entries highest [] h = tt
views-remove_invalid_entries highest ((w, d) ∷ m) h = ground (
  arith,
  views-remove_invalid_entries highest m h.1,
  find_view-remove_invalid_entries-none highest w m h.0,
)

pub remove_invalid_entries-IsViewCache :
    (highest : Header) (m : ViewCache)
    → IsViewCache m
    → IsViewCache (remove_invalid_entries highest m)
remove_invalid_entries-IsViewCache highest m c = record {
  views = views-remove_invalid_entries highest m c.views;
  filed = remove_invalid_entries-AllFiled ViewKeys highest m c.filed;
}

pub empty-IsViewCache : IsViewCache []
empty-IsViewCache = record { views = tt; filed = tt }
