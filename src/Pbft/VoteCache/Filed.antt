-- ===== src/Pbft/VoteCache/Filed.antt =====
-- The shape of nested maps of requests: each under its keys, and no key twice.
use lab_bcos.Base.{ℕ, Bool, List, [], ◌∷◌, inl, inr}
use lab_bcos.Base.Tests.{◌==◌, Bool-cases}
use lab_bcos.Base.Dict.{Dict, insert, retain, IsMap, retain-IsMap}
use lab_bcos.Pbft.Msg.{Header, Msg}
use lab_bcos.Pbft.VoteCache.{is_fresh, is_empty, remove_invalid_entries}

abbrev pub Filed : (ℕ → Msg → Type 0) → Dict Msg → Type 0
Filed P [] = Unit
Filed P ((k, m) ∷ d) = P k m × Filed P d

-- The inner maps of a cache: each with no key twice and each request under its keys.
abbrev pub AllFiled {ℓ} : {K : Type ℓ} → (K → ℕ → Msg → Type 0) → List (K × Dict Msg) → Type 0
AllFiled P [] = Unit
AllFiled P ((k, d) ∷ m) = IsMap d × Filed (P k) d × AllFiled P m

pub insert-Filed :
    (P : ℕ → Msg → Type 0) (k : ℕ) (m : Msg) (d : Dict Msg)
    → P k m
    → Filed P d
    → Filed P (insert k m d)
unfolding insert
insert-Filed P k m [] p f = (p, tt)
insert-Filed P k m ((j, n) ∷ d) p f = elim (Bool-cases (j == k)) [
  | inl e ↦ rw e (p, f.1)
  | inr e ↦ rw e (f.0, insert-Filed P k m d p f.1)
]

pub retain-Filed :
    (P : ℕ → Msg → Type 0) (q : ℕ → Msg → Bool) (d : Dict Msg) → Filed P d → Filed P (retain q d)
unfolding retain
retain-Filed P q [] f = tt
retain-Filed P q ((j, n) ∷ d) f = elim (Bool-cases (q j n)) [
  | inl e ↦ rw e (f.0, retain-Filed P q d f.1)
  | inr e ↦ rw e (retain-Filed P q d f.1)
]

module _ {ℓ} {K : Type ℓ} (P : K → ℕ → Msg → Type 0) where
  pub remove_invalid_entries-AllFiled :
      (highest : Header) (m : List (K × Dict Msg))
      → AllFiled P m
      → AllFiled P (remove_invalid_entries highest m)
  unfolding remove_invalid_entries
  remove_invalid_entries-AllFiled highest [] f = tt
  remove_invalid_entries-AllFiled highest ((k, d) ∷ m) f =
      elim (Bool-cases (is_empty (retain (λ key r. is_fresh highest r) d))) [
        | inl e ↦ rw e (remove_invalid_entries-AllFiled highest m f.2)
        | inr e ↦ rw e (
          retain-IsMap _ d f.0,
          retain-Filed (P k) _ d f.1,
          remove_invalid_entries-AllFiled highest m f.2,
        )
      ]
