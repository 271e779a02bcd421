-- ===== src/Base/Dict.antt =====
-- `std::unordered_map` and `std::map` keyed by numbers (hashes, indices, signatures), as
-- association lists. The list's order stands for the order in which the container iterates.
use lab_bcos.Base.{
  ℕ, suc, ◌≤◌, ◌≡◌, refl, Bool, true, false, Option, none, some, List, [], ◌∷◌, arith,
}
use lab_bcos.Base.Tests.{◌==◌, ==_iff, if◌then◌else◌}
use lab_bcos.Base.Lists.{length}

abbrev pub Dict {ℓ} : Type ℓ → Type ℓ
Dict V = List (ℕ × V)

module _ {ℓ} {V : Type ℓ} where
  unfoldable pub lookup : ℕ → Dict V → Option V
  lookup k [] = none
  lookup k ((key, value) ∷ rest) = if key == k then some value else lookup k rest

  abbrev pub is_some : Option V → Bool
  is_some none = false
  is_some (some v) = true

  pub is_some-none : (o : Option V) → is_some o ≡ false → o ≡ none
  is_some-none none h = refl
  is_some-none (some v) h = absurd (ground arith)

  -- `m.count(k) > 0`, `m.find(k) != m.end()`.
  unfoldable pub has : ℕ → Dict V → Bool
  unfolding lookup
  has k m = is_some (lookup k m)

  -- `m[k] = v`.
  unfoldable pub insert : ℕ → V → Dict V → Dict V
  insert k v [] = (k, v) ∷ []
  insert k v ((key, old) ∷ rest) = if key == k then (k, v) ∷ rest else (key, old) ∷ insert k v rest

  -- The loop that erases each entry that fails a test.
  unfoldable pub retain : (ℕ → V → Bool) → Dict V → Dict V
  retain p [] = []
  retain p ((j, v) ∷ m) = let rest = retain p m in if p j v then (j, v) ∷ rest else rest

  abbrev pub other_key : ℕ → ℕ → V → Bool
  other_key k j v = if j == k then false else true

  -- `m.erase(k)`.
  unfoldable pub erase : ℕ → Dict V → Dict V
  unfolding retain
  erase k = retain (other_key k)

  -- No key stands twice, as the containers guarantee.
  abbrev pub IsMap : Dict V → Type ℓ
  IsMap [] = Unit
  IsMap ((j, v) ∷ m) = (lookup j m ≡ none) × IsMap m

  abbrev pub kept : (ℕ → V → Bool) → ℕ → Option V → Option V
  kept p k none = none
  kept p k (some v) = if p k v then some v else none

  pub lookup-insert :
      (added wanted : ℕ) (v : V) (m : Dict V)
      → lookup wanted (insert added v m) ≡ (if added == wanted then some v else lookup wanted m)
  unfolding lookup insert
  lookup-insert added wanted v [] = refl
  lookup-insert added wanted v ((key, old) ∷ rest) =
      ground (arith, lookup-insert added wanted v rest)

  pub retain_absent :
      (p : ℕ → V → Bool) (k : ℕ) (m : Dict V) → lookup k m ≡ none → lookup k (retain p m) ≡ none
  unfolding lookup retain
  retain_absent p k [] h = refl
  retain_absent p k ((j, v) ∷ m) h = ground (arith, retain_absent p k m)

  pub lookup-retain :
      (p : ℕ → V → Bool) (k : ℕ) (m : Dict V)
      → IsMap m
      → lookup k (retain p m) ≡ kept p k (lookup k m)
  unfolding lookup retain
  lookup-retain p k [] h = refl
  lookup-retain p k ((j, v) ∷ m) h =
      ground (arith, ==_iff j k, lookup-retain p k m h.1, retain_absent p j m h.0)

  pub insert-IsMap : (k : ℕ) (v : V) (m : Dict V) → IsMap m → IsMap (insert k v m)
  unfolding lookup insert
  insert-IsMap k v [] h = (refl, tt)
  insert-IsMap k v ((i, w) ∷ m) h = ground (arith, insert-IsMap k v m, lookup-insert k i v m)

  pub retain-IsMap : (p : ℕ → V → Bool) (m : Dict V) → IsMap m → IsMap (retain p m)
  unfolding retain
  retain-IsMap p [] h = tt
  retain-IsMap p ((i, w) ∷ m) h = ground (arith, retain-IsMap p m, retain_absent p i m)

  pub length-insert :
      (k : ℕ) (v : V) (m : Dict V)
      → length (insert k v m) ≡ (if has k m then length m else suc (length m))
  unfolding lookup insert has
  length-insert k v [] = refl
  length-insert k v ((i, w) ∷ m) = ground (arith, length-insert k v m)

  pub length-retain-le : (p : ℕ → V → Bool) (m : Dict V) → length (retain p m) ≤ length m
  unfolding retain
  length-retain-le p [] = omega arith
  length-retain-le p ((i, w) ∷ m) = ground (arith, length-retain-le p m)
