-- ===== src/Pbft/VoteCache/Prune.antt =====
-- What is left of the votes after the loops that drop some.
use lab_bcos.Base.{ℕ, ◌≡◌, refl, true, Option, none, some, [], ◌∷◌, arith, inl, inr}
use lab_bcos.Base.Tests.{◌==◌, ==_iff, if◌then◌else◌, Bool-cases}
use lab_bcos.Base.Int.{ℤ, eqz}
use lab_bcos.Base.Dict.{Dict, lookup, retain, kept, IsMap, lookup-insert, lookup-retain}
use lab_bcos.Pbft.Msg.{Header, Msg}
use lab_bcos.Pbft.VoteCache.{
  VoteCache, votes, vote, remove_other_views, is_fresh, is_empty, remove_invalid_entries,
}

-- No signature stands twice under a block.
abbrev pub AllMaps : VoteCache → Type 0
AllMaps [] = Unit
AllMaps ((k, d) ∷ m) = IsMap d × AllMaps m

pub votes-IsMap : (hash : ℕ) (cache : VoteCache) → AllMaps cache → IsMap (votes hash cache)
unfolding votes lookup
votes-IsMap hash [] a = tt
votes-IsMap hash ((k, d) ∷ m) a = elim (Bool-cases (k == hash)) [
  | inl e ↦ rw e a.0
  | inr e ↦ rw e (votes-IsMap hash m a.1)
]

pub lookup-remove_invalid_entries-none :
    (highest : Header) (cache : VoteCache) (hash : ℕ)
    → lookup hash cache ≡ none
    → lookup hash (remove_invalid_entries highest cache) ≡ none
unfolding lookup remove_invalid_entries
lookup-remove_invalid_entries-none highest [] hash h = refl
lookup-remove_invalid_entries-none highest ((k, d) ∷ m) hash h =
    ground (arith, lookup-remove_invalid_entries-none highest m hash)

is_empty→eq : (d : Dict Msg) → is_empty d ≡ true → d ≡ []
is_empty→eq [] h = refl
is_empty→eq (e ∷ d) h = cc

pub votes-remove_invalid_entries :
    (highest : Header) (cache : VoteCache) (hash : ℕ)
    → IsMap cache
    → votes hash (remove_invalid_entries highest cache)
      ≡ retain (λ key r. is_fresh highest r) (votes hash cache)
unfolding votes lookup remove_invalid_entries retain
votes-remove_invalid_entries highest [] hash u = refl
votes-remove_invalid_entries highest ((k, d) ∷ m) hash u = ground (
  arith,
  ==_iff k hash,
  votes-remove_invalid_entries highest m hash u.1,
  lookup-remove_invalid_entries-none highest m k u.0,
  is_empty→eq (retain (λ key r. is_fresh highest r) d),
)

-- After `collectGarbage` a vote stands exactly if it stood before and is neither for a lower block
-- nor for another block at the current height.
pub vote-remove_invalid_entries :
    (highest : Header) (cache : VoteCache) (hash sig : ℕ)
    → IsMap cache
    → AllMaps cache
    → vote hash sig (remove_invalid_entries highest cache)
      ≡ kept (λ key r. is_fresh highest r) sig (vote hash sig cache)
unfolding vote
vote-remove_invalid_entries highest cache hash sig u a =
    rw (votes-remove_invalid_entries highest cache hash u) (
      lookup-retain (λ key r. is_fresh highest r) sig (votes hash cache) (votes-IsMap hash cache a))

pub votes-remove_other_views :
    (h : ℕ) (view : ℤ) (cache : VoteCache) (hash : ℕ)
    → votes hash (remove_other_views h view cache)
      ≡ (if h == hash then retain (λ sig m. eqz m.view view) (votes h cache) else votes hash cache)
votes-remove_other_views h view cache hash = split (lookup h cache) refl
  where
    split :
        (o : Option (Dict Msg))
        → lookup h cache ≡ o
        → votes hash (remove_other_views h view cache) ≡ (
            if h == hash
            then retain (λ sig m. eqz m.view view) (votes h cache)
            else votes hash cache)
    split none e =
        unfold remove_other_views votes retain in
        rw (e, remove_other_views) (ground (arith, ==_iff h hash))
    split (some d) e =
        unfold remove_other_views votes retain in
        rw (e, remove_other_views) (rw lookup-insert (ground arith))

-- After `addPrepareReq` the votes for its block are those of its view; other votes are as before.
pub vote-remove_other_views :
    (h : ℕ) (view : ℤ) (cache : VoteCache) (hash sig : ℕ)
    → AllMaps cache
    → vote hash sig (remove_other_views h view cache) ≡ (
        if h == hash
        then kept (λ s m. eqz m.view view) sig (vote hash sig cache)
        else vote hash sig cache)
unfolding vote
vote-remove_other_views h view cache hash sig a = rw votes-remove_other_views (
    ground (
      arith,
      ==_iff h hash,
      lookup-retain (λ s m. eqz m.view view) sig (votes h cache) (votes-IsMap h cache a),
    ))
