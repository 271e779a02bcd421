-- ===== src/Pbft/VoteCache/ByHash.antt =====
-- The shape of the votes on blocks: by the block's hash and by the signature.
use lab_bcos.Base.{ℕ, ◌≡◌, refl, subst, Bool, Option, none, some, [], ◌∷◌, arith, inl, inr}
use lab_bcos.Base.Tests.{◌==◌, ==_iff, Bool-cases}
use lab_bcos.Base.Int.{ℤ}
use lab_bcos.Base.Dict.{
  Dict, lookup, insert, retain, erase, other_key, IsMap, retain-IsMap, insert-IsMap,
}
use lab_bcos.Pbft.Msg.{Header, Msg}
use lab_bcos.Pbft.VoteCache.{
  VoteCache, or_empty, votes, add_vote, remove_other_views, remove_invalid_entries,
}
use lab_bcos.Pbft.VoteCache.Filed.{
  Filed, AllFiled, insert-Filed, retain-Filed, remove_invalid_entries-AllFiled,
}
use lab_bcos.Pbft.VoteCache.Prune.{lookup-remove_invalid_entries-none}

-- A vote stands under its block's hash and its signature.
abbrev pub VoteKeys : ℕ → ℕ → Msg → Type 0
VoteKeys hash sig m = (m.block_hash ≡ hash) × (m.sig ≡ sig)

pub record IsVoteCache (m : VoteCache) : Type 0 where
  pub keys : IsMap m
  pub filed : AllFiled VoteKeys m

pub or_empty-Filed :
    (hash : ℕ) (m : VoteCache)
    → AllFiled VoteKeys m
    → IsMap (or_empty (lookup hash m)) × Filed (VoteKeys hash) (or_empty (lookup hash m))
unfolding lookup
or_empty-Filed hash [] f = (tt, tt)
or_empty-Filed hash ((k, d) ∷ m) f = elim (Bool-cases (k == hash)) [
  | inl e ↦ rw e (f.0, subst (λ h. Filed (VoteKeys h) d) ((==_iff k hash).0 e) f.1)
  | inr e ↦ rw e (or_empty-Filed hash m f.2)
]

insert-AllFiled :
    (k : ℕ) (d : Dict Msg) (m : VoteCache)
    → IsMap d
    → Filed (VoteKeys k) d
    → AllFiled VoteKeys m
    → AllFiled VoteKeys (insert k d m)
unfolding insert
insert-AllFiled k d [] u p f = (u, p, tt)
insert-AllFiled k d ((j, e) ∷ m) u p f = elim (Bool-cases (j == k)) [
  | inl s ↦ rw s (u, p, f.2)
  | inr s ↦ rw s (f.0, f.1, insert-AllFiled k d m u p f.2)
]

pub add_vote-IsVoteCache :
    (req : Msg) (m : VoteCache) → IsVoteCache m → IsVoteCache (add_vote req m)
unfolding add_vote votes
add_vote-IsVoteCache req m c =
    let (u, p) = or_empty-Filed req.block_hash m c.filed in
    record {
      keys = insert-IsMap req.block_hash _ m c.keys;
      filed =
          insert-AllFiled req.block_hash _ m (insert-IsMap req.sig req _ u)
            (insert-Filed (VoteKeys req.block_hash) req.sig req _ (refl, refl) p) c.filed;
    }

pub remove_other_views-IsVoteCache :
    (h : ℕ) (view : ℤ) (m : VoteCache) → IsVoteCache m → IsVoteCache (remove_other_views h view m)
remove_other_views-IsVoteCache h view m c = split (lookup h m) refl
  where
    split : (o : Option (Dict Msg)) → lookup h m ≡ o → IsVoteCache (remove_other_views h view m)
    split none e = unfold remove_other_views in rw (e, remove_other_views) c
    split (some d) e =
        let (u, p) = rw e at (or_empty-Filed h m c.filed) in
        unfold remove_other_views in
        rw (e, remove_other_views)
          (record {
            keys = insert-IsMap h _ m c.keys;
            filed =
                insert-AllFiled h _ m (retain-IsMap _ d u) (retain-Filed (VoteKeys h) _ d p)
                  c.filed;
          })

keys-remove_invalid_entries :
    (highest : Header) (m : VoteCache) → IsMap m → IsMap (remove_invalid_entries highest m)
unfolding remove_invalid_entries
keys-remove_invalid_entries highest [] u = tt
keys-remove_invalid_entries highest ((k, d) ∷ m) u = ground (
  arith,
  keys-remove_invalid_entries highest m u.1,
  lookup-remove_invalid_entries-none highest m k u.0,
)

pub remove_invalid_entries-IsVoteCache :
    (highest : Header) (m : VoteCache)
    → IsVoteCache m
    → IsVoteCache (remove_invalid_entries highest m)
remove_invalid_entries-IsVoteCache highest m c = record {
  keys = keys-remove_invalid_entries highest m c.keys;
  filed = remove_invalid_entries-AllFiled VoteKeys highest m c.filed;
}

retain-AllFiled :
    (q : ℕ → Dict Msg → Bool) (m : VoteCache) → AllFiled VoteKeys m → AllFiled VoteKeys (retain q m)
unfolding retain
retain-AllFiled q [] f = tt
retain-AllFiled q ((k, d) ∷ m) f = elim (Bool-cases (q k d)) [
  | inl e ↦ rw e (f.0, f.1, retain-AllFiled q m f.2)
  | inr e ↦ rw e (retain-AllFiled q m f.2)
]

pub erase-IsVoteCache : (hash : ℕ) (m : VoteCache) → IsVoteCache m → IsVoteCache (erase hash m)
unfolding erase
erase-IsVoteCache hash m c = record {
  keys = retain-IsMap (other_key hash) m c.keys;
  filed = retain-AllFiled (other_key hash) m c.filed;
}

pub empty-IsVoteCache : IsVoteCache []
empty-IsVoteCache = record { keys = tt; filed = tt }
