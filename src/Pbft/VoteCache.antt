-- ===== src/Pbft/VoteCache.antt =====
-- The two kinds of nested maps of libconsensus/pbft/PBFTReqCache.h, with the loops that add to them
-- and prune them.
pub mod Counts
pub mod Prune
pub mod Filed
pub mod ByHash
pub mod ByView
use lab_bcos.Base.{ℕ, Bool, true, false, ◌&&◌, not, Option, none, some, List, [], ◌∷◌}
use lab_bcos.Base.Tests.{◌==◌, if◌then◌else◌}
use lab_bcos.Base.Lists.{length}
use lab_bcos.Base.Int.{ℤ, ltz, lez, eqz}
use lab_bcos.Base.Dict.{Dict, lookup, has, insert, retain}
use lab_bcos.Pbft.Msg.{Header, Msg}

-- Votes on a block, `std::unordered_map<h256, std::unordered_map<std::string, ...>>`: by the
-- block's hash, then by the signature.
abbrev pub VoteCache : Type 0
VoteCache = Dict (Dict Msg)

-- View change requests: by the view, then by the node's index.
abbrev pub ViewCache : Type 0
ViewCache = List (ℤ × Dict Msg)

-- What `operator[]` finds: a missing entry is made empty.
abbrev pub or_empty : Option (Dict Msg) → Dict Msg
or_empty none = []
or_empty (some d) = d

-- The votes for a hash, the single vote of a signature, and `getSizeFromCache`.
unfoldable pub votes : ℕ → VoteCache → Dict Msg
votes hash cache = or_empty (lookup hash cache)

unfoldable pub vote : ℕ → ℕ → VoteCache → Option Msg
vote hash sig cache = lookup sig (votes hash cache)

unfoldable pub vote_count : ℕ → VoteCache → ℕ
vote_count hash cache = length (votes hash cache)

-- `cacheExists`.
unfoldable pub vote_exists : ℕ → ℕ → VoteCache → Bool
vote_exists hash sig cache = has sig (votes hash cache)

-- `addReq`: `cache[req.block_hash][req.sig.hex()] = req`.
unfoldable pub add_vote : Msg → VoteCache → VoteCache
add_vote req cache = insert req.block_hash (insert req.sig req (votes req.block_hash cache)) cache

unfoldable pub find_view : ℤ → ViewCache → Option (Dict Msg)
find_view v [] = none
find_view v ((w, d) ∷ m) = if eqz w v then some d else find_view v m

unfoldable pub set_view : ℤ → Dict Msg → ViewCache → ViewCache
set_view v d [] = (v, d) ∷ []
set_view v d ((w, e) ∷ m) = if eqz w v then (v, d) ∷ m else (w, e) ∷ set_view v d m

unfoldable pub view_requests : ℤ → ViewCache → Dict Msg
view_requests v cache = or_empty (find_view v cache)

-- `removeInvalidSignCache` and `removeInvalidCommitCache`: of the votes for a hash only those of
-- the view stay.
unfoldable pub remove_other_views : ℕ → ℤ → VoteCache → VoteCache
remove_other_views hash view cache = elim (lookup hash cache) [
  | none ↦ cache
  | some d ↦ insert hash (retain (λ sig m. eqz m.view view) d) cache
]

-- `removeInvalidViewChange(curView)`: the views up to the current one go.
unfoldable pub remove_views_upto : ℤ → ViewCache → ViewCache
remove_views_upto cur [] = []
remove_views_upto cur ((w, d) ∷ m) =
    let rest = remove_views_upto cur m in if lez w cur then rest else (w, d) ∷ rest

-- Neither expired nor, at the current height, for another block.
unfoldable pub is_fresh : Header → Msg → Bool
is_fresh highest m =
    if ltz m.height highest.number
    then false
    else not (eqz m.height highest.number && not (m.block_hash == highest.hash))

abbrev pub is_empty : Dict Msg → Bool
is_empty [] = true
is_empty (e ∷ d) = false

-- `removeInvalidEntryFromCache`: the entries that are not fresh go, and so do keys left empty.
unfoldable pub remove_invalid_entries {ℓ} :
    {K : Type ℓ} → Header → List (K × Dict Msg) → List (K × Dict Msg)
remove_invalid_entries highest [] = []
remove_invalid_entries highest ((k, d) ∷ m) =
    let rest = remove_invalid_entries highest m in
    let left = retain (λ key r. is_fresh highest r) d in
    if is_empty left then rest else (k, left) ∷ rest
