-- ===== src/Pbft/ViewScan.antt =====
-- `canTriggerViewChange` of libconsensus/pbft/PBFTReqCache.cpp. The lists' order stands for the
-- order in which the hash maps iterate.
pub mod Bounds
use lab_bcos.Base.{ℕ, ◌%◌, ◌^◌, Bool, true, ◌&&◌, not, Option, none, some, [], ◌∷◌}
use lab_bcos.Base.Tests.{ltb, if◌then◌else◌}
use lab_bcos.Base.Lists.{length}
use lab_bcos.Base.Int.{ℤ, ltz, lez, eqz, max_int64}
use lab_bcos.Base.Dict.{Dict, lookup, insert}
use lab_bcos.Pbft.Msg.{Header, Msg, max_view}
use lab_bcos.Pbft.VoteCache.{ViewCache}
use lab_bcos.Pbft.ReqCache.{ReqCache}

-- The variables of the loop of `canTriggerViewChange`.
pub record Scan : Type 0 where
  pub idx_view_map : Dict ℤ
  pub min_view : ℤ
  pub min_height : ℤ

abbrev pub takes : Option ℤ → ℤ → Bool
takes none view = true
takes (some old) view = ltz old view

-- One entry of the inner loop.
unfoldable pub scan_entry : Header → ℤ → Scan → ℕ → Msg → Scan
scan_entry highest view s idx req =
    if takes (lookup idx s.idx_view_map) view && lez highest.number req.height
    then record {
      idx_view_map = insert idx view s.idx_view_map;
      min_view = if ltz view s.min_view then view else s.min_view;
      min_height = if ltz req.height s.min_height then req.height else s.min_height;
    }
    else s

unfoldable pub scan_entries : Header → ℤ → Scan → Dict Msg → Scan
scan_entries highest view s [] = s
scan_entries highest view s ((idx, req) ∷ d) =
    scan_entries highest view (scan_entry highest view s idx req) d

unfoldable pub scan_views : Header → ℤ → Scan → ViewCache → Scan
scan_views highest to_view s [] = s
scan_views highest to_view s ((view, d) ∷ m) =
    scan_views highest to_view (if ltz to_view view then scan_entries highest view s d else s) m

unfoldable pub scan_start : Scan
scan_start = record { idx_view_map = []; min_view = max_view; min_height = max_int64 }

-- `canTriggerViewChange`: the answer beside `minView`.
unfoldable pub can_trigger_view_change : ReqCache → ℕ → ℤ → Header → ℤ → ℤ × Bool
can_trigger_view_change c max_invalid to_view highest consensus_number =
    let s = scan_views highest to_view scan_start c.recv_view_change in
    let flag =
      eqz s.min_height consensus_number && eqz s.min_height c.committed_prepare_cache.height in
    (s.min_view, ltb max_invalid (length s.idx_view_map % 2 ^ 16) && not flag)
