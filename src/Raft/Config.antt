-- ===== src/Raft/Config.antt =====
-- The set of miners: `updateMinerList`, `resetConfig` and `initRaftEnv` of `RaftEngine`.
pub mod Miners
pub mod Restart
use lab_bcos.Base.{
  ℕ, ◌-◌, ◌/◌, ◌%◌, ◌^◌, Bool, true, false, not, ◌||◌, Option, none, some, List, [], ◌∷◌, ◌++◌,
}
use lab_bcos.Base.Tests.{◌==◌, if◌then◌else◌}
use lab_bcos.Base.Lists.{length, contains, get_or}
use lab_bcos.Base.Int.{ℤ, lez, eqz}
use lab_bcos.Pbft.Engine.{index_by_miner}
use lab_bcos.Pbft.Engine.Config.{sort}
use lab_bcos.Raft.Types.{Engine, World, Flow, MinerRow, invalid_index}
use lab_bcos.Raft.Roles.{reset_elect_timeout, become_follower, switch_to_follower, init_times}
use Flow.{returned, deadlocked}

-- `getIndexByMiner`; the source's -1 is `none`.
unfoldable pub get_index_by_miner : Engine → ℕ → Option ℕ
get_index_by_miner s node = index_by_miner s.miner_list node

-- `getNodeIdByIndex`: `none` where the node found is `h512()`.
unfoldable pub get_node_id_by_index : Engine → ℕ → Option ℕ
get_node_id_by_index s i =
    let node = get_or s.miner_list i 0 in if node == 0 then none else some node

-- `minerList.erase(it)` at the first entry found.
unfoldable pub erase_first : ℕ → List ℕ → List ℕ
erase_first a [] = []
erase_first a (x ∷ xs) = if x == a then xs else x ∷ erase_first a xs

-- The node of a row whose type fits and that is enabled at a height: `some none` where it is not,
-- `none` where a text does not convert.
unfoldable pub enabled_node : ℤ → Bool → MinerRow → Option (Option ℕ)
enabled_node height fits row =
    if fits
    then elim row.enable_num [
      | none ↦ none
      | some n ↦
          if lez n height
          then elim row.node_id [ none ↦ none | some id ↦ some (some id) ]
          else some none
    ]
    else some none

unfoldable pub add_miner : Option ℕ → List ℕ → List ℕ
add_miner none miners = miners
add_miner (some id) miners = if contains miners id then miners else miners ++ id ∷ []

unfoldable pub remove_observer : Option ℕ → List ℕ → List ℕ
remove_observer none miners = miners
remove_observer (some id) miners = erase_first id miners

-- The two loops of `updateMinerList`; `none` where one ends early or throws.
unfoldable pub add_miners : ℤ → List (Option MinerRow) → List ℕ → Option (List ℕ)
add_miners height [] miners = some miners
add_miners height (none ∷ rows) miners = none
add_miners height (some row ∷ rows) miners = elim (enabled_node height row.is_miner row) [
  | none ↦ none
  | some node ↦ add_miners height rows (add_miner node miners)
]

unfoldable pub remove_observers : ℤ → List (Option MinerRow) → List ℕ → Option (List ℕ)
remove_observers height [] miners = some miners
remove_observers height (none ∷ rows) miners = none
remove_observers height (some row ∷ rows) miners = elim (enabled_node height row.is_observer row) [
  | none ↦ none
  | some node ↦ remove_observers height rows (remove_observer node miners)
]

unfoldable pub read_miners : ℤ → List (Option MinerRow) → List ℕ → Option (List ℕ)
read_miners height rows miners = elim (add_miners height rows miners) [
  | none ↦ none
  | some added ↦ remove_observers height rows added
]

-- `updateMinerList`.
unfoldable pub update_miner_list : World → Engine → Engine
update_miner_list w s =
    let height = s.highest.number in
    if eqz height s.last_obtain_miner_num then s else elim w.miner_rows [
      | none ↦ s
      | some rows ↦ (elim (read_miners height rows s.miner_list) [
        | none ↦ s
        | some miners ↦ record s { miner_list = sort miners; last_obtain_miner_num = height }
      ])
    ]

-- The counts that `resetConfig` derives; `(m_nodeNum - 1) / 2` is 0 for 0 nodes in C++ too.
unfoldable pub set_counts : ℕ → ℕ → Engine → Engine
set_counts count i s =
    let n = count % 2 ^ 16 in record s { node_num = n; idx = i % 2 ^ 16; f = (n - 1) / 2 }

-- The end of `resetConfig` where the miners or the node's index among them changed. Where the
-- thread already holds `m_commitMutex`, it waits for it forever.
unfoldable pub restart_role : Bool → World → Engine → Engine × Flow
restart_role true w s = (become_follower invalid_index s, deadlocked)
restart_role false w s = (reset_elect_timeout w (switch_to_follower w invalid_index s), returned)

unfoldable pub find_place : Bool → World → ℕ → Engine → Engine × Flow
find_place held w i s =
    let count = length s.miner_list in
    let found = record s { is_miner = true; cfg_err = false } in
    if not (count == s.node_num) || not (i == s.idx)
    then restart_role held w (set_counts count i found)
    else (found, returned)

-- `resetConfig`; `held` says whether the thread holds `m_commitMutex`. In an empty list the node is
-- not found either.
unfoldable pub reset_config : Bool → World → Engine → Engine × Flow
reset_config held w s =
    let t = update_miner_list w s in
    elim (get_index_by_miner t t.public_key) [
      | none ↦ (record t { cfg_err = true }, returned)
      | some i ↦ find_place held w i t
    ]

-- `initRaftEnv`.
unfoldable pub init_raft_env : World → Engine → Engine
init_raft_env w s = reset_elect_timeout w (init_times w (reset_config false w s).0)
