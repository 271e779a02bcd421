-- ===== src/Pbft/Engine/Config.antt =====
-- The set of miners: `updateConsensusNodeList`, `resetConfig` and `initPBFTEnv`. The list that the
-- P2P module is told is not modelled.
use lab_bcos.Base.{ℕ, ◌-◌, ◌/◌, ◌%◌, ◌^◌, false, none, some, List, [], ◌∷◌}
use lab_bcos.Base.Tests.{leb, ◌==◌, if◌then◌else◌}
use lab_bcos.Base.Lists.{length}
use lab_bcos.Base.Int.{pos}
use lab_bcos.Pbft.Msg.{max_idx}
use lab_bcos.Pbft.ReqCache.{ReqCache}
use lab_bcos.Pbft.Time.{init_timer_manager}
use lab_bcos.Pbft.Engine.{Engine, Env, AccountType, index_by_miner}
use AccountType.{miner}

-- `std::sort`.
unfoldable pub insert_sorted : ℕ → List ℕ → List ℕ
insert_sorted a [] = a ∷ []
insert_sorted a (x ∷ xs) = if leb a x then a ∷ x ∷ xs else x ∷ insert_sorted a xs

unfoldable pub sort : List ℕ → List ℕ
sort [] = []
sort (x ∷ xs) = insert_sorted x (sort xs)

-- `updateConsensusNodeList`.
unfoldable pub update_node_list : Env → Engine → Engine
update_node_list env s = record s { miner_list = sort env.chain_miners }

-- The loop of `resetConfig` that looks for the node itself.
unfoldable pub find_self : Engine → Engine
find_self s = elim (index_by_miner s.miner_list s.public_key) [
  | none ↦ s
  | some i ↦ record s { account_type = miner; idx = i % 2 ^ 16 }
]

-- The counts that follow from the list; `(m_nodeNum - 1) / 3` is 0 for 0 nodes in C++ too.
unfoldable pub set_counts : Engine → Engine
set_counts s =
    let n = length s.miner_list % 2 ^ 16 in
    record s { node_num = n; f = (n - 1) / 3; cfg_err = s.idx == max_idx }

-- `resetConfig`.
unfoldable pub reset_config : Env → Engine → Engine
reset_config env s = set_counts (find_self (update_node_list env (record s { idx = max_idx })))

-- `reloadMsg` into the committed-prepare cache: a missing record changes nothing, and one that is
-- there decodes.
unfoldable pub reload_msg : Env → ReqCache → ReqCache
reload_msg env c = elim env.saved_commit [
  | none ↦ c
  | some p ↦ record c {
    committed_prepare_cache = record p { exec_context = c.committed_prepare_cache.exec_context };
  }
]

-- `initPBFTEnv`, where the disk space suffices.
unfoldable pub init_pbft_env : Env → Engine → ℕ → Engine
init_pbft_env env s view_timeout =
    let t = reset_config env s in
    record t {
      consensus_number = pos 0;
      view = pos 0;
      to_view = pos 0;
      leader_failed = false;
      req_cache = reload_msg env t.req_cache;
      time = init_timer_manager t.time env.signer.now view_timeout;
      connected_node = t.node_num;
    }
