-- ===== src/Pbft/Examples.antt =====
-- The theorems at work on four miners.
pub mod Data
use mathlib.Core.List.{Permᴰ}
use lab_bcos.Base.{
  ℕ, suc, ◌+◌, ◌-◌, ◌≤◌, ◌<◌, ◌≡◌, ◌↔◌, refl, Bool, true, false, ◌&&◌, some, [], ◌∷◌, arith,
}
use lab_bcos.Base.Tests.{ltb}
use lab_bcos.Base.Int.{pos}
use lab_bcos.Base.Dict.{lookup}
use lab_bcos.Pbft.Msg.{prepare_block}
use lab_bcos.Pbft.VoteCache.{votes}
use lab_bcos.Pbft.ReqCache.{
  empty_cache, generate_and_set_sig_list, sig_cache_size, commit_cache_size,
}
use lab_bcos.Pbft.ReqCache.Filed.{CacheOp, run, IsValid, run-IsValid}
use lab_bcos.Pbft.ViewScan.{
  can_trigger_view_change, scan_start, scan_views, scan_entries, scan_entry,
}
use lab_bcos.Pbft.Quorum.{count_nodes, quorums_overlap, leader_rotation}
use lab_bcos.Pbft.Engine.{
  Engine, Env, Body, get_leader, miner_by_index, min_valid_nodes, index_by_miner,
}
use lab_bcos.Pbft.Engine.Config.{
  set_counts, reset_config, find_self, update_node_list, sort, insert_sorted,
}
use lab_bcos.Pbft.Engine.Check.{is_valid_prepare, check_block, check_sig_list, same_list}
use lab_bcos.Pbft.Engine.Commit.{check_and_save}
use lab_bcos.Pbft.Engine.Loop.{handle_msg, check_timeout}
use lab_bcos.Pbft.Engine.Views.{Advances}
use lab_bcos.Pbft.Engine.Rounds.{handle_msg-Advances, check_timeout-Advances}
use lab_bcos.Pbft.Engine.Safety.{Saves, check_and_save-Saves, committed_signatures}
use lab_bcos.Pbft.Engine.Safety.Kept.{votes-check_and_save}
use lab_bcos.Pbft.Engine.Proposal.{
  IsAcceptable, is_valid_prepare_iff, is_valid_prepare-prepare_block,
}
use lab_bcos.Pbft.Engine.Blocks.{copies, check_block-copies}
use lab_bcos.Pbft.Engine.Miners.{leader_agreement, leading_node}
use Data.{signer_of, world, block_6, vote_6, quiet_cache, node_0, packet_3}

check_and_save-Saves_example : Saves world node_0 (check_and_save world node_0)
check_and_save-Saves_example = check_and_save-Saves world node_0

abbrev first_three : ℕ → Bool
first_three i = ltb i 3

abbrev last_three : ℕ → Bool
last_three i = ltb 0 i

quorums_overlap_example :
    suc (set_counts node_0).f
    ≤ count_nodes (set_counts node_0).node_num (λ i. first_three i && last_three i)
unfolding set_counts min_valid_nodes count_nodes
quorums_overlap_example =
    quorums_overlap node_0 first_three last_three (omega arith) (omega arith) (omega arith)
      (omega arith)

leader_rotation_example :
    (k : ℕ) × (k < 4) × (get_leader (record node_0 { view = pos (0 + k) }) ≡ (true, 3))
leader_rotation_example =
    leader_rotation node_0 0 5 3
      (record {
        configured = refl;
        trusted = refl;
        sealed = refl;
        number = refl;
        bounded = omega arith;
      })
      (omega arith)

is_valid_prepare_iff_example :
    (is_valid_prepare world node_0 (prepare_block (signer_of 12) block_6 (pos 0) 1)
      ≡ (node_0, true))
    ↔ IsAcceptable world node_0 (prepare_block (signer_of 12) block_6 (pos 0) 1)
is_valid_prepare_iff_example =
    is_valid_prepare_iff world node_0 (prepare_block (signer_of 12) block_6 (pos 0) 1)

handle_msg-Advances_example : Advances node_0 (handle_msg world node_0 packet_3).0
handle_msg-Advances_example =
    handle_msg-Advances world node_0 packet_3 (omega arith)
      (record { to_view_small = omega arith; number_small = omega arith })

check_timeout-Advances_example : Advances node_0 (check_timeout world node_0)
check_timeout-Advances_example = check_timeout-Advances world node_0 (omega arith) (omega arith)

-- The same miners in another order, as another node sees them.
abbrev other_world : Env
other_world = record world { chain_miners = 12 ∷ 11 ∷ 13 ∷ 14 ∷ [] }

abbrev node_1 : Engine
node_1 = record node_0 { public_key = 12; idx = 1 }

leader_agreement_example :
    (leading_node (reset_config world node_0) ≡ leading_node (reset_config other_world node_1))
    × (get_leader (reset_config world node_0) ≡ get_leader (reset_config other_world node_1))
    × ((i : ℕ)
        → miner_by_index (reset_config world node_0) i
          ≡ miner_by_index (reset_config other_world node_1) i)
unfolding reset_config set_counts find_self update_node_list sort insert_sorted index_by_miner
leader_agreement_example =
    leader_agreement world other_world node_0 node_1 ∣ Permᴰ.swap refl refl ∣₁ refl refl refl refl

votes-check_and_save_example :
    votes 60 (check_and_save world node_0).0.req_cache.commit_cache
    ≡ votes 60 quiet_cache.commit_cache
unfolding lookup
votes-check_and_save_example =
    votes-check_and_save world node_0 60 (λ e. ground (arith, e)) (refl, tt)

run-IsValid_example :
    IsValid
      (run empty_cache (CacheOp.sign_vote (vote_6 0 71) ∷ CacheOp.commit_vote (vote_6 1 72) ∷ []))
run-IsValid_example =
    run-IsValid (CacheOp.sign_vote (vote_6 0 71) ∷ CacheOp.commit_vote (vote_6 1 72) ∷ [])

check_block-copies_example :
    check_block world node_0 (record block_6 { sig_list = copies 3 (0, 71) }) ≡ true
unfolding check_block check_sig_list same_list miner_by_index min_valid_nodes
check_block-copies_example =
    check_block-copies world node_0 block_6 (0, 71) ((1, 72) ∷ (2, 73) ∷ []) refl refl
