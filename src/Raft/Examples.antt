-- ===== src/Raft/Examples.antt =====
-- The theorems on the Raft engine at concrete inputs: three miners, 7, 8 and 9, of which 7 is the
-- node.
use lab_bcos.Base.{
  ℕ, ◌+◌, ◌≤◌, ◌<◌, ◌≡◌, ◌↔◌, refl, Bool, true, false, Option, none, some, List, [], ◌∷◌, arith,
}
use lab_bcos.Base.Tests.{◌==◌}
use lab_bcos.Base.Lists.{contains, IsUnique}
use lab_bcos.Base.Dict.{is_some, lookup}
use lab_bcos.Base.Int.{pos, ◌≤ℤ◌, ◌-ℤ◌, dec64}
use lab_bcos.Pbft.Msg.{Header, Block}
use lab_bcos.Pbft.Engine.{index_by_miner}
use lab_bcos.Sealer.{Sealer, SealingBlock}
use lab_bcos.Sealer.Examples.{busy_leader, fresh_sealer}
use lab_bcos.Raft.Types.{
  emit, Engine, World, Role, Flow, Payload, MinerRow, VoteReq, VoteResp, VoteFlag, Heartbeat,
  HeartbeatResp, BlockBytes, no_block, no_votes, is_block, quorum, total_vote_count,
}
use lab_bcos.Raft.Config.{
  get_index_by_miner, get_node_id_by_index, enabled_node, add_miner, remove_observer, erase_first,
  add_miners, remove_observers, read_miners, update_miner_list, set_counts,
}
use lab_bcos.Raft.Config.Miners.{CanRead, counts_as_miner, update_miner_list_lem}
use lab_bcos.Raft.Config.Restart.{has_moved, commit_self-deadlocked}
use lab_bcos.Raft.Roles.{switch_to_follower, init_times, reset_elect_timeout, check_elect_timeout}
use lab_bcos.Raft.Roles.Times.{TimeOp, run_times, boundary, elect_timeout_bounds}
use lab_bcos.Raft.Save.{check_block_valid}
use lab_bcos.Raft.Send.{last_number, send_response, clear_first_vote_cache}
use lab_bcos.Raft.Vote.{
  is_leader, answer, grant, is_majority_vote, handle_vote_request, handle_vote_response, count_vote,
  pred_term, VoteResult,
}
use lab_bcos.Raft.Vote.Election.{tally, one_winner}
use lab_bcos.Raft.Vote.Once.{
  Voted, Heard, asks, beats, hear, TermsKeep, votes_given, AreRising, handle_vote_request-Voted,
  votes_given-AreRising,
}
use lab_bcos.Raft.Vote.Twice.{votes_twice}
use lab_bcos.Raft.Vote.Elected.{take_votes, votes_for, take_votes-quorum}
use lab_bcos.Raft.Heartbeat.{
  is_candidate, is_stale, answer_heartbeat, take_block, follow_heartbeat, compare_terms, step_down,
  handle_heartbeat, take_ack, commit_self, acks,
}
use lab_bcos.Raft.Heartbeat.Acked.{Acked, IsBacked, take_ack-Acked}
use lab_bcos.Raft.Loop.{Place, valid_sender, is_follower, on_recv, start_campaign, give_up}
use lab_bcos.Raft.Sealing.{
  GivenUp, handle_block_start, handle_block_finish, handle_block-switch_to_follower,
}
use lab_bcos.Raft.System.{Node, Thread, Step, Reach, round}
use lab_bcos.Raft.System.Stopped.{broken_heartbeat, broken_packet-stops}
use lab_bcos.Raft.System.Coherent.{IsCoherent}
use lab_bcos.Raft.System.Coherent.Always.{Reach-IsCoherent}
use Role.{leader, follower, candidate}

abbrev genesis : Header
genesis = record {
  number = pos 4;
  hash = 44;
  parent_hash = 43;
  timestamp = 100;
  sealer = 0;
  sealer_list = 7 ∷ 8 ∷ 9 ∷ [];
}

abbrev fresh : Block
fresh = record {
  header = record {
    number = pos 5;
    hash = 55;
    parent_hash = 44;
    timestamp = 200;
    sealer = 0;
    sealer_list = 7 ∷ 8 ∷ 9 ∷ [];
  };
  transactions = 1 ∷ [];
  sig_list = [];
}

abbrev rows : List (Option MinerRow)
rows =
    some
      (record { is_miner = true; is_observer = false; enable_num = some (pos 0); node_id = some 6 })
    ∷ some (record {
      is_miner = false;
      is_observer = true;
      enable_num = some (pos 2);
      node_id = some 9;
    })
    ∷ []

abbrev world : World
world = record {
  now = 1000;
  rand = 17;
  sessions = 8 ∷ 9 ∷ [];
  chain_number = pos 4;
  chain_head = genesis;
  committed_number = pos 5;
  committed_head = fresh.header;
  block_exists = λ hash. hash == 44;
  miner_rows = some rows;
  execute_block = λ b. some (b, 0);
  commit_block = λ b c. true;
}

-- A follower of term 3 that has seen a first vote request.
abbrev node7 : Engine
node7 = record {
  public_key = 7;
  is_miner = true;
  cfg_err = false;
  miner_list = 7 ∷ 8 ∷ 9 ∷ [];
  last_obtain_miner_num = pos 4;
  node_num = 3;
  f = 1;
  idx = 0;
  highest = genesis;
  consensus_number = pos 5;
  allow_future_blocks = true;
  role = follower;
  term = 3;
  last_leader_term = 2;
  leader = 1;
  vote = 1;
  first_vote = 1;
  heartbeat_count = 0;
  member_block = [];
  elect_timeout = 900;
  elect_min = 800;
  elect_max = 1600;
  elect_min_init = 800;
  elect_max_init = 1600;
  elect_min_boundary = 800;
  elect_max_boundary = 2000;
  increase_time = 200;
  last_elect_time = 900;
  heartbeat_timeout = 800;
  heartbeat_interval = 200;
  last_heartbeat_time = 900;
  last_heartbeat_reset = 900;
  last_block_time = 100;
  uncommitted = no_block;
  uncommitted_number = pos 0;
  commit_ready = false;
  waiting = false;
  finger_print = [];
  msg_queue = [];
  out = [];
}

abbrev candidate7 : Engine
candidate7 = record node7 { role = candidate }

-- A leader with a block that one acknowledgement more commits.
abbrev leader7 : Engine
leader7 = record node7 { role = leader; uncommitted = fresh; uncommitted_number = pos 5 }

abbrev req : ℕ → VoteReq
req term = record {
  msg = record { idx = 2; term = term; height = pos 4; block_hash = 44 };
  candidate = 2;
  last_leader_term = 2;
  last_block_number = pos 4;
}

abbrev beat : Heartbeat
beat = record {
  msg = record { idx = 1; term = 5; height = pos 4; block_hash = 44 };
  leader = 1;
  uncommitted_block = BlockBytes.encoded fresh;
  uncommitted_number = pos 5;
}

abbrev grants_vote : VoteResp
grants_vote = record {
  msg = record { idx = 1; term = 3; height = pos 4; block_hash = 44 };
  vote_flag = VoteFlag.granted;
  last_leader_term = 2;
}

abbrev ack : HeartbeatResp
ack = record {
  msg = record { idx = 1; term = 3; height = pos 4; block_hash = 44 };
  uncommitted_hash = 55;
}

abbrev ballots : List ℕ
ballots = 2 ∷ 1 ∷ 2 ∷ []

won : is_majority_vote (set_counts 3 0 node7) (tally 2 ballots) ≡ true
unfolding is_majority_vote set_counts quorum tally
won = refl

one_winner_example : ◌≡◌ {A = ℕ} 2 2
one_winner_example = one_winner 3 0 node7 ballots 2 2 (omega arith) (omega arith) refl won won

handle_vote_request-Voted_example :
    Voted world node7 (req 4) (handle_vote_request world node7 9 (req 4))
handle_vote_request-Voted_example = handle_vote_request-Voted world node7 9 (req 4)

-- A vote in term 4, a heartbeat of term 5, and a vote in term 6 once one was asked for.
abbrev heard : List Heard
heard = asks world 9 (req 4) ∷ beats world 8 beat ∷ asks world 9 (req 6) ∷ []

heard_keeps : TermsKeep heard node7
unfolding hear handle_vote_request handle_heartbeat last_number is_block no_block
    reset_elect_timeout answer send_response contains get_index_by_miner index_by_miner grant emit
    is_stale answer_heartbeat take_block dec64 ◌-ℤ◌ follow_heartbeat compare_terms is_candidate
    step_down clear_first_vote_cache is_leader
heard_keeps = (omega arith, (omega arith, (omega arith, tt)))

is_plain : is_leader node7.role ≡ false
unfolding is_leader
is_plain = refl

votes_given-AreRising_example : AreRising 3 (votes_given heard node7)
votes_given-AreRising_example =
    votes_given-AreRising heard 3 node7 is_plain (omega arith) heard_keeps

take_votes_wins :
    take_votes (grants_vote ∷ []) candidate7 (record no_votes { vote = 1 }) ≡ VoteResult.to_leader
unfolding take_votes handle_vote_response count_vote is_majority_vote quorum pred_term
take_votes_wins = refl

take_votes-quorum_example : quorum candidate7 ≤ 1 + votes_for 3 (grants_vote ∷ [])
take_votes-quorum_example =
    take_votes-quorum (grants_vote ∷ []) candidate7 (record no_votes { vote = 1 }) take_votes_wins

nothing_acked : IsBacked [] leader7
unfolding acks lookup contains
nothing_acked = record { distinct = λ hash. tt; sent = λ hash node h. h }

take_ack-Acked_example : Acked ((8, 55) ∷ []) world leader7 8 (take_ack world leader7 8 ack)
take_ack-Acked_example = take_ack-Acked [] world leader7 8 ack nothing_acked

abbrev system7 : Node
system7 = record { engine = node7; thread = Thread.runs Place.following; sealing = none }

abbrev after7 : Node
after7 = round world Place.following system7

Reach-IsCoherent_example : IsCoherent (is_some after7.sealing) after7.engine
Reach-IsCoherent_example =
    Reach-IsCoherent (Reach.next Reach.here (Step.works world Place.following refl)) refl refl refl
      refl

abbrev broken7 : Node
broken7 =
    round world Place.following
      (record system7 { engine = on_recv 8 1 (some (some (Payload.heartbeat none))) node7 })

from_8 : valid_sender node7 8 1 ≡ some 1
unfolding valid_sender get_node_id_by_index get_index_by_miner index_by_miner
from_8 = refl

early : check_elect_timeout world node7 ≡ false
unfolding check_elect_timeout
early = refl

follows : is_follower node7.role ≡ true
unfolding is_follower
follows = refl

broken_packet-stops_example : broken7.thread ≡ Thread.stopped
broken_packet-stops_example =
    broken_packet-stops world system7 broken7 8 1 1 (Payload.heartbeat none) broken_heartbeat
      follows refl from_8 early Reach.here

commit_self-deadlocked_example : ((commit_self world leader7).1 ≡ Flow.deadlocked) ↔ (
    (check_block_valid world leader7 fresh ≡ true)
    × (is_some (world.execute_block fresh) ≡ true)
    × (has_moved world leader7 ≡ true))
commit_self-deadlocked_example = commit_self-deadlocked world leader7

abbrev outdated7 : Engine
outdated7 = record node7 { last_obtain_miner_num = pos 3 }

can_read : CanRead world outdated7 rows (7 ∷ 8 ∷ 6 ∷ [])
unfolding read_miners add_miners remove_observers enabled_node add_miner remove_observer erase_first
    contains
can_read = record { grown = refl; table = refl; complete = refl }

three-IsUnique : IsUnique outdated7.miner_list
unfolding contains
three-IsUnique = (refl, (refl, (refl, tt)))

update_miner_list_lem_example :
    ((x : ℕ)
      → contains (update_miner_list world outdated7).miner_list x
        ≡ counts_as_miner (pos 4) rows (7 ∷ 8 ∷ 9 ∷ []) x)
    × ((update_miner_list world outdated7).last_obtain_miner_num ≡ pos 4)
update_miner_list_lem_example =
    update_miner_list_lem world outdated7 rows (7 ∷ 8 ∷ 6 ∷ []) three-IsUnique can_read

abbrev ops : List TimeOp
ops = TimeOp.increase ∷ TimeOp.increase ∷ TimeOp.reset world ∷ TimeOp.recover ∷ []

elect_timeout_bounds_example :
    (800 ≤ (reset_elect_timeout world (run_times ops (init_times world node7))).elect_timeout)
    × ((reset_elect_timeout world (run_times ops (init_times world node7))).elect_timeout
        ≤ boundary node7)
elect_timeout_bounds_example =
    elect_timeout_bounds world world ops node7 (omega arith) (omega arith)

abbrev own7 : Engine
own7 = (start_campaign world candidate7).0

abbrev other7 : Engine × Bool
other7 = handle_vote_request world (give_up world own7 (record no_votes { vote = 1 })) 9 (req 3)

long_enough : last_number world candidate7 ≤ℤ (req 3).last_block_number
unfolding last_number is_block no_block
long_enough = omega arith

stands : is_candidate candidate7.role ≡ true
unfolding is_candidate
stands = refl

many : 1 < quorum candidate7
unfolding quorum
many = omega arith

few : total_vote_count (record no_votes { vote = 1 }) < quorum candidate7
unfolding total_vote_count no_votes quorum
few = omega arith

votes_twice_example :
    (own7.vote ≡ 0)
    × (own7.term ≡ 3)
    × (other7.1 ≡ true)
    × (other7.0.vote ≡ 2)
    × (other7.0.term ≡ 3)
votes_twice_example =
    votes_twice world world world candidate7 (record no_votes { vote = 1 }) 9 (req 3) stands many
      refl (λ e. absurd (omega arith)) (omega arith) (omega arith) few refl (omega arith)
      long_enough

-- The hash of a sealed block.
abbrev to_block : SealingBlock → Block
to_block b = record {
  header = record {
    number = pos b.number;
    hash = 55;
    parent_hash = b.parent_hash;
    timestamp = b.timestamp;
    sealer = 0;
    sealer_list = b.sealer_list;
  };
  transactions = [];
  sig_list = [];
}

abbrev started7 : Sealer × Engine
started7 = handle_block_start to_block busy_leader fresh_sealer leader7

handle_block-switch_to_follower_example : GivenUp to_block [] (
    handle_block_finish to_block world busy_leader started7.0
      (switch_to_follower world 1 started7.1))
handle_block-switch_to_follower_example =
    handle_block-switch_to_follower to_block world world busy_leader busy_leader 1 fresh_sealer
      leader7
