-- ===== src/Tests/Leaders.antt =====
-- The leader and replication at concrete inputs.
use raft_algorep.Base.{
  ℕ, ◌≤◌, ◌<◌, pos, ◌+ℤ◌, int_laws, true, false, [], ◌∷◌, none, some, ok, IfReturns, ◌≡◌, refl,
  arith,
}
use raft_algorep.Config.{node_ranks, nb_node, is_node}
use raft_algorep.Rpc.{request_client, append_entries_response, AppendEntries, AppendEntriesResponse}
use raft_algorep.Node.{init_leader, Node, follower, leader}
use raft_algorep.Cycle.{Cycle}
use raft_algorep.Follower.{handle_append_entries}
use raft_algorep.Leader.{update_message, commit_loop, leader_cycle}
use raft_algorep.Leader.Appends.{Appends}
use raft_algorep.Update.{update, new_cycle}
use raft_algorep.Update.Appends.{leader_cycle-Appends}
use raft_algorep.Leader
use raft_algorep.Leader.Bounded.{Leading}
use raft_algorep.Leader.Responses.{init_leader-Leading, recorded, handle_node_request-commits}
use raft_algorep.Leader.Commit.{Ready, Committed, commits, Majority, holders, commit_loop-Committed}
use raft_algorep.Replication.{InStep, update-replicates}
use raft_algorep.Tests.{g, e₀, e₁, node, behind}

node-Ready : Ready g node 1
unfolding ◌+ℤ◌ node_ranks nb_node holders
node-Ready = record {
  committed = refl;
  in_log = omega arith;
  slots = (omega arith, (omega arith, (omega arith, tt)));
  no_further = λ i m. ground arith;
}

commit_loop-Committed_example : (b : ℕ) × Committed g node 1 b (commit_loop g 4 node)
commit_loop-Committed_example = commit_loop-Committed g 4 node 1 node-Ready (omega arith)

abbrev leading : Cycle
leading = record {
  next_state = none;
  stale = follower;
  node = record node { state = leader };
  vote_count = pos 0;
  has_voted_for_me = [];
}

node-Leading : Leading g leading.node 1
unfolding ◌+ℤ◌ nb_node
node-Leading = record {
  others = omega arith;
  committed = refl;
  in_log = omega arith;
  match_slots = refl;
  next_slots = refl;
  bounded = (omega arith, (omega arith, (omega arith, tt)));
}

abbrev stored : AppendEntriesResponse
stored = record { term = pos 1; success = true; new_index = pos 2 }

handle_node_request-commits_example :
    (b : ℕ) × (Leader.handle_node_request g
        (record { rpc = append_entries_response stored; sender_id = 3 })
        leading
      ≡ ok (false, record leading { node = commits g (recorded g 3 stored leading.node) 1 b }))
    × (1 ≤ b)
    × ((i : ℕ) → 1 ≤ i → i < b → Majority g (recorded g 3 stored leading.node).match_index i)
    × (¬ Majority g (recorded g 3 stored leading.node).match_index b)
    × Leading g (commits g (recorded g 3 stored leading.node) 1 b) b
handle_node_request-commits_example =
    handle_node_request-commits g 3 stored leading 1 node-Leading (unfold is_node in refl)
      (omega arith) refl (omega int_laws)

in_step : InStep g 3 node 1 behind 0 1
unfolding ◌+ℤ◌
in_step = record {
  next = refl;
  known = omega arith;
  indexed = (refl, (refl, tt));
  leader_commit = refl;
  committed = omega arith;
  not_newer = omega arith;
  agree = refl;
  own_commit = refl;
}

update-replicates_example :
    (m : AppendEntries) × (f' : Node) × (update_message g 3 node ≡ ok m)
    × (handle_append_entries 1 m behind ≡ ok f')
    × (f'.logs ≡ e₀ ∷ e₁ ∷ [])
    × (f'.commit_index ≡ pos 0)
    × (f'.saved ≡ e₀ ∷ [])
    × (f'.term ≡ pos 1)
    × (f'.voted_for ≡ none)
update-replicates_example = update-replicates g 3 node 1 behind 0 1 in_step

init_leader-Leading_example : Leading g (init_leader node) 1
init_leader-Leading_example =
    init_leader-Leading g node 1 (unfold nb_node in omega arith) (unfold ◌+ℤ◌ in refl) (omega arith)
      (unfold nb_node in refl) (unfold nb_node in refl)

-- A leader to which a client's entry comes, and then the answer of a follower.
abbrev serving : Node
serving = record node {
  state = leader;
  rpc_reciever = record {
    reinjected_messages = [];
    network =
        some (record { rpc = request_client (9 ∷ []); sender_id = 4 })
        ∷ some (record { rpc = append_entries_response stored; sender_id = 3 })
        ∷ none
        ∷ [];
  };
}

leader_cycle-Appends_example :
    IfReturns (Appends serving) (update g (leader_cycle g) (new_cycle g leader serving))
leader_cycle-Appends_example = leader_cycle-Appends g leader serving
