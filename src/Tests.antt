-- ===== src/Tests.antt =====
-- The theorems at concrete inputs, and runs of the model: three nodes, of which this is rank 1, and
-- one client, rank 4.
mod Leaders
mod Json
mod Messages
mod Control
mod Elections
mod Cluster
mod Files
mod Main
mod Clients
mod Commands
mod Followers
mod Candidates
use raft_algorep.Base.{
  ℕ, ℤ, pos, minus_one, true, false, List, [], ◌∷◌, Option, none, some, Outcome, ok, fault,
  out_of_fuel, assertion, state_changed_twice, ◌≢◌, IfReturns, ◌≡◌, refl,
}
use raft_algorep.Config.{GlobalConfig, init_config, node_ranks, is_node, is_client}
use raft_algorep.Rpc.{
  Entry, Rpc, request_vote_response, append_entries_response, request_client, RpcResponse, crash,
}
use raft_algorep.Node.{Node, State, follower, leader, new_node}
use raft_algorep.Node.Votes.{OneVote}
use raft_algorep.Update.{start}
use raft_algorep.Node.Logged.{WellLogged}
use raft_algorep.Node.Sourced.{Sourced}
use raft_algorep.Update.Sourced.{start-Sourced}
use raft_algorep.Update.Logged.{start-WellLogged}
use raft_algorep.Update.Termination.{start_ends}
use raft_algorep.Update.Votes.{start-OneVote}

abbrev pub g : GlobalConfig
g = record { rank = 1; nb_node_min = 1; nb_node_max = 3; nb_client_min = 4; nb_client_max = 4 }

g-init : g ≡ init_config 1 3 1
unfolding init_config
g-init = refl

abbrev from : ℕ → Rpc → Option RpcResponse
from sender rpc = some (record { rpc = rpc; sender_id = sender })

abbrev pub vote_of : ℤ → Rpc
vote_of t = request_vote_response (record { term = t; vote_granted = true })

-- An election, a client's entry, its replication and its commit.
abbrev pub election : List (Option RpcResponse)
election =
    none
    ∷ none
    ∷ none
    ∷ from 2 (vote_of (pos 1))
    ∷ none
    ∷ from 4 (request_client (7 ∷ []))
    ∷ none
    ∷ none
    ∷ from 3 (append_entries_response (record { term = pos 1; success = true; new_index = pos 1 }))
    ∷ none
    ∷ []

abbrev pub turns : List State
turns = follower ∷ follower ∷ follower ∷ follower ∷ []

abbrev pub e₀ : Entry
e₀ = record { index = pos 0; term = pos 1; cmd = 7 ∷ []; client_id = 4 }

abbrev pub e₁ : Entry
e₁ = record { index = pos 1; term = pos 1; cmd = 8 ∷ []; client_id = 4 }

-- The node of this process ends as the leader of term 1 with its entry committed and saved.
abbrev outcome : Outcome Node → Option (State × ℤ × List Entry × ℤ × List Entry)
outcome (ok n) = some (n.state, n.term, n.logs, n.commit_index, n.saved)
outcome (fault e) = none

election_runs :
    outcome (start g turns (new_node g election)) ≡ some (leader, pos 1, e₀ ∷ [], pos 0, e₀ ∷ [])
unfolding start new_node node_ranks is_node is_client
election_runs = refl

start-OneVote_example : IfReturns OneVote (start g turns (new_node g election))
start-OneVote_example = start-OneVote g election turns

start-WellLogged_example : IfReturns (WellLogged g) (start g turns (new_node g election))
start-WellLogged_example = start-WellLogged g election turns

start-Sourced_example :
    IfReturns
      (Sourced (λ message client. (message ≡ 7 ∷ []) × (client ≡ 4)))
      (start g turns (new_node g election))
start-Sourced_example =
    start-Sourced (λ message client. (message ≡ 7 ∷ []) × (client ≡ 4)) g election turns
      (tt, (tt, (tt, (tt, (tt, ((refl, refl), (tt, (tt, (tt, (tt, tt))))))))))

start_ends_example :
    (start g turns (new_node g election) ≢ fault out_of_fuel)
    × (start g turns (new_node g election) ≢ fault (assertion state_changed_twice))
start_ends_example = start_ends g turns (new_node g election)

-- A node with a log of two entries of which one is committed.
abbrev pub node : Node
node = record {
  state = follower;
  logs = e₀ ∷ e₁ ∷ [];
  rpc_reciever = record { reinjected_messages = []; network = [] };
  term = pos 1;
  voted_for = none;
  leader_id = none;
  match_index = minus_one ∷ pos 1 ∷ minus_one ∷ [];
  next_index = pos 2 ∷ pos 2 ∷ pos 1 ∷ [];
  commit_index = pos 0;
  crash = false;
  clock = raft_algorep.Clock.high;
  sent = [];
  saved = e₀ ∷ [];
}

abbrev pub behind : Node
behind = record node { logs = e₀ ∷ []; commit_index = minus_one; saved = [] }
