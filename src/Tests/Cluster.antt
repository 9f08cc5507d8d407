-- ===== src/Tests/Cluster.antt =====
-- A cluster in which server 1 is elected by server 2, and sends it the entry of a client.
use raft_algorep.Base.{
  ℕ, pos, minus_one, List, [], ◌∷◌, Option, none, All-get, result_or, IfReturns, ◌≡◌, refl, Text,
}
use raft_algorep.Config.{GlobalConfig, node_ranks, is_node, is_client}
use raft_algorep.Rpc.{Rpc, request_vote, append_entries, request_client, RpcResponse}
use raft_algorep.Node.{Node, State, follower, new_node}
use raft_algorep.Node.Sourced.{Commands}
use raft_algorep.Update.{start}
use raft_algorep.Follower.{
  check_entry_consistency, accept_entries, append_log, resize, push_entries, save_range,
}
use raft_algorep.Cluster.{Possible, times_out, submits, sends, arrives, start-Submitted}
use raft_algorep.Tests.{g, e₀, node, vote_of}

abbrev g₂ : GlobalConfig
g₂ = record g { rank = 2 }

-- The only command, and its client.
abbrev Submitted : Text → ℕ → Type 0
Submitted t client = (t ≡ 7 ∷ []) × (client ≡ 4)

abbrev run : GlobalConfig → List State → List (Option RpcResponse) → Node
run c stales net = result_or node (start c stales (new_node c net))

-- Server 1 hears nothing, and runs for term 1.
abbrev silent : List (Option RpcResponse)
silent = none ∷ none ∷ none ∷ []

abbrev request : Rpc
request = request_vote (record {
  term = pos 1;
  candidate_id = 1;
  last_log_index = minus_one;
  last_log_term = minus_one;
})

-- Server 2 hears of it, and votes.
abbrev called : List (Option RpcResponse)
called = arrives request 1 ∷ []

-- Server 1 is elected, reads the request of the client, and sends its entry.
abbrev elected : List (Option RpcResponse)
elected =
    none
    ∷ none
    ∷ none
    ∷ arrives (vote_of (pos 1)) 2
    ∷ none
    ∷ arrives (request_client (7 ∷ [])) 4
    ∷ none
    ∷ none
    ∷ []

abbrev update : Rpc
update = append_entries (record {
  term = pos 1;
  leader_id = 1;
  prev_log_index = minus_one;
  prev_log_term = pos 0;
  leader_commit = minus_one;
  entries = e₀ ∷ [];
})

abbrev followed : List (Option RpcResponse)
followed = arrives request 1 ∷ arrives update 1 ∷ []

abbrev turns : List State
turns = follower ∷ follower ∷ follower ∷ follower ∷ []

abbrev two_turns : List State
two_turns = follower ∷ follower ∷ []

request-Possible : Possible Submitted (arrives request 1)
unfolding start new_node node_ranks is_node is_client
request-Possible =
    sends g silent two_turns (run g two_turns silent) (record { rpc = request; dest = 2 }) 0
      (λ i a. All-get (Possible Submitted) silent i a (times_out, (times_out, (times_out, tt))))
      refl refl

vote-Possible : Possible Submitted (arrives (vote_of (pos 1)) 2)
unfolding start new_node node_ranks is_node is_client
vote-Possible =
    sends g₂ called (follower ∷ []) (run g₂ (follower ∷ []) called)
      (record { rpc = vote_of (pos 1); dest = 1 }) 0
      (λ i a. All-get (Possible Submitted) called i a (request-Possible, tt)) refl refl

update-Possible : Possible Submitted (arrives update 1)
unfolding start new_node node_ranks is_node is_client
update-Possible =
    sends g elected turns (run g turns elected) (record { rpc = update; dest = 2 }) 4
      (λ i a. All-get (Possible Submitted) elected i a (
        times_out,
        (
          times_out,
          (
            times_out,
            (
              vote-Possible,
              (times_out, (submits (7 ∷ []) 4 (refl, refl), (times_out, (times_out, tt)))),
            ),
          ),
        ),
      ))
      refl refl

-- Server 2 has the entry of the client.
followed_runs : (run g₂ two_turns followed).logs ≡ e₀ ∷ []
unfolding start new_node node_ranks is_node is_client check_entry_consistency accept_entries
    append_log resize push_entries save_range
followed_runs = refl

start-Submitted_example :
    IfReturns
      (λ n. Commands Submitted n.logs × Commands Submitted n.saved)
      (start g₂ two_turns (new_node g₂ followed))
start-Submitted_example =
    start-Submitted Submitted g₂ followed two_turns (request-Possible, (update-Possible, tt))
