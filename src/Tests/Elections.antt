-- ===== src/Tests/Elections.antt =====
-- Elections: three nodes, of which the servers of ranks 1 and 2 run.
use raft_algorep.Base.{
  ℕ, zero, suc, ℤ, pos, minus_one, ◌+ℤ◌, true, false, List, [], ◌∷◌, ◌++◌, Option, none, some,
  result_or, Outcome, ok, fault, Returns, IfReturns, ◌≡◌, refl, arith,
}
use raft_algorep.Config.{GlobalConfig, nb_node, node_ranks, is_node, is_client}
use raft_algorep.Rpc.{Rpc, request_vote, RpcResponse, Packet}
use raft_algorep.Node.{Node, State, follower, leader, candidate, new_node}
use raft_algorep.Node.Voter.{Steps, voter, Onward}
use raft_algorep.Cycle.{Cycle}
use raft_algorep.Update.{start, new_cycle}
use raft_algorep.Update.Votes.{start-Steps, start-Onward}
use raft_algorep.Election.Wins.{vote_message, arriving}
use raft_algorep.Election.Leader.{Majority, Elected, expecting, start-Elected}
use raft_algorep.Candidate.{pre_cycle, handle_node_request}
use raft_algorep.Election.Polls.{begins, hears}
use raft_algorep.Election.Safety.{Reached, Wins, Wins-unique}
use raft_algorep.Tests.{g, node, vote_of}

start-Steps_example :
    IfReturns (λ n. Steps 1 (voter node) (voter n)) (start g (follower ∷ follower ∷ []) node)
start-Steps_example = start-Steps g node (follower ∷ follower ∷ [])

start-Onward_example :
    IfReturns (λ n. Onward (voter node) (voter n)) (start g (follower ∷ follower ∷ []) node)
start-Onward_example = start-Onward g node (follower ∷ follower ∷ [])

-- The vote of the node of rank 3 for term 2.
abbrev votes : List (ℕ × ℤ)
votes = (3, pos 2) ∷ []

votes-Majority : Majority g node.term votes
unfolding is_node nb_node ◌+ℤ◌
votes-Majority = record {
  fresh = (refl, omega arith, refl, tt);
  most = omega arith;
  several = omega arith;
  small = refl;
  next_term = omega arith;
}

start-Elected_example : Returns (Elected g node) (
    start g
      (follower ∷ follower ∷ [])
      (expecting g follower (none ∷ none ∷ (arriving g votes ++ [])) node))
start-Elected_example = start-Elected g follower follower node votes [] votes-Majority

abbrev from : ℕ → Rpc → Option RpcResponse
from sender rpc = some (record { rpc = rpc; sender_id = sender })

abbrev request : ℕ → ℤ → Rpc
request rank t = request_vote (record {
  term = t;
  candidate_id = rank;
  last_log_index = minus_one;
  last_log_term = minus_one;
})

abbrev g₂ : GlobalConfig
g₂ = record g { rank = 2 }

abbrev g₃ : GlobalConfig
g₃ = record g { rank = 3 }

abbrev role : Outcome Node → Option (State × ℤ)
role (ok n) = some (n.state, n.term)
role (fault e) = none

abbrev last_sent : Outcome Node → List Packet
last_sent (ok n) = n.sent
last_sent (fault e) = []

abbrev to : ℕ → Rpc → Packet
to dest rpc = record { rpc = rpc; dest = dest }

-- The vote of server 3 for term 1 reaches server 1 late, in its election for term 2, and is
-- counted; server 3 votes for server 2 in term 2. Both are leaders of term 2.
two_leaders :
    (role (
        start g
          (follower ∷ candidate ∷ candidate ∷ [])
          (new_node g (none ∷ none ∷ none ∷ none ∷ from 3 (vote_of (pos 1)) ∷ [])))
      ≡ some (leader, pos 2))
    × (role (
          start g₂ (follower ∷ follower ∷ follower ∷ []) (
            new_node g₂ (from 1 (request 1 (pos 1)) ∷ none ∷ none ∷ from 3 (vote_of (pos 2)) ∷ [])))
        ≡ some (leader, pos 2))
    × (last_sent (
          start g₃
            (follower ∷ follower ∷ [])
            (new_node g₃ (from 1 (request 1 (pos 1)) ∷ from 2 (request 2 (pos 2)) ∷ [])))
        ≡ to 1 (vote_of (pos 1)) ∷ to 2 (vote_of (pos 2)) ∷ [])
unfolding start new_node node_ranks is_node is_client
two_leaders = (refl, refl, refl)

-- Server 1 wins the election of term 1 with the vote of server 2; server 3 has not started.
abbrev winner_net : List (Option RpcResponse)
winner_net = none ∷ none ∷ from 2 (vote_of (pos 1)) ∷ []

abbrev voter_net : List (Option RpcResponse)
voter_net = from 1 (request 1 (pos 1)) ∷ []

abbrev two_turns : List State
two_turns = follower ∷ follower ∷ []

abbrev servers : ℕ → Node
servers zero = result_or node (start g two_turns (new_node g winner_net))
servers (suc zero) = result_or node (start g₂ (follower ∷ []) (new_node g₂ voter_net))
servers (suc (suc i)) = new_node g₃ []

servers-Reached : (i : ℕ) → Reached (servers i)
unfolding start new_node node_ranks is_node is_client
servers-Reached zero = (g, winner_net, two_turns, refl)
servers-Reached (suc zero) = (g₂, voter_net, follower ∷ [], refl)
servers-Reached (suc (suc i)) = (g₃, [], [], refl)

abbrev runner : Node
runner = record (new_node g []) { state = candidate }

abbrev campaign_end : Outcome Cycle → Cycle
campaign_end m = result_or (new_cycle g follower runner) m

abbrev first_cycle : Cycle
first_cycle = campaign_end (pre_cycle g (new_cycle g follower runner))

abbrev vote : RpcResponse
vote = vote_message (2, pos 1)

abbrev last_cycle : Cycle
last_cycle = (result_or (false, first_cycle) (handle_node_request g vote first_cycle)).1

winner-Wins : Wins g servers 0 last_cycle
unfolding start new_node node_ranks is_node is_client new_cycle pre_cycle handle_node_request ◌+ℤ◌
winner-Wins = record {
  left = true;
  campaign =
      hears vote (begins follower runner refl (omega arith) refl) (λ e. omega arith)
        (0, to 1 (vote_of (pos 1)), refl, refl, refl) (λ t e. cc) refl;
  won = refl;
  in_range = omega arith;
  same_term = refl;
  own_vote = refl;
}

Wins-unique_example : g.rank ≡ g.rank
Wins-unique_example =
    Wins-unique servers servers-Reached g g 0 0 last_cycle last_cycle refl winner-Wins winner-Wins
      refl
