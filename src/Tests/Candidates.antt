-- ===== src/Tests/Candidates.antt =====
-- The candidate, the check of a later term, the crash and the ranks at concrete inputs.
use raft_algorep.Base.{
  map, List, Option, Text, ◌++◌, ℕ, ◌≤◌, ◌<◌, pos, true, false, [], ◌∷◌, none, some, Returns,
  IfReturns, ◌≡◌, refl, arith,
}
use raft_algorep.Config.{init_config, nb_node}
use raft_algorep.Config.Ranks.{roles, roles-partition}
use raft_algorep.Rpc.{
  request_vote_response, RequestVoteResponse, RpcResponse, controller_request,
  ControllerRequestType, crash, start, speed, recovery,
}
use raft_algorep.Clock.{codes, low, get_speed_type}
use raft_algorep.Node.{follower, leader, candidate}
use raft_algorep.Cycle.{Cycle, check_always_should_stop, handle_controller_request}
use raft_algorep.Cycle.Checks.{Checked, check-Checked}
use raft_algorep.Cycle.Crash.{Crashes, crash-durable}
use raft_algorep.Candidate
use raft_algorep.Candidate.Campaign.{running_node, packet_to, others, pre_cycle-campaigns}
use raft_algorep.Config.{node_ranks}
use raft_algorep.Candidate.Tally.{Tally, handle_node_request-Tally, handle_node_request-stale_vote}
use raft_algorep.Update.{new_cycle}
use raft_algorep.Tests.{g, vote_of, node}

abbrev running : Cycle
running = record {
  next_state = none;
  stale = follower;
  node = record node { state = candidate; term = pos 2; voted_for = some 1 };
  vote_count = pos 1;
  has_voted_for_me = false ∷ false ∷ false ∷ [];
}

running-Tally : Tally g running
running-Tally = record { counted = refl; elected = λ e. cc }

handle_node_request-Tally_example :
    IfReturns
      (λ r. Tally g r.1)
      (Candidate.handle_node_request g (record { rpc = vote_of (pos 2); sender_id = 3 }) running)
handle_node_request-Tally_example =
    handle_node_request-Tally g (record { rpc = vote_of (pos 2); sender_id = 3 }) running
      running-Tally

pre_cycle-campaigns_example :
    Returns
      (λ c.
        (c.node ≡ record (running_node g node) {
          sent =
              node.sent
              ++ map
                  (packet_to (Candidate.vote_request g (running_node g node)))
                  (others g.rank (node_ranks g));
        })
        × Tally g c
        × (c.next_state ≡ none))
      (Candidate.pre_cycle g (new_cycle g leader node))
pre_cycle-campaigns_example = pre_cycle-campaigns g leader node (omega arith)

-- A vote of term 1 elects the candidate of term 2.
abbrev late_vote : RequestVoteResponse
late_vote = record { term = pos 1; vote_granted = true }

handle_node_request-stale_vote_example :
    Candidate.handle_node_request g
      (record { rpc = request_vote_response late_vote; sender_id = 3 })
      running
    ≡ Candidate.handle_vote g 3 (record late_vote { term = pos 2 }) running
handle_node_request-stale_vote_example =
    handle_node_request-stale_vote g running 3 late_vote (omega arith)

check-Checked_example :
    Returns
      (Checked (record { rpc = vote_of (pos 5); sender_id = 3 }) running)
      (check_always_should_stop (record { rpc = vote_of (pos 5); sender_id = 3 }) running)
check-Checked_example =
    check-Checked (record { rpc = vote_of (pos 5); sender_id = 3 }) running (omega arith) refl

-- A START and a vote do not wake a crashed server, a SPEED slows it, and a RECOVERY wakes it.
abbrev order : ControllerRequestType → Text → Option RpcResponse
order q message =
    some (record {
      rpc = controller_request (record { request = q; message = message });
      sender_id = 0;
    })

abbrev vote : Option RpcResponse
vote = some (record { rpc = vote_of (pos 5); sender_id = 3 })

abbrev net : List (Option RpcResponse)
net = order start [] ∷ none ∷ vote ∷ order speed (codes "low") ∷ order recovery [] ∷ vote ∷ []

abbrev sleeper : Cycle
sleeper = record running {
  node = record running.node { rpc_reciever = record { reinjected_messages = []; network = net } };
}

crash-durable_example :
    Crashes sleeper
      (some (low, vote ∷ []))
      (handle_controller_request (record { request = crash; message = [] }) sleeper)
unfolding get_speed_type
crash-durable_example = crash-durable [] sleeper refl

roles-partition_example :
    let c = init_config 1 3 1 in
    let r : ℕ = 4 in
    ((r ≡ 0 → roles c r ≡ (true, false, false))
      × (0 < r → r ≤ 3 → roles c r ≡ (false, true, false))
      × (3 < r → r ≤ 4 → roles c r ≡ (false, false, true))
      × (4 < r → roles c r ≡ (false, false, false)))
    × (nb_node c ≡ 3)
roles-partition_example = roles-partition 1 3 1 4
