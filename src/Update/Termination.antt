-- ===== src/Update/Termination.antt =====
-- The loops of a server end, and Cycle::changeNextState is called at most once in a cycle.
use raft_algorep.Base.{
  ℕ, ◌≤◌, Bool, true, false, List, Outcome, ok, fault, ◌>>=◌, ◌-◌, assertion, state_changed_twice,
  out_of_fuel, Ends, Ends-bind, Ends-mono, Ends-fault, ◌≢◌, refl, arith, if◌then◌else◌,
}
use raft_algorep.Config.{GlobalConfig, node_ranks}
use raft_algorep.Rpc.{
  Rpc, request_vote, request_vote_response, request_leader, request_client, append_entries,
  RpcResponse,
}
use raft_algorep.Reciever.{pending}
use raft_algorep.Node.Quiet.{Quiet}
use raft_algorep.Leader.Frame.{response-Quiet, commit_loop-Quiet}
use raft_algorep.Node.{Node, send_rpc, State, follower, leader, candidate}
use raft_algorep.Cycle.{
  Cycle, check_always_should_stop, change_next_state, client_request_leader_response,
}
use raft_algorep.Follower
use raft_algorep.Follower.{follower_cycle}
use raft_algorep.Candidate
use raft_algorep.Candidate.{candidate_cycle}
use raft_algorep.Leader
use raft_algorep.Leader.{leader_cycle}
use raft_algorep.Update.{update, class_of, new_cycle, peek, turn, start}
use raft_algorep.Update.Faults.{Allowed, Clean-Ends}
use raft_algorep.Update.Clean.{
  handle_append_entries-Clean, update_followers-Clean, response-Clean, commit_loop-Clean,
}
use raft_algorep.Update.Rule.{start-Ends}
use raft_algorep.Update.Ending.{Kept, Free, Ended, Ending, update-Ended}

check-Kept :
    (m : RpcResponse) (c : Cycle) → Free c → Ends Allowed (Kept c) (check_always_should_stop m c)
unfolding check_always_should_stop change_next_state
check-Kept m c h = ground arith

-- The shape of the three `handle_node_request`: what follows the check.
checked-Kept :
    (m : RpcResponse) (rest : Cycle → Outcome (Bool × Cycle)) (c : Cycle)
    → ((d : Cycle) → Free d → Ends Allowed (Kept d) (rest d))
    → Free c
    → Ends Allowed
        (Kept c)
        (check_always_should_stop m c >>= λ r. if r.0 then ok (true, r.1) else rest r.1)
checked-Kept m rest c k h =
    Ends-bind Allowed (Kept c) (Kept c) (check_always_should_stop m c) _ (check-Kept m c h) after
  where
    after :
        (r : Bool × Cycle)
        → Kept c r
        → Ends Allowed (Kept c) (if r.0 then ok (true, r.1) else rest r.1)
    after (true, d) _ = tt
    after (false, d) (free, le) =
        Ends-mono Allowed (Kept d) (Kept c) (rest d) (k d free) (longer d le)
      where
        longer :
            (d : Cycle)
            → pending d.node.rpc_reciever ≤ pending c.node.rpc_reciever
            → (r : Bool × Cycle) → Kept d r
            → Kept c r
        longer d le (true, e) j = tt
        longer d le (false, e) (f, j) = (f, omega arith)

follower_dispatch-Kept :
    (rpc : Rpc) (sender : ℕ) (c : Cycle)
    → Free c
    → Ends Allowed (Kept c) (Follower.dispatch rpc sender c)
unfolding Follower.dispatch
follower_dispatch-Kept (append_entries m) sender c h =
    Ends-bind Allowed Ended (Kept c) (Follower.handle_append_entries sender m c.node) _
      (handle_append_entries-Clean sender m c.node).ends (λ n _. tt)
follower_dispatch-Kept (request_vote m) sender c h = tt
follower_dispatch-Kept _ sender c h = (h, omega arith)

leader_reply-Kept :
    (m : RpcResponse) (c : Cycle) → Free c → Kept c (false, client_request_leader_response m c)
unfolding client_request_leader_response send_rpc
leader_reply-Kept m c h = (h, omega arith)

follower_client-Kept :
    (rpc : Rpc) (m : RpcResponse) (c : Cycle)
    → Free c
    → Ends Allowed (λ d. Kept c (false, d)) (Follower.client_request rpc m c)
unfolding Follower.client_request
follower_client-Kept request_leader m c h = leader_reply-Kept m c h
follower_client-Kept _ m c h = (h, omega arith)

follower-Ending : Ending follower_cycle
unfolding follower_cycle Follower.handle_node_request Follower.handle_client_request
    Follower.post_cycle change_next_state
follower-Ending = record {
  on_start = λ c h. h;
  on_node = λ m c h.
      checked-Kept m (Follower.dispatch m.rpc m.sender_id) c
        (follower_dispatch-Kept m.rpc m.sender_id) h;
  on_client = λ m c h. follower_client-Kept m.rpc m c h;
  on_timeout = λ c h. ground arith;
  on_exit = λ c. tt;
}

module _ (g : GlobalConfig) where
  count_vote-Kept :
      (slot : ℕ) (c : Cycle) → Free c → Ends Allowed (Kept c) (Candidate.count_vote g slot c)
  unfolding Candidate.count_vote Candidate.increment change_next_state
  count_vote-Kept slot c h = ground arith

  candidate_dispatch-Kept :
      (rpc : Rpc) (m : RpcResponse) (c : Cycle)
      → Free c
      → Ends Allowed (Kept c) (Candidate.dispatch g rpc m c)
  unfolding Candidate.dispatch Candidate.handle_vote Candidate.yield_to change_next_state
  candidate_dispatch-Kept (request_vote_response v) m c h =
      ground (arith, count_vote-Kept (m.sender_id - g.nb_node_min) c h)
  candidate_dispatch-Kept (append_entries a) m c h = ground arith
  candidate_dispatch-Kept _ m c h = (h, omega arith)

  candidate-Ending : Ending (candidate_cycle g)
  unfolding candidate_cycle Candidate.handle_node_request Candidate.pre_cycle Candidate.increment
      Candidate.post_cycle
  candidate-Ending = record {
    on_start = λ c h. ground arith;
    on_node = λ m c h.
        checked-Kept m (Candidate.dispatch g m.rpc m) c (candidate_dispatch-Kept m.rpc m) h;
    on_client = λ m c h. (h, omega arith);
    on_timeout = λ c h. tt;
    on_exit = λ c. tt;
  }

  leader_rest-Kept :
      (m : RpcResponse) (c : Cycle)
      → Free c
      → Ends Allowed (Kept c) (
          Leader.response g m.rpc m.sender_id c.node >>= λ n.
          Leader.commit_loop g (Leader.commit_fuel g n) n >>= λ n'.
          ok (false, record c { node = n' }))
  leader_rest-Kept m c h =
      Ends-bind Allowed (Quiet c.node) (Kept c) (Leader.response g m.rpc m.sender_id c.node) _
        (Clean-Ends (Quiet c.node) _ (response-Clean g m.rpc m.sender_id c.node)
          (response-Quiet g m.rpc m.sender_id c.node))
        λ n q.
          Ends-bind Allowed (Quiet n) (Kept c) (Leader.commit_loop g (Leader.commit_fuel g n) n) _
            (Clean-Ends (Quiet n) _ (commit_loop-Clean g n)
              (commit_loop-Quiet g (Leader.commit_fuel g n) n))
            λ n' q'. (h, rw (q'.same_reciever, q.same_reciever) (omega arith))

  leader_client-Kept :
      (rpc : Rpc) (m : RpcResponse) (c : Cycle)
      → Free c
      → Ends Allowed (λ d. Kept c (false, d)) (Leader.client_request g rpc m c)
  unfolding Leader.client_request
  leader_client-Kept request_leader m c h = leader_reply-Kept m c h
  leader_client-Kept (request_client message) m c h = (h, omega arith)
  leader_client-Kept _ m c h = (h, omega arith)

  leader-Ending : Ending (leader_cycle g)
  unfolding leader_cycle Leader.handle_node_request Leader.pre_cycle Leader.handle_client_request
  leader-Ending = record {
    on_start = λ c h.
        Ends-bind Allowed Ended Free (Leader.update_followers g (node_ranks g) _) _
          (update_followers-Clean g (node_ranks g) _).ends (λ n _. h);
    on_node = λ m c h. checked-Kept m _ c (leader_rest-Kept m) h;
    on_client = λ m c h. leader_client-Kept m.rpc m c h;
    on_timeout = λ c h. tt;
    on_exit = λ c. tt;
  }

  turn-Ended : (stale : State) (n : Node) → Ends Allowed Ended (turn g stale n)
  unfolding turn new_cycle
  turn-Ended stale n = by_state (peek g n).state
    where
      c : Cycle
      c = new_cycle g stale (peek g n)

      by_state : (s : State) → Ends Allowed Ended (update g (class_of g s) c)
      by_state follower =
          unfold class_of in update-Ended g (follower_cycle) (follower-Ending) c refl
      by_state leader = unfold class_of in update-Ended g (leader_cycle g) (leader-Ending) c refl
      by_state candidate =
          unfold class_of in update-Ended g (candidate_cycle g) (candidate-Ending) c refl

-- Whatever a server's state and the messages that arrive, any number of turns of its main loop end
-- with the fuel that the loops of a turn are given, and Cycle::changeNextState never finds that the
-- next state is already chosen.
pub start_ends :
    (g : GlobalConfig) (stales : List State) (n : Node)
    → (start g stales n ≢ fault out_of_fuel)
      × (start g stales n ≢ fault (assertion state_changed_twice))
start_ends g stales n = (
  (λ e. Ends-fault Allowed Ended (start g stales n) ended e),
  (λ e. Ends-fault Allowed Ended (start g stales n) ended e),
)
  where
    ended : Ends Allowed Ended (start g stales n)
    ended = start-Ends g Allowed Ended (λ stale n _. turn-Ended g stale n) stales n tt
