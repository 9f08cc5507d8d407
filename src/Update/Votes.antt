-- ===== src/Update/Votes.antt =====
-- The votes of a server over whole runs: Node::start refines the steps of a voter.
use raft_algorep.Base.{
  ℕ, Bool, true, false, List, Option, some, ok, Ends, Ends-ok, IfReturns, IfReturns-bind,
  IfReturns-if, IfReturns-mono, refl, arith,
}
use raft_algorep.Config.{GlobalConfig, node_ranks}
use raft_algorep.Rpc.{
  Rpc, request_vote, append_entries, request_leader, request_client, RpcResponse, ControllerRequest,
}
use raft_algorep.Node.{Node, State, new_node, init_leader}
use raft_algorep.Node.Quiet.{Quiet, send_rpc-Quiet}
use raft_algorep.Node.Votes.{OneVote}
use raft_algorep.Node.Voter.{
  Steps, rests, voter, Steps-trans, Quiet-Steps, Steps-OneVote, Onward, Steps-Onward,
}
use raft_algorep.Cycle.{
  Cycle, client_request_leader_response, change_next_state, check_always_should_stop,
  handle_controller_request,
}
use raft_algorep.Cycle.Checks.{check-Steps}
use raft_algorep.Cycle.Crash.{Frozen, controller-Frozen}
use raft_algorep.Follower
use raft_algorep.Follower.{follower_cycle}
use raft_algorep.Follower.Frame.{handle_append_entries-Quiet}
use raft_algorep.Follower.Votes.{handle_request_vote-Steps}
use raft_algorep.Candidate
use raft_algorep.Candidate.{candidate_cycle}
use raft_algorep.Candidate.Frame.{pre_cycle-Steps, SameNode, dispatch-SameNode}
use raft_algorep.Leader
use raft_algorep.Leader.{leader_cycle}
use raft_algorep.Leader.Frame.{update_followers-Quiet, commit_loop-Quiet, response-Quiet}
use raft_algorep.Update.{peek, start}
use raft_algorep.Update.Rule.{AnyMessage, finished, Split}
use raft_algorep.Update.Keeps.{Any, After, both, KeepsRule, start-Keeps}

module _ (g : GlobalConfig) (n₀ : Node) where
  -- What the server has become of `n₀`, as a voter.
  abbrev W : Node → Type 0
  W n = Steps g.rank (voter n₀) (voter n)

  -- The invariant of a cycle.
  abbrev V : Cycle → Type 0
  V c = W c.node

  Quiet-W : {n n' : Node} → Quiet n n' → W n → W n'
  Quiet-W q v = Steps-trans g.rank v (Quiet-Steps g.rank q)

  check-W :
      (m : RpcResponse) (c : Cycle)
      → V c
      → IfReturns (λ r. W r.1.node) (check_always_should_stop m c)
  check-W m c v =
      IfReturns-mono _ (λ r. W r.1.node) _ (check-Steps g.rank m c) (λ r s. Steps-trans g.rank v s)

  controller-V :
      (r : ControllerRequest) (c : Cycle)
      → V c
      → Ends Any (Split V V) (handle_controller_request r c)
  controller-V r c v = both W (handle_controller_request r c) (
      IfReturns-mono (λ x. Frozen c x.1) (After W) (handle_controller_request r c)
        (controller-Frozen r c) (λ x f. rw f v))

  leader_reply-V : (m : RpcResponse) (c : Cycle) → V c → V (client_request_leader_response m c)
  unfolding client_request_leader_response
  leader_reply-V m c v = Quiet-W (send_rpc-Quiet _ m.sender_id c.node refl) v

  follower_dispatch-V :
      (rpc : Rpc) (sender : ℕ) (c : Cycle)
      → V c
      → IfReturns (λ r. W r.1.node) (Follower.dispatch rpc sender c)
  unfolding Follower.dispatch
  follower_dispatch-V (request_vote m) sender c v =
      Steps-trans g.rank v (handle_request_vote-Steps g.rank sender m c.node)
  follower_dispatch-V (append_entries m) sender c v =
      IfReturns-bind _ (Follower.handle_append_entries sender m c.node) _ λ n e.
        Quiet-W (Ends-ok _ (Quiet c.node) _ (handle_append_entries-Quiet sender m c.node) e) v
  follower_dispatch-V _ sender c v = v

  follower_node-V :
      (m : RpcResponse) (c : Cycle)
      → V c
      → IfReturns (λ r. W r.1.node) (Follower.handle_node_request m c)
  unfolding Follower.handle_node_request
  follower_node-V m c v = IfReturns-bind _ (check_always_should_stop m c) _ λ r e.
      IfReturns-if _ r.0 (ok (true, r.1)) (Follower.dispatch m.rpc m.sender_id r.1)
        (λ _. Ends-ok _ _ _ (check-W m c v) e)
        (λ _. follower_dispatch-V m.rpc m.sender_id r.1 (Ends-ok _ _ _ (check-W m c v) e))

  candidate_node-V :
      (m : RpcResponse) (c : Cycle)
      → V c
      → IfReturns (λ r. W r.1.node) (Candidate.handle_node_request g m c)
  unfolding Candidate.handle_node_request
  candidate_node-V m c v = IfReturns-bind _ (check_always_should_stop m c) _ λ r e.
      IfReturns-if _ r.0 (ok (true, r.1)) (Candidate.dispatch g m.rpc m r.1)
        (λ _. Ends-ok _ _ _ (check-W m c v) e)
        (λ _.
          IfReturns-mono (SameNode r.1) (λ x. W x.1.node) _ (dispatch-SameNode g m.rpc m r.1)
            (λ x s. rw s (Ends-ok _ _ _ (check-W m c v) e)))

  leader_node-V :
      (m : RpcResponse) (c : Cycle)
      → V c
      → IfReturns (λ r. W r.1.node) (Leader.handle_node_request g m c)
  unfolding Leader.handle_node_request
  leader_node-V m c v = IfReturns-bind _ (check_always_should_stop m c) _ λ r e.
      IfReturns-if _ r.0 (ok (true, r.1)) _ (λ _. Ends-ok _ _ _ (check-W m c v) e)
        (λ _. IfReturns-bind _ (Leader.response g m.rpc m.sender_id r.1.node) _ λ n e'.
          IfReturns-bind _ (Leader.commit_loop g (Leader.commit_fuel g n) n) _ λ n' e''.
            Quiet-W (Ends-ok _ (Quiet n) _ (commit_loop-Quiet g (Leader.commit_fuel g n) n) e'') (
              Quiet-W
                (Ends-ok _ (Quiet r.1.node) _ (response-Quiet g m.rpc m.sender_id r.1.node) e')
                (Ends-ok _ _ _ (check-W m c v) e)))

  follower_client-V :
      (rpc : Rpc) (m : RpcResponse) (c : Cycle)
      → V c
      → IfReturns V (Follower.client_request rpc m c)
  unfolding Follower.client_request
  follower_client-V request_leader m c v = leader_reply-V m c v
  follower_client-V _ m c v = v

  follower_rule : KeepsRule W g AnyMessage follower_cycle
  unfolding follower_cycle Follower.post_cycle change_next_state Follower.handle_client_request
  follower_rule = record {
    on_start = λ c v. v;
    on_receive = λ c v. v;
    on_message = λ m c h e. tt;
    on_node = λ m c _ is v. both W _ (follower_node-V m c v);
    on_client = λ m c _ v. follower_client-V m.rpc m c v;
    on_controller = controller-V;
    on_other = λ c v. v;
    on_timeout = λ c v. ground arith;
    on_exit = λ c v. v;
  }

  candidate_pre-V : (c : Cycle) → V c → IfReturns V (Candidate.pre_cycle g c)
  candidate_pre-V c v = IfReturns-mono _ V _ (pre_cycle-Steps g c) (λ d s. Steps-trans g.rank v s)

  candidate_post-V :
      (timed_out : Bool) (c : Cycle)
      → V c
      → Ends Any (λ d. W (finished d)) (Candidate.post_cycle g timed_out c)
  unfolding Candidate.post_cycle init_leader
  candidate_post-V timed_out c v = ground arith

  candidate_rule : KeepsRule W g AnyMessage (candidate_cycle g)
  unfolding candidate_cycle
  candidate_rule = record {
    on_start = candidate_pre-V;
    on_receive = λ c v. v;
    on_message = λ m c h e. tt;
    on_node = λ m c _ is v. both W _ (candidate_node-V m c v);
    on_client = λ m c _ v. v;
    on_controller = controller-V;
    on_other = λ c v. v;
    on_timeout = candidate_post-V true;
    on_exit = candidate_post-V false;
  }

  leader_pre-V : (c : Cycle) → V c → IfReturns V (Leader.pre_cycle g c)
  unfolding Leader.pre_cycle
  leader_pre-V c v =
      IfReturns-bind V (Leader.update_followers g (node_ranks g) known) _ λ n e.
        Quiet-W (Ends-ok _ (Quiet known) _ (update_followers-Quiet g (node_ranks g) known) e) v
    where
      known : Node
      known = record c.node { leader_id = some g.rank }

  leader_client-V :
      (rpc : Rpc) (m : RpcResponse) (c : Cycle)
      → V c
      → IfReturns V (Leader.client_request g rpc m c)
  unfolding Leader.client_request
  leader_client-V request_leader m c v = leader_reply-V m c v
  leader_client-V (request_client message) m c v = v
  leader_client-V _ m c v = v

  leader_rule : KeepsRule W g AnyMessage (leader_cycle g)
  unfolding leader_cycle Leader.handle_client_request
  leader_rule = record {
    on_start = leader_pre-V;
    on_receive = λ c v. v;
    on_message = λ m c h e. tt;
    on_node = λ m c _ is v. both W _ (leader_node-V m c v);
    on_client = λ m c _ v. leader_client-V m.rpc m c v;
    on_controller = controller-V;
    on_other = λ c v. v;
    on_timeout = λ c v. v;
    on_exit = λ c v. v;
  }

  peek-W : (n : Node) → W n → W (peek g n)
  unfolding peek
  peek-W n v = ground arith

-- Whatever state a server is in and whatever arrives: while it runs, its term, its vote and what it
-- has sent change by the steps of a voter only. A voter sends packets that grant nothing, learns of
-- a later term, in which it has no vote yet, runs for a later term with its own vote, and grants
-- the vote of its term to a node if that vote is free, which records it, or if it is that node's
-- already.
pub start-Steps :
    (g : GlobalConfig) (n : Node) (stales : List State)
    → IfReturns (λ n'. Steps g.rank (voter n) (voter n')) (start g stales n)
start-Steps g n stales =
    start-Keeps (λ n'. Steps g.rank (voter n) (voter n')) g AnyMessage (peek-W g n)
      (follower_rule g n) (leader_rule g n) (candidate_rule g n) stales n rests

-- Whatever state a server is in and whatever arrives: while it runs, its term does not fall, and
-- a vote that it has given stands as long as its term is the same.
pub start-Onward :
    (g : GlobalConfig) (n : Node) (stales : List State)
    → IfReturns (λ n'. Onward (voter n) (voter n')) (start g stales n)
start-Onward g n stales =
    IfReturns-mono _ _ _ (start-Steps g n stales) (λ n' s. Steps-Onward g.rank s)

-- Whatever messages arrive, in whatever order, a server that starts fresh and is still running has
-- sent, among all its packets, no two granted votes of one term to two different nodes; and each
-- vote it granted is for an earlier term than its own, or for its own term and the node in
-- votedFor.
pub start-OneVote :
    (g : GlobalConfig) (net : List (Option RpcResponse)) (stales : List State)
    → IfReturns OneVote (start g stales (new_node g net))
unfolding new_node
start-OneVote g net stales =
    IfReturns-mono _ OneVote _ (start-Steps g (new_node g net) stales)
      (λ n s. Steps-OneVote g.rank s (record { recorded = tt; agree = tt }))
