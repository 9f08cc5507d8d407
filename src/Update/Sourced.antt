-- ===== src/Update/Sourced.antt =====
-- Where the commands of a server come from, over whole runs of Node::start.
use raft_algorep.Base.{
  ℕ, ℤ, Bool, true, false, List, [], ◌∷◌, Option, none, some, Text, ok, ◌>>=◌, Ends, Ends-bind,
  IfReturns, IfReturns-bind, IfReturns-mono, All, ◌==◌, if◌then◌else◌, arith,
}
use raft_algorep.Config.{GlobalConfig, node_ranks}
use raft_algorep.Rpc.{
  Rpc, request_vote, request_vote_response, append_entries, request_leader, request_client,
  RpcResponse, AppendEntries,
}
use raft_algorep.Reciever.{RpcRecieverReinjecter, get_rpc_timeout, reinject_rpc}
use raft_algorep.Reciever.Fifo.{ToCome, get-ToCome, reinject-ToCome}
use raft_algorep.Node.{Node, State, new_node, init_leader, send_rpc}
use raft_algorep.Node.Sourced.{MessageOf, ArrivalOf, Sourced, send_rpc-Sourced, reciever-Sourced}
use raft_algorep.Cycle.{Cycle, change_next_state}
use raft_algorep.Cycle.Sourced.{
  M, S, received-S, arriving, reinjected-S, controller-S, leader_reply-S, checked-S,
}
use raft_algorep.Follower
use raft_algorep.Follower.{follower_cycle}
use raft_algorep.Follower.Sourced.{handle_append_entries-Sourced, handle_request_vote-Sourced}
use raft_algorep.Candidate
use raft_algorep.Candidate.{candidate_cycle}
use raft_algorep.Candidate.Frame.{KeepsNode, handle_vote-KeepsNode}
use raft_algorep.Leader
use raft_algorep.Leader.{leader_cycle}
use raft_algorep.Leader.Sourced.{
  update_followers-Sourced, response-Sourced, commit_loop-Sourced, request-Sourced,
}
use raft_algorep.Update.{peek, start}
use raft_algorep.Update.Rule.{finished}
use raft_algorep.Update.Keeps.{Any, After, KeepsRule, start-Keeps}

module _ (P : Text → ℕ → Type 0) (g : GlobalConfig) where
  follower_dispatch-S :
      (rpc : Rpc) (sender : ℕ) (c : Cycle)
      → MessageOf P rpc sender
      → S P c
      → IfReturns (After (Sourced P)) (Follower.dispatch rpc sender c)
  unfolding Follower.dispatch
  follower_dispatch-S (request_vote m) sender c k s =
      handle_request_vote-Sourced P sender m c.node s
  follower_dispatch-S (append_entries m) sender c k s =
      Ends-bind _ (Sourced P) (After (Sourced P)) (Follower.handle_append_entries sender m c.node) _
        (handle_append_entries-Sourced P sender m c.node k s) (λ n s'. s')
  follower_dispatch-S _ sender c k s = s

  follower_client-S :
      (rpc : Rpc) (m : RpcResponse) (c : Cycle)
      → S P c
      → IfReturns (S P) (Follower.client_request rpc m c)
  unfolding Follower.client_request
  follower_client-S request_leader m c s = leader_reply-S P m c s
  follower_client-S _ m c s = s

  follower_rule : KeepsRule (Sourced P) g (M P) follower_cycle
  unfolding follower_cycle Follower.post_cycle change_next_state Follower.handle_client_request
      Follower.handle_node_request
  follower_rule = record {
    on_start = λ c s. s;
    on_receive = received-S P;
    on_message = arriving P;
    on_node = λ m c k is s.
        checked-S P m (Follower.dispatch m.rpc m.sender_id) c
          (λ d s'. follower_dispatch-S m.rpc m.sender_id d k s') k s;
    on_client = λ m c _ s. follower_client-S m.rpc m c s;
    on_controller = controller-S P;
    on_other = λ c s. s;
    on_timeout = λ c s. ground arith;
    on_exit = λ c s. s;
  }

  broadcast-S :
      (rpc : Rpc) (ranks : List ℕ) (n : Node)
      → ((sender : ℕ) → MessageOf P rpc sender)
      → Sourced P n
      → Sourced P (Candidate.broadcast rpc g.rank ranks n)
  unfolding Candidate.broadcast
  broadcast-S rpc [] n k s = s
  broadcast-S rpc (dst ∷ ranks) n k s =
      broadcast-S rpc ranks (if dst == g.rank then n else send_rpc rpc dst n) k
        (sent (dst == g.rank))
    where
      sent : (own : Bool) → Sourced P (if own then n else send_rpc rpc dst n)
      sent true = s
      sent false = send_rpc-Sourced P rpc dst n k s

  candidate_pre-S : (c : Cycle) → S P c → IfReturns (S P) (Candidate.pre_cycle g c)
  unfolding Candidate.pre_cycle Candidate.vote_request
  candidate_pre-S c s = IfReturns-bind (S P) (Candidate.increment c.node.term) _ λ t _.
      IfReturns-bind (S P) (Candidate.increment c.vote_count) _
        λ v _. broadcast-S _ (node_ranks g) (candidacy t) (λ _. tt) s
    where
      candidacy : ℤ → Node
      candidacy t = record c.node { term = t; voted_for = some g.rank }

  yield_to-S :
      (m : RpcResponse) (a : AppendEntries) (c : Cycle)
      → M P m
      → S P c
      → IfReturns (After (Sourced P)) (Candidate.yield_to g m a c)
  unfolding Candidate.yield_to change_next_state
  yield_to-S m a c k s = let again = reinjected-S P m c.node k s in ground arith

  candidate_dispatch-S :
      (rpc : Rpc) (m : RpcResponse) (c : Cycle)
      → M P m
      → S P c
      → IfReturns (After (Sourced P)) (Candidate.dispatch g rpc m c)
  unfolding Candidate.dispatch
  candidate_dispatch-S (request_vote_response v) m c k s =
      IfReturns-mono (KeepsNode c) (After (Sourced P)) _ (handle_vote-KeepsNode g m.sender_id v c)
        (λ r same. rw same s)
  candidate_dispatch-S (append_entries a) m c k s = yield_to-S m a c k s
  candidate_dispatch-S _ m c k s = s

  candidate_post-S :
      (timed_out : Bool) (c : Cycle)
      → S P c
      → Ends Any (λ d. Sourced P (finished d)) (Candidate.post_cycle g timed_out c)
  unfolding Candidate.post_cycle init_leader
  candidate_post-S timed_out c s = ground arith

  candidate_rule : KeepsRule (Sourced P) g (M P) (candidate_cycle g)
  unfolding candidate_cycle Candidate.handle_node_request
  candidate_rule = record {
    on_start = candidate_pre-S;
    on_receive = received-S P;
    on_message = arriving P;
    on_node = λ m c k is s.
        checked-S P m (Candidate.dispatch g m.rpc m) c (λ d s'. candidate_dispatch-S m.rpc m d k s')
          k s;
    on_client = λ m c _ s. s;
    on_controller = controller-S P;
    on_other = λ c s. s;
    on_timeout = candidate_post-S true;
    on_exit = candidate_post-S false;
  }

  leader_pre-S : (c : Cycle) → S P c → IfReturns (S P) (Leader.pre_cycle g c)
  unfolding Leader.pre_cycle
  leader_pre-S c s =
      Ends-bind _ (Sourced P) (S P) (Leader.update_followers g (node_ranks g) known) _
        (update_followers-Sourced P g (node_ranks g) known s) (λ n s'. s')
    where
      known : Node
      known = record c.node { leader_id = some g.rank }

  leader_rest-S :
      (m : RpcResponse) (c : Cycle)
      → S P c
      → IfReturns (After (Sourced P)) (
          Leader.response g m.rpc m.sender_id c.node >>= λ n.
          Leader.commit_loop g (Leader.commit_fuel g n) n >>= λ n'.
          ok (false, record c { node = n' }))
  leader_rest-S m c s =
      Ends-bind _ (Sourced P) (After (Sourced P)) (Leader.response g m.rpc m.sender_id c.node) _
        (response-Sourced P g m.rpc m.sender_id c.node s)
        λ n s'.
          Ends-bind _ (Sourced P) (After (Sourced P))
            (Leader.commit_loop g (Leader.commit_fuel g n) n) _
            (commit_loop-Sourced P g (Leader.commit_fuel g n) n s') (λ n' s''. s'')

  leader_client-S :
      (rpc : Rpc) (m : RpcResponse) (c : Cycle)
      → MessageOf P rpc m.sender_id
      → S P c
      → IfReturns (S P) (Leader.client_request g rpc m c)
  unfolding Leader.client_request
  leader_client-S request_leader m c k s = leader_reply-S P m c s
  leader_client-S (request_client message) m c k s =
      request-Sourced P g message m.sender_id c.node k s
  leader_client-S _ m c k s = s

  leader_rule : KeepsRule (Sourced P) g (M P) (leader_cycle g)
  unfolding leader_cycle Leader.handle_client_request Leader.handle_node_request
  leader_rule = record {
    on_start = leader_pre-S;
    on_receive = received-S P;
    on_message = arriving P;
    on_node = λ m c k is s. checked-S P m _ c (leader_rest-S m) k s;
    on_client = λ m c k s. leader_client-S m.rpc m c k s;
    on_controller = controller-S P;
    on_other = λ c s. s;
    on_timeout = λ c s. s;
    on_exit = λ c s. s;
  }

  -- The message that is looked at goes back to the end of the queue.
  peek-S : (n : Node) → Sourced P n → Sourced P (peek g n)
  unfolding peek
  peek-S n s =
      looked (get_rpc_timeout n.rpc_reciever) (get-ToCome (ArrivalOf P) n.rpc_reciever tt s.to_come)
    where
      looked :
          (x : Option RpcResponse × RpcRecieverReinjecter)
          → ArrivalOf P x.0 × ToCome (ArrivalOf P) x.1
          → Sourced P (elim x.0 [
            | none ↦ record n { rpc_reciever = x.1 }
            | some m ↦ record n { rpc_reciever = reinject_rpc m x.1 }
          ])
      looked (none, r) (k, rest) = reciever-Sourced P r n rest s
      looked (some m, r) (k, rest) =
          reciever-Sourced P (reinject_rpc m r) n (reinject-ToCome (ArrivalOf P) m r k rest) s

-- Let a relation hold of each command in the messages that will arrive and the client it is from:
-- of the command and the client id of each entry in an AppendEntries, and of the text and the
-- sender of each client's request. While a server that starts fresh is running, the relation holds
-- of the command and the client id of each entry in its log, in its file and in the AppendEntries
-- that it has sent, and of each command in the messages that it has yet to read.
pub start-Sourced :
    (P : Text → ℕ → Type 0) (g : GlobalConfig) (net : List (Option RpcResponse))
    (stales : List State)
    → All (ArrivalOf P) net
    → IfReturns (Sourced P) (start g stales (new_node g net))
unfolding new_node
start-Sourced P g net stales h =
    start-Keeps (Sourced P) g (M P) (peek-S P g) (follower_rule P g) (leader_rule P g)
      (candidate_rule P g) stales (new_node g net)
      (record { in_log = tt; in_file = tt; in_sent = tt; to_come = h })
