-- ===== src/Update/Logged.antt =====
-- The shape of the log, over whole runs of a server.
use raft_algorep.Base.{
  ℕ, Bool, true, false, Bool-cases, List, [], ◌∷◌, ltb_ℤ, ◌==◌, ℤ, Option, none, some, ok, ◌>>=◌,
  Ends, Ends-ok, IfReturns, IfReturns-bind, IfReturns-mono, if◌then◌else◌, length, length-replicate,
  int_laws, arith, ◌∙◌, inl, inr,
}
use raft_algorep.Config.{GlobalConfig, node_ranks, nb_node}
use raft_algorep.Rpc.{
  Rpc, RequestVote, request_vote, append_entries, request_leader, request_client, RpcResponse,
}
use raft_algorep.Node.{Node, State, new_node, init_leader, send_rpc}
use raft_algorep.Node.Logged.{WellLogged}
use raft_algorep.Cycle.{Cycle, change_next_state, value_or}
use raft_algorep.Follower
use raft_algorep.Follower.{follower_cycle}
use raft_algorep.Follower.Logged.{handle_append_entries-Logged}
use raft_algorep.Candidate
use raft_algorep.Candidate.{candidate_cycle}
use raft_algorep.Candidate.Frame.{SameNode, dispatch-SameNode}
use raft_algorep.Leader
use raft_algorep.Leader.{leader_cycle}
use raft_algorep.Leader.Logged.{
  OnlySends, OnlySends-WellLogged, update_followers-OnlySends, response-Logged, commit_loop-Logged,
  request-Logged,
}
use raft_algorep.Update.{peek, start}
use raft_algorep.Update.Rule.{AnyMessage, finished}
use raft_algorep.Update.Keeps.{Any, After, KeepsRule, start-Keeps}
use raft_algorep.Cycle.Logged.{W, controller-W, leader_reply-W, checked-W}

module _ (g : GlobalConfig) where
  vote-W :
      (m : RequestVote) (voted : Option ℕ) (sender : ℕ) (n : Node)
      → WellLogged g n
      → WellLogged g (Follower.vote voted sender m n)
  unfolding Follower.vote Follower.reply_vote send_rpc
  vote-W m (some earlier) sender n w = w
  vote-W m none sender n w = ground arith

  request_vote-W :
      (m : RequestVote) (sender : ℕ) (n : Node)
      → WellLogged g n
      → WellLogged g (Follower.handle_request_vote sender m n)
  unfolding Follower.handle_request_vote Follower.reply_vote send_rpc
  request_vote-W m sender n w = elim (Bool-cases (ltb_ℤ m.term n.term)) [
    | inl old ↦ rw old w
    | inr current ↦ rw current (vote-W m n.voted_for sender n w)
  ]

  follower_dispatch-W :
      (rpc : Rpc) (sender : ℕ) (c : Cycle)
      → W g c
      → IfReturns (After (WellLogged g)) (Follower.dispatch rpc sender c)
  unfolding Follower.dispatch
  follower_dispatch-W (request_vote m) sender c w = request_vote-W m sender c.node w
  follower_dispatch-W (append_entries m) sender c w =
      IfReturns-bind (After (WellLogged g)) (Follower.handle_append_entries sender m c.node) _
        λ n e. Ends-ok _ (WellLogged g) _ (handle_append_entries-Logged g sender m c.node w) e
  follower_dispatch-W _ sender c w = w

  follower_client-W :
      (rpc : Rpc) (m : RpcResponse) (c : Cycle)
      → W g c
      → IfReturns (W g) (Follower.client_request rpc m c)
  unfolding Follower.client_request
  follower_client-W request_leader m c w = leader_reply-W g m c w
  follower_client-W _ m c w = w

  follower_rule : KeepsRule (WellLogged g) g AnyMessage follower_cycle
  unfolding follower_cycle Follower.post_cycle change_next_state Follower.handle_client_request
      Follower.handle_node_request
  follower_rule = record {
    on_start = λ c w. w;
    on_receive = λ c w. w;
    on_message = λ m c h e. tt;
    on_node = λ m c _ is w.
        checked-W g m (Follower.dispatch m.rpc m.sender_id) c
          (follower_dispatch-W m.rpc m.sender_id) w;
    on_client = λ m c _ w. follower_client-W m.rpc m c w;
    on_controller = controller-W g;
    on_other = λ c w. w;
    on_timeout = λ c w. ground arith;
    on_exit = λ c w. w;
  }

  init_leader-W : (n : Node) → WellLogged g n → WellLogged g (init_leader n)
  unfolding init_leader
  init_leader-W n w = record {
    indexed = w.indexed;
    in_log = w.in_log;
    match_slots = length-replicate (length n.match_index) _ ∙ w.match_slots;
    next_slots = length-replicate (length n.next_index) _ ∙ w.next_slots;
  }

  candidate_post-W :
      (timed_out : Bool) (c : Cycle)
      → W g c
      → Ends Any (λ d. WellLogged g (finished d)) (Candidate.post_cycle g timed_out c)
  unfolding Candidate.post_cycle
  candidate_post-W timed_out c w =
      elim (Bool-cases (Candidate.is_leader (value_or c.next_state c.stale))) [
        | inl elected ↦ rw elected (init_leader-W c.node w)
        | inr not_elected ↦ rw not_elected w
      ]

  broadcast-W :
      (rpc : Rpc) (ranks : List ℕ) (n : Node)
      → WellLogged g n
      → WellLogged g (Candidate.broadcast rpc g.rank ranks n)
  unfolding Candidate.broadcast send_rpc
  broadcast-W rpc [] n w = w
  broadcast-W rpc (dst ∷ ranks) n w =
      broadcast-W rpc ranks (if dst == g.rank then n else send_rpc rpc dst n) (sent (dst == g.rank))
    where
      sent : (own : Bool) → WellLogged g (if own then n else send_rpc rpc dst n)
      sent true = w
      sent false = w

  candidate_pre-W : (c : Cycle) → W g c → IfReturns (W g) (Candidate.pre_cycle g c)
  unfolding Candidate.pre_cycle
  candidate_pre-W c w = IfReturns-bind (W g) (Candidate.increment c.node.term) _ λ t _.
      IfReturns-bind (W g) (Candidate.increment c.vote_count) _
        λ v _. broadcast-W (Candidate.vote_request g (candidacy t)) (node_ranks g) (candidacy t) w
    where
      candidacy : ℤ → Node
      candidacy t = record c.node { term = t; voted_for = some g.rank }

  candidate_rule : KeepsRule (WellLogged g) g AnyMessage (candidate_cycle g)
  unfolding candidate_cycle Candidate.handle_node_request
  candidate_rule = record {
    on_start = candidate_pre-W;
    on_receive = λ c w. w;
    on_message = λ m c h e. tt;
    on_node = λ m c _ is w.
        checked-W g m (Candidate.dispatch g m.rpc m) c
          (λ d v.
            IfReturns-mono (SameNode d) (After (WellLogged g)) _ (dispatch-SameNode g m.rpc m d)
              (λ x s. rw s v))
          w;
    on_client = λ m c _ w. w;
    on_controller = controller-W g;
    on_other = λ c w. w;
    on_timeout = candidate_post-W true;
    on_exit = candidate_post-W false;
  }

  leader_pre-W : (c : Cycle) → W g c → IfReturns (W g) (Leader.pre_cycle g c)
  unfolding Leader.pre_cycle
  leader_pre-W c w = IfReturns-bind (W g) (Leader.update_followers g (node_ranks g) known) _ λ n e.
      OnlySends-WellLogged g known n
        (Ends-ok _ (OnlySends known) _ (update_followers-OnlySends g (node_ranks g) known) e) w
    where
      known : Node
      known = record c.node { leader_id = some g.rank }

  leader_rest-W :
      (m : RpcResponse) (c : Cycle)
      → W g c
      → IfReturns (After (WellLogged g)) (
          Leader.response g m.rpc m.sender_id c.node >>= λ n.
          Leader.commit_loop g (Leader.commit_fuel g n) n >>= λ n'.
          ok (false, record c { node = n' }))
  leader_rest-W m c w =
      IfReturns-bind (After (WellLogged g)) (Leader.response g m.rpc m.sender_id c.node) _ λ n e.
        IfReturns-bind (After (WellLogged g)) (Leader.commit_loop g (Leader.commit_fuel g n) n) _
          λ n' e'.
            Ends-ok _ (WellLogged g) _
              (commit_loop-Logged g (Leader.commit_fuel g n) n
                (Ends-ok _ (WellLogged g) _ (response-Logged g m.rpc m.sender_id c.node w) e))
              e'

  leader_client-W :
      (rpc : Rpc) (m : RpcResponse) (c : Cycle)
      → W g c
      → IfReturns (W g) (Leader.client_request g rpc m c)
  unfolding Leader.client_request
  leader_client-W request_leader m c w = leader_reply-W g m c w
  leader_client-W (request_client message) m c w = request-Logged g message m.sender_id c.node w
  leader_client-W _ m c w = w

  leader_rule : KeepsRule (WellLogged g) g AnyMessage (leader_cycle g)
  unfolding leader_cycle Leader.handle_client_request Leader.handle_node_request
  leader_rule = record {
    on_start = leader_pre-W;
    on_receive = λ c w. w;
    on_message = λ m c h e. tt;
    on_node = λ m c _ is w. checked-W g m _ c (leader_rest-W m) w;
    on_client = λ m c _ w. leader_client-W m.rpc m c w;
    on_controller = controller-W g;
    on_other = λ c w. w;
    on_timeout = λ c w. w;
    on_exit = λ c w. w;
  }

  peek-W : (n : Node) → WellLogged g n → WellLogged g (peek g n)
  unfolding peek
  peek-W n w = ground arith

-- Whatever messages arrive, in whatever order, while a server that starts fresh is running, each
-- entry of its log stands at the position that the entry's index says, its commit index is below
-- the length of the log, and it has one match index and one next index for each node.
pub start-WellLogged :
    (g : GlobalConfig) (net : List (Option RpcResponse)) (stales : List State)
    → IfReturns (WellLogged g) (start g stales (new_node g net))
unfolding new_node
start-WellLogged g net stales =
    start-Keeps (WellLogged g) g AnyMessage (peek-W g) (follower_rule g) (leader_rule g)
      (candidate_rule g) stales (new_node g net)
      (record {
        indexed = tt;
        in_log = omega int_laws;
        match_slots = length-replicate (nb_node g) _;
        next_slots = length-replicate (nb_node g) _;
      })
