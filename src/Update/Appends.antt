-- ===== src/Update/Appends.antt =====
-- A leader's cycle adds to its log, its file and its commits.
use raft_algorep.Base.{
  true, some, ok, Ends, Ends-ok, IfReturns, IfReturns-bind, IfReturns-if, IfReturns-mono, ◌≡◌, refl,
  ap,
}
use raft_algorep.Config.{GlobalConfig, node_ranks}
use raft_algorep.Rpc.{Rpc, request_leader, request_client, RpcResponse, ControllerRequest}
use raft_algorep.Node.{Node, State, send_rpc}
use raft_algorep.Cycle.{
  Cycle, client_request_leader_response, check_always_should_stop, handle_controller_request,
}
use raft_algorep.Cycle.Checks.{check_cases}
use raft_algorep.Cycle.Crash.{Frozen, controller-Frozen}
use raft_algorep.Leader.{
  leader_cycle, pre_cycle, handle_node_request, response, commit_loop, commit_fuel, client_request,
  handle_client_request, update_followers,
}
use raft_algorep.Leader.Appends.{
  Appends, Appends-refl, Appends-trans, response-Appends, commit_loop-Appends,
  update_followers-Appends, request-Appends,
}
use raft_algorep.Update.{update, new_cycle}
use raft_algorep.Update.Rule.{AnyMessage, update-Ends, Split}
use raft_algorep.Update.Keeps.{Any, After, both, KeepsRule}

module _ (g : GlobalConfig) (n₀ : Node) where
  -- The invariant of the cycle.
  abbrev A : Cycle → Type 0
  A c = Appends n₀ c.node

  keep :
      {n n' : Node}
      → Appends n₀ n
      → n'.logs ≡ n.logs
      → n'.saved ≡ n.saved
      → n'.commit_index ≡ n.commit_index
      → Appends n₀ n'
  keep {n} {n'} a l s c = Appends-trans a (Appends-refl n n' l s c)

  controller-A :
      (r : ControllerRequest) (c : Cycle)
      → A c
      → Ends Any (Split A A) (handle_controller_request r c)
  controller-A r c a = both (Appends n₀) (handle_controller_request r c) (
      IfReturns-mono (λ x. Frozen c x.1) (After (Appends n₀)) (handle_controller_request r c)
        (controller-Frozen r c)
        (λ x f.
          keep a (ap (λ (d : Cycle). d.node.logs) f) (ap (λ (d : Cycle). d.node.saved) f)
            (ap (λ (d : Cycle). d.node.commit_index) f)))

  check-A :
      (m : RpcResponse) (c : Cycle) → A c → IfReturns (λ r. A r.1) (check_always_should_stop m c)
  check-A m c a =
      check_cases _ (λ r. A r.1) m c a (λ l. Appends-trans a (Appends-refl c.node _ refl refl refl))
        (λ l n. Appends-trans a (Appends-refl c.node _ refl refl refl)) (λ _. tt)

  node-A : (m : RpcResponse) (c : Cycle) → A c → IfReturns (λ r. A r.1) (handle_node_request g m c)
  unfolding handle_node_request
  node-A m c a =
      IfReturns-bind (λ r. A r.1) (check_always_should_stop m c) _
        λ r e.
          IfReturns-if (λ x. A x.1) r.0 (ok (true, r.1)) _
            (λ _. Ends-ok _ (λ x. A x.1) _ (check-A m c a) e)
            (λ _.
              IfReturns-bind (λ x. A x.1) (response g m.rpc m.sender_id r.1.node) _
                λ n e'.
                  IfReturns-bind (λ x. A x.1) (commit_loop g (commit_fuel g n) n) _
                    λ n' e''. Appends-trans (Ends-ok _ (λ x. A x.1) _ (check-A m c a) e) (
                      Appends-trans
                        (Ends-ok _ (Appends r.1.node) _
                          (response-Appends g m.rpc m.sender_id r.1.node) e')
                        (Ends-ok _ (Appends n) _ (commit_loop-Appends g (commit_fuel g n) n) e'')))

  pre-A : (c : Cycle) → A c → IfReturns A (pre_cycle g c)
  unfolding pre_cycle
  pre-A c a = IfReturns-bind A (update_followers g (node_ranks g) known) _ λ n e.
      Appends-trans (Appends-trans a (Appends-refl c.node known refl refl refl))
        (Ends-ok _ (Appends known) _ (update_followers-Appends g (node_ranks g) known) e)
    where
      known : Node
      known = record c.node { leader_id = some g.rank }

  leader_reply-A : (m : RpcResponse) (c : Cycle) → A c → A (client_request_leader_response m c)
  unfolding client_request_leader_response send_rpc
  leader_reply-A m c a = Appends-trans a (Appends-refl c.node _ refl refl refl)

  client-A :
      (rpc : Rpc) (m : RpcResponse) (c : Cycle) → A c → IfReturns A (client_request g rpc m c)
  unfolding client_request
  client-A request_leader m c a = leader_reply-A m c a
  client-A (request_client message) m c a =
      Appends-trans a (request-Appends g message m.sender_id c.node)
  client-A _ m c a = a

  leader_rule : KeepsRule (Appends n₀) g AnyMessage (leader_cycle g)
  unfolding leader_cycle handle_client_request
  leader_rule = record {
    on_start = pre-A;
    on_receive = λ c a. keep a refl refl refl;
    on_message = λ m c h e. tt;
    on_node = λ m c _ is a. both (Appends n₀) _ (node-A m c a);
    on_client = λ m c _ a. client-A m.rpc m c a;
    on_controller = controller-A;
    on_other = λ c a. a;
    on_timeout = λ c a. keep a refl refl refl;
    on_exit = λ c a. keep a refl refl refl;
  }

-- Whatever messages arrive in the cycle of a leader: if it ends, its log is the log that it had
-- with entries added at the end, its file is what it was with lines added at the end, and its
-- commit index has not fallen.
pub leader_cycle-Appends :
    (g : GlobalConfig) (stale : State) (n : Node)
    → IfReturns (Appends n) (update g (leader_cycle g) (new_cycle g stale n))
unfolding new_cycle
leader_cycle-Appends g stale n =
    update-Ends g Any AnyMessage (leader_rule g n) tt (new_cycle g stale n)
      (Appends-refl n n refl refl refl)
