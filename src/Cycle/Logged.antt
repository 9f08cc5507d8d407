-- ===== src/Cycle/Logged.antt =====
-- The shape of the log, through what the three cycles share.
use raft_algorep.Base.{
  Bool, true, Outcome, ok, ◌>>=◌, Ends, Ends-ok, IfReturns, IfReturns-bind, IfReturns-if,
  IfReturns-mono, if◌then◌else◌, arith,
}
use raft_algorep.Config.{GlobalConfig}
use raft_algorep.Rpc.{RpcResponse, ControllerRequest}
use raft_algorep.Node.{send_rpc}
use raft_algorep.Node.Logged.{WellLogged}
use raft_algorep.Cycle.{
  Cycle, client_request_leader_response, change_next_state, check_always_should_stop,
  handle_controller_request,
}
use raft_algorep.Cycle.Crash.{Frozen, controller-Frozen}
use raft_algorep.Update.Keeps.{Any, After, both}
use raft_algorep.Update.Rule.{Split}

module _ (g : GlobalConfig) where
  -- The invariant of a cycle.
  abbrev pub W : Cycle → Type 0
  W c = WellLogged g c.node

  pub controller-W :
      (r : ControllerRequest) (c : Cycle)
      → W c
      → Ends Any (Split W W) (handle_controller_request r c)
  controller-W r c w = both (WellLogged g) (handle_controller_request r c) (
      IfReturns-mono (λ x. Frozen c x.1) (After (WellLogged g)) (handle_controller_request r c)
        (controller-Frozen r c) (λ x f. rw f w))

  pub leader_reply-W : (m : RpcResponse) (c : Cycle) → W c → W (client_request_leader_response m c)
  unfolding client_request_leader_response send_rpc
  leader_reply-W m c w = w

  check-W :
      (m : RpcResponse) (c : Cycle)
      → W c
      → IfReturns (After (WellLogged g)) (check_always_should_stop m c)
  unfolding check_always_should_stop change_next_state
  check-W m c w = ground arith

  -- The shape of the three `handle_node_request`: what follows the check.
  pub checked-W :
      (m : RpcResponse) (rest : Cycle → Outcome (Bool × Cycle)) (c : Cycle)
      → ((d : Cycle) → W d → IfReturns (After (WellLogged g)) (rest d))
      → W c
      → Ends Any
          (Split W W)
          (check_always_should_stop m c >>= λ r. if r.0 then ok (true, r.1) else rest r.1)
  checked-W m rest c k w = both (WellLogged g) _ (
      IfReturns-bind (After (WellLogged g)) (check_always_should_stop m c) _ λ r e.
        IfReturns-if (After (WellLogged g)) r.0 (ok (true, r.1)) (rest r.1)
          (λ _. Ends-ok _ (After (WellLogged g)) _ (check-W m c w) e)
          (λ _. k r.1 (Ends-ok _ (After (WellLogged g)) _ (check-W m c w) e)))
