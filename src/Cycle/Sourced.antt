-- ===== src/Cycle/Sourced.antt =====
-- Where the commands of a server come from, through what the three cycles share.
use raft_algorep.Base.{
  ℕ, Bool, true, some, Text, Outcome, ok, fault, ◌>>=◌, Ends, Ends-bind, IfReturns, IfReturns-if,
  ◌≡◌, if◌then◌else◌, subst,
}
use raft_algorep.Rpc.{RpcResponse, ControllerRequest}
use raft_algorep.Reciever.{get_rpc_timeout, reinject_rpc}
use raft_algorep.Reciever.Fifo.{ToCome, get-ToCome, reinject-ToCome}
use raft_algorep.Node.{Node}
use raft_algorep.Node.Sourced.{MessageOf, ArrivalOf, Sourced, send_rpc-Sourced, reciever-Sourced}
use raft_algorep.Cycle.{
  Cycle, client_request_leader_response, check_always_should_stop, handle_controller_request,
}
use raft_algorep.Cycle.Arriving.{controller-ToCome}
use raft_algorep.Cycle.Checks.{check_cases}
use raft_algorep.Cycle.Crash.{Frozen, controller-Frozen}
use raft_algorep.Update.Keeps.{Any, After, both}
use raft_algorep.Update.Rule.{received, Split}

module _ (P : Text → ℕ → Type 0) where
  abbrev pub M : RpcResponse → Type 0
  M m = MessageOf P m.rpc m.sender_id

  -- The invariant of a cycle.
  abbrev pub S : Cycle → Type 0
  S c = Sourced P c.node

  pub received-S : (c : Cycle) → S c → S (received c)
  received-S c s =
      reciever-Sourced P (get_rpc_timeout c.node.rpc_reciever).1 c.node
        (get-ToCome (ArrivalOf P) c.node.rpc_reciever tt s.to_come).1 s

  -- A message that is read was to come.
  pub arriving :
      (m : RpcResponse) (c : Cycle) → S c → (get_rpc_timeout c.node.rpc_reciever).0 ≡ some m → M m
  arriving m c s e =
      subst (ArrivalOf P) e (get-ToCome (ArrivalOf P) c.node.rpc_reciever tt s.to_come).0

  pub reinjected-S :
      (m : RpcResponse) (n : Node)
      → M m
      → Sourced P n
      → Sourced P (record n { rpc_reciever = reinject_rpc m n.rpc_reciever })
  reinjected-S m n k s =
      reciever-Sourced P (reinject_rpc m n.rpc_reciever) n
        (reinject-ToCome (ArrivalOf P) m n.rpc_reciever k s.to_come) s

  pub controller-S :
      (r : ControllerRequest) (c : Cycle)
      → S c
      → Ends Any (Split S S) (handle_controller_request r c)
  controller-S r c s = both (Sourced P) (handle_controller_request r c) (
      frozen (handle_controller_request r c) (controller-Frozen r c)
        (controller-ToCome (ArrivalOf P) r c s.to_come))
    where
      frozen :
          (m : Outcome (Bool × Cycle))
          → IfReturns (λ x. Frozen c x.1) m
          → IfReturns (λ x. ToCome (ArrivalOf P) x.1.node.rpc_reciever) m
          → IfReturns (After (Sourced P)) m
      frozen (ok x) f k = rw f (reciever-Sourced P x.1.node.rpc_reciever c.node k s)
      frozen (fault e) f k = tt

  pub leader_reply-S : (m : RpcResponse) (c : Cycle) → S c → S (client_request_leader_response m c)
  unfolding client_request_leader_response
  leader_reply-S m c s = send_rpc-Sourced P _ m.sender_id c.node (λ _. tt) s

  check-S :
      (m : RpcResponse) (c : Cycle)
      → M m
      → S c
      → IfReturns (After (Sourced P)) (check_always_should_stop m c)
  check-S m c k s =
      check_cases _ (After (Sourced P)) m c s (λ l. s) (λ l n. reinjected-S m c.node k s) (λ _. tt)

  -- The shape of the three `handle_node_request`: what follows the check.
  pub checked-S :
      (m : RpcResponse) (rest : Cycle → Outcome (Bool × Cycle)) (c : Cycle)
      → ((d : Cycle) → S d → IfReturns (After (Sourced P)) (rest d))
      → M m
      → S c
      → Ends Any
          (Split S S)
          (check_always_should_stop m c >>= λ r. if r.0 then ok (true, r.1) else rest r.1)
  checked-S m rest c h k s = both (Sourced P) _ (
      Ends-bind _ (After (Sourced P)) (After (Sourced P)) (check_always_should_stop m c) _
        (check-S m c k s)
        λ r s'.
          IfReturns-if (After (Sourced P)) r.0 (ok (true, r.1)) (rest r.1) (λ _. s')
            (λ _. h r.1 s'))
