-- ===== src/Update/Ending.antt =====
-- Node::update ends: the receive loop takes a message off in each round, and what a cycle class has
-- to do for that.
use raft_algorep.Base.{
  ℕ, zero, suc, ◌+◌, ◌≤◌, ◌<◌, Bool, true, false, Option, none, some, Outcome, ok, fault, waiting,
  Ends, Ends-bind, Ends-mono, Ends-if, ◌≡◌, refl, ap, ◌∙◌, arith,
}
use raft_algorep.Config.{GlobalConfig, is_node, is_client}
use raft_algorep.Rpc.{Rpc, controller_request, RpcResponse, ControllerRequest}
use raft_algorep.Reciever.{get_rpc_timeout, pending}
use raft_algorep.Reciever.Queue.{get_rpc_timeout-pending}
use raft_algorep.Cycle.{Cycle, CycleClass, handle_controller_request}
use raft_algorep.Cycle.Crash.{Frozen, controller-Ends}
use raft_algorep.Update.{by_sender, handle_message, proceed, on_arrival, update_loop, update}
use raft_algorep.Update.Faults.{Allowed}
use raft_algorep.Update.Rule.{received}

-- What a handler makes of a cycle: one that goes on has no next state, and no more messages to
-- come.
abbrev pub Kept : Cycle → Bool × Cycle → Type 0
Kept c (true, d) = Unit
Kept c (false, d) =
    (d.next_state ≡ none) × (pending d.node.rpc_reciever ≤ pending c.node.rpc_reciever)

abbrev pub Free : Cycle → Type 0
Free c = c.next_state ≡ none

abbrev pub Ended {ℓ} : {A : Type ℓ} → A → Type 0
Ended a = Unit {0}

-- What each virtual function of a cycle has to do.
pub record Ending (cls : CycleClass) : Type 0 where
  pub on_start : (c : Cycle) → Free c → Ends Allowed Free (cls.pre_cycle c)
  pub on_node :
      (m : RpcResponse) (c : Cycle) → Free c → Ends Allowed (Kept c) (cls.handle_node_request m c)
  pub on_client :
      (m : RpcResponse) (c : Cycle)
      → Free c
      → Ends Allowed (λ d. Kept c (false, d)) (cls.handle_client_request m c)
  pub on_timeout : (c : Cycle) → Free c → Ends Allowed Ended (cls.post_cycle true c)
  pub on_exit : (c : Cycle) → Ends Allowed Ended (cls.post_cycle false c)

waiting-Allowed :
    {A : Type 0} (P : A → Type 0) (m : Outcome A) → Ends (λ e. e ≡ waiting) P m → Ends Allowed P m
waiting-Allowed P (ok a) h = h
waiting-Allowed P (fault e) h = rw h tt

module _ (g : GlobalConfig) (cls : CycleClass) (ending : Ending cls) where
  controller-Kept :
      (r : ControllerRequest) (c : Cycle)
      → Free c
      → Ends Allowed (Kept c) (handle_controller_request r c)
  controller-Kept r c h =
      waiting-Allowed (Kept c) (handle_controller_request r c)
        (Ends-mono _ _ (Kept c) (handle_controller_request r c) (controller-Ends r c) kept)
    where
      kept :
          (x : Bool × Cycle)
          → Frozen c x.1 × (pending x.1.node.rpc_reciever ≤ pending c.node.rpc_reciever)
          → Kept c x
      kept (true, d) k = tt
      kept (false, d) (f, le) = (ap (λ (e : Cycle). e.next_state) f ∙ h, le)

  by_sender-Kept :
      (m : RpcResponse) (c : Cycle) → Free c → Ends Allowed (Kept c) (by_sender g cls m c)
  unfolding by_sender
  by_sender-Kept m c h =
      Ends-if Allowed (Kept c) (is_node g m.sender_id) _ _ (λ _. ending.on_node m c h)
        λ _.
          Ends-if Allowed (Kept c) (is_client g m.sender_id) _ (ok (false, c))
            (λ _.
              Ends-bind Allowed (λ d. Kept c (false, d)) (Kept c) (cls.handle_client_request m c) _
                (ending.on_client m c h) (λ d k. k))
            (λ _. (h, omega arith))

  handle_message-Kept :
      (rpc : Rpc) (m : RpcResponse) (c : Cycle)
      → Free c
      → Ends Allowed (Kept c) (handle_message g cls rpc m c)
  unfolding handle_message
  handle_message-Kept (controller_request r) m c h = controller-Kept r c h
  handle_message-Kept _ m c h = by_sender-Kept m c h

  -- A loop that timed out has not chosen the next state.
  abbrev Looped : Bool × Cycle → Type 0
  Looped (true, c) = Free c
  Looped (false, c) = Unit

  module _ (fuel : ℕ) (loop : Cycle → Outcome (Bool × Cycle))
      (ih : (c : Cycle)
        → Free c
        → pending c.node.rpc_reciever < fuel
        → Ends Allowed Looped (loop c)) where
    proceed-Ends :
        (c : Cycle) (r : Bool × Cycle)
        → pending c.node.rpc_reciever < fuel
        → Kept c r
        → Ends Allowed Looped (proceed g loop r)
    unfolding proceed
    proceed-Ends c (true, d) lt k = tt
    proceed-Ends c (false, d) lt (h, le) = ih d h (omega arith)

    on_arrival-Ends :
        (arrived : Option RpcResponse) (c : Cycle)
        → Free c
        → ((m : RpcResponse) → arrived ≡ some m → pending c.node.rpc_reciever < fuel)
        → Ends Allowed Looped (on_arrival g cls loop arrived c)
    unfolding on_arrival
    on_arrival-Ends none c h lt = h
    on_arrival-Ends (some m) c h lt =
        Ends-bind Allowed (Kept c) Looped (handle_message g cls m.rpc m c) (proceed g loop)
          (handle_message-Kept m.rpc m c h) (λ r k. proceed-Ends c r (lt m refl) k)

  update_loop-Ends :
      (fuel : ℕ) (c : Cycle)
      → Free c
      → pending c.node.rpc_reciever < fuel
      → Ends Allowed Looped (update_loop g cls fuel c)
  unfolding update_loop
  update_loop-Ends zero c h lt = elim lt [ ]
  update_loop-Ends (suc fuel) c h lt =
      on_arrival-Ends fuel (update_loop g cls fuel) (update_loop-Ends fuel)
        (get_rpc_timeout c.node.rpc_reciever).0 (received c) h
        (λ m e. omega (arith, get_rpc_timeout-pending c.node.rpc_reciever m e))

  after_loop : (r : Bool × Cycle) → Looped r → Ends Allowed Ended (cls.post_cycle r.0 r.1)
  after_loop (true, c) h = ending.on_timeout c h
  after_loop (false, c) h = ending.on_exit c

  pub update-Ended : (c : Cycle) → Free c → Ends Allowed Ended (update g cls c)
  unfolding update
  update-Ended c h = Ends-bind Allowed Free Ended (cls.pre_cycle c) _ (ending.on_start c h) λ c₁ h₁.
      Ends-bind Allowed Looped Ended (update_loop g cls (pending c₁.node.rpc_reciever + 1) c₁) _
        (update_loop-Ends (pending c₁.node.rpc_reciever + 1) c₁ h₁ (omega arith))
        λ r l. Ends-bind Allowed Ended Ended (cls.post_cycle r.0 r.1) _ (after_loop r l) (λ d _. tt)
