-- ===== src/Update/Rule.antt =====
-- The proof rule of Node::update: what each virtual function of a cycle has to keep, so that the
-- receive loop, the cycle and Node::start keep it. Every invariant of a server goes through it.
use raft_algorep.Base.{
  ℕ, zero, suc, ◌+◌, Bool, true, false, List, [], ◌∷◌, Option, none, some, Fault, Outcome,
  out_of_fuel, Ends, Ends-bind, ◌≡◌, refl, inl, inr, Bool-cases,
}
use raft_algorep.Config.{GlobalConfig, is_node, is_client}
use raft_algorep.Rpc.{Rpc, controller_request, RpcResponse, ControllerRequest}
use raft_algorep.Reciever.{RpcRecieverReinjecter, get_rpc_timeout, pending}
use raft_algorep.Node.{Node, State}
use raft_algorep.Cycle.{Cycle, CycleClass, handle_controller_request, value_or}
use raft_algorep.Update.{
  by_sender, handle_message, proceed, on_arrival, update_loop, update, turn, start,
}

abbrev pub with_reciever : RpcRecieverReinjecter → Cycle → Cycle
with_reciever r c = record c { node = record c.node { rpc_reciever = r } }

-- The cycle after the receive at the head of the loop.
abbrev pub received : Cycle → Cycle
received c = with_reciever (get_rpc_timeout c.node.rpc_reciever).1 c

-- The node that a cycle leaves behind.
abbrev pub finished : Cycle → Node
finished c = record c.node { state = value_or c.next_state c.node.state }

-- `Stay` holds of a cycle that goes on, `Leave` of one that is left.
abbrev pub Split : (Stay Leave : Cycle → Type 0) → Bool × Cycle → Type 0
Split Stay Leave (true, c) = Leave c
Split Stay Leave (false, c) = Stay c

-- A rule that asks nothing of the messages.
abbrev pub AnyMessage : RpcResponse → Type 0
AnyMessage m = Unit

module _ (g : GlobalConfig) (F : Fault → Type 0) (M : RpcResponse → Type 0) where
  -- `M` holds of the messages that arrive; `Head` holds before a receive, `Body` after it, `Exit`
  -- when a handler leaves the cycle, and `Done` of the node in the end.
  pub record Rule (cls : CycleClass) (Start Head Body Exit : Cycle → Type 0) (Done : Node → Type 0)
      : Type 0 where
    pub on_start : (c : Cycle) → Start c → Ends F Head (cls.pre_cycle c)
    pub on_receive : (c : Cycle) → Head c → Body (received c)
    pub on_message :
        (m : RpcResponse) (c : Cycle)
        → Head c
        → (get_rpc_timeout c.node.rpc_reciever).0 ≡ some m
        → M m
    pub on_node :
        (m : RpcResponse) (c : Cycle)
        → M m
        → is_node g m.sender_id ≡ true
        → Body c
        → Ends F (Split Head Exit) (cls.handle_node_request m c)
    pub on_client :
        (m : RpcResponse) (c : Cycle) → M m → Body c → Ends F Head (cls.handle_client_request m c)
    pub on_controller :
        (r : ControllerRequest) (c : Cycle)
        → Body c
        → Ends F (Split Head Exit) (handle_controller_request r c)
    pub on_other : (c : Cycle) → Body c → Head c
    pub on_timeout : (c : Cycle) → Body c → Ends F (λ d. Done (finished d)) (cls.post_cycle true c)
    pub on_exit : (c : Cycle) → Exit c → Ends F (λ d. Done (finished d)) (cls.post_cycle false c)

  module _ {cls : CycleClass} {Start Head Body Exit : Cycle → Type 0} {Done : Node → Type 0}
      (rule : Rule cls Start Head Body Exit Done) (fuel_fault : F out_of_fuel) where
    by_sender-Ends :
        (m : RpcResponse) (c : Cycle)
        → M m
        → Body c
        → Ends F (Split Head Exit) (by_sender g cls m c)
    unfolding by_sender
    by_sender-Ends m c k b = elim (Bool-cases (is_node g m.sender_id)) [
      | inl is ↦ rw is (rule.on_node m c k is b)
      | inr isnt ↦ rw isnt (elim (Bool-cases (is_client g m.sender_id)) [
        | inl is ↦ rw is (
            Ends-bind F Head (Split Head Exit) (cls.handle_client_request m c) _
              (rule.on_client m c k b) (λ d h. h))
        | inr isnt' ↦ rw isnt' (rule.on_other c b)
      ])
    ]

    handle_message-Ends :
        (rpc : Rpc) (m : RpcResponse) (c : Cycle)
        → M m
        → Body c
        → Ends F (Split Head Exit) (handle_message g cls rpc m c)
    unfolding handle_message
    handle_message-Ends (controller_request r) m c k b = rule.on_controller r c b
    handle_message-Ends _ m c k b = by_sender-Ends m c k b

    -- The loop ends with a time-out in `Body` or left in `Exit`.
    abbrev Looped : Bool × Cycle → Type 0
    Looped (true, c) = Body c
    Looped (false, c) = Exit c

    module _ (loop : Cycle → Outcome (Bool × Cycle))
        (ih : (c : Cycle) → Head c → Ends F Looped (loop c)) where
      proceed-Ends : (r : Bool × Cycle) → Split Head Exit r → Ends F Looped (proceed g loop r)
      unfolding proceed
      proceed-Ends (true, c) h = h
      proceed-Ends (false, c) h = ih c h

      on_arrival-Ends :
          (arrived : Option RpcResponse) (c : Cycle)
          → ((m : RpcResponse) → arrived ≡ some m → M m)
          → Body c
          → Ends F Looped (on_arrival g cls loop arrived c)
      unfolding on_arrival
      on_arrival-Ends none c k b = b
      on_arrival-Ends (some m) c k b =
          Ends-bind F (Split Head Exit) Looped (handle_message g cls m.rpc m c) (proceed g loop)
            (handle_message-Ends m.rpc m c (k m refl) b) proceed-Ends

    update_loop-Ends : (fuel : ℕ) (c : Cycle) → Head c → Ends F Looped (update_loop g cls fuel c)
    unfolding update_loop
    update_loop-Ends zero c h = fuel_fault
    update_loop-Ends (suc fuel) c h =
        on_arrival-Ends (update_loop g cls fuel) (update_loop-Ends fuel)
          (get_rpc_timeout c.node.rpc_reciever).0 (received c) (λ m e. rule.on_message m c h e)
          (rule.on_receive c h)

    after_loop :
        (r : Bool × Cycle) → Looped r → Ends F (λ d. Done (finished d)) (cls.post_cycle r.0 r.1)
    after_loop (true, c) h = rule.on_timeout c h
    after_loop (false, c) h = rule.on_exit c h

    -- A cycle from `Start` ends in `Done`.
    pub update-Ends : (c : Cycle) → Start c → Ends F Done (update g cls c)
    unfolding update
    update-Ends c s = Ends-bind F Head Done (cls.pre_cycle c) _ (rule.on_start c s) λ c₁ h.
        Ends-bind F Looped Done (update_loop g cls (pending c₁.node.rpc_reciever + 1) c₁) _
          (update_loop-Ends (pending c₁.node.rpc_reciever + 1) c₁ h)
          λ r l.
            Ends-bind F (λ d. Done (finished d)) Done (cls.post_cycle r.0 r.1) _ (after_loop r l)
              (λ d h. h)

module _ (g : GlobalConfig) (F : Fault → Type 0) where
  -- An invariant that each turn keeps holds after any number of them.
  pub start-Ends :
      (Inv : Node → Type 0)
      → ((stale : State) (n : Node) → Inv n → Ends F Inv (turn g stale n))
      → (stales : List State) (n : Node) → Inv n
      → Ends F Inv (start g stales n)
  unfolding start
  start-Ends Inv one [] n h = h
  start-Ends Inv one (stale ∷ stales) n h =
      Ends-bind F Inv Inv (turn g stale n) (start g stales) (one stale n h)
        (start-Ends Inv one stales)
