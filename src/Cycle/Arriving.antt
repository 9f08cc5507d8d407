-- ===== src/Cycle/Arriving.antt =====
-- The messages to come, through the controller's requests and the crash loop.
use raft_algorep.Base.{
  ℕ, zero, suc, ◌+◌, Bool, true, false, Bool-cases, Option, none, some, Outcome, ok, IfReturns,
  IfReturns-bind, IfReturns-if, Ends-ok, ◌≡◌, refl, inl, inr,
}
use raft_algorep.Rpc.{
  Rpc, controller_request, RpcResponse, ControllerRequest, ControllerRequestType, status, crash,
  speed, start, recovery, print_log, entry,
}
use raft_algorep.Reciever.{RpcRecieverReinjecter, get_rpc_blocking, pending}
use raft_algorep.Reciever.Fifo.{ToCome, blocking-ToCome}
use raft_algorep.Cycle.{
  Cycle, handle_request, crash_message, crash_round, crash_loop, handle_controller_request,
}

module _ (Q : Option RpcResponse → Type 0) where
  abbrev K : Cycle → Type 0
  K c = ToCome Q c.node.rpc_reciever

  module _ (loop : Cycle → Outcome Cycle) (ih : (c : Cycle) → K c → IfReturns K (loop c)) where
    request-K :
        (q : ControllerRequestType) (r : ControllerRequest) (c : Cycle)
        → K c
        → IfReturns (λ x. K x.1) (handle_request loop q r c)
    unfolding handle_request
    request-K status r c k = k
    request-K crash r c k =
        IfReturns-if (λ x. K x.1) c.node.crash (ok (false, c)) _ (λ _. k)
          (λ _.
            IfReturns-bind (λ x. K x.1) (loop (record c { node = record c.node { crash = true } }))
              _
              (λ d e. Ends-ok _ K _ (ih (record c { node = record c.node { crash = true } }) k) e))
    request-K speed r c k = k
    request-K recovery r c k = elim (Bool-cases c.node.crash) [
      | inl down ↦ rw down k
      | inr up ↦ rw up k
    ]
    request-K print_log r c k = k
    request-K start r c k = k
    request-K entry r c k = k

    message-K : (rpc : Rpc) (c : Cycle) → K c → IfReturns K (crash_message loop rpc c)
    unfolding crash_message
    message-K (controller_request r) c k =
        IfReturns-bind K (handle_request loop r.request r c) _
          (λ x e. ih x.1 (Ends-ok _ (λ y. K y.1) _ (request-K r.request r c k) e))
    message-K _ c k = ih c k

    round-K :
        (down : Bool) (arrived : Option (RpcResponse × RpcRecieverReinjecter)) (c : Cycle)
        → ((m : RpcResponse) (r : RpcRecieverReinjecter) → arrived ≡ some (m, r) → ToCome Q r)
        → K c
        → IfReturns K (crash_round loop down arrived c)
    unfolding crash_round
    round-K false arrived c h k = k
    round-K true none c h k = tt
    round-K true (some (m, r)) c h k =
        message-K m.rpc (record c { node = record c.node { rpc_reciever = r } }) (h m r refl)

  loop-K : (fuel : ℕ) (c : Cycle) → K c → IfReturns K (crash_loop fuel c)
  unfolding crash_loop
  loop-K zero c k = tt
  loop-K (suc fuel) c k =
      round-K (crash_loop fuel) (loop-K fuel) c.node.crash (get_rpc_blocking c.node.rpc_reciever) c
        (λ m r e. (blocking-ToCome Q c.node.rpc_reciever m r k e).1) k

  pub controller-ToCome :
      (r : ControllerRequest) (c : Cycle)
      → ToCome Q c.node.rpc_reciever
      → IfReturns (λ x. ToCome Q x.1.node.rpc_reciever) (handle_controller_request r c)
  unfolding handle_controller_request
  controller-ToCome r c k =
      request-K (crash_loop (pending c.node.rpc_reciever + 1))
        (loop-K (pending c.node.rpc_reciever + 1)) r.request r c k
