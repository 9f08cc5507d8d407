-- ===== src/Reciever/Blocking.antt =====
-- get_rpc_blocking, and what the time-outs that it passes by do not matter to.
use raft_algorep.Base.{List, [], ◌∷◌, ◌++◌, map, Option, none, some, ◌≡◌, refl, ◌∙◌}
use raft_algorep.Rpc.{RpcResponse}
use raft_algorep.Reciever.{
  RpcRecieverReinjecter, first_arrival, get_blocking_from, get_rpc_blocking,
}
use raft_algorep.Reciever.Fifo.{upcoming}

module _ {A : Type 0} (f : List (Option RpcResponse) → A)
    (skips : (ms : List (Option RpcResponse)) → f (none ∷ ms) ≡ f ms) where
  -- `f` of the messages to come is `f` of the one that is read and of those that it leaves.
  abbrev pub Next :
      List (Option RpcResponse) → Option (RpcResponse × RpcRecieverReinjecter) → Type 0
  Next ms none = f ms ≡ f []
  Next ms (some (m, r)) = f ms ≡ f (some m ∷ upcoming r)

  Next-skip :
      (ms : List (Option RpcResponse)) (o : Option (RpcResponse × RpcRecieverReinjecter))
      → Next ms o
      → Next (none ∷ ms) o
  Next-skip ms none h = skips ms ∙ h
  Next-skip ms (some (m, r)) h = skips ms ∙ h

  first_arrival-Next : (net : List (Option RpcResponse)) → Next net (first_arrival net)
  unfolding first_arrival
  first_arrival-Next [] = refl
  first_arrival-Next (none ∷ net) = Next-skip net (first_arrival net) (first_arrival-Next net)
  first_arrival-Next (some m ∷ net) = refl

  blocking_from-Next :
      (queue : List RpcResponse) (net : List (Option RpcResponse))
      → Next (map some queue ++ net) (get_blocking_from queue net)
  unfolding get_blocking_from
  blocking_from-Next [] net = first_arrival-Next net
  blocking_from-Next (m ∷ queue) net = refl

  pub get_rpc_blocking-Next : (r : RpcRecieverReinjecter) → Next (upcoming r) (get_rpc_blocking r)
  unfolding get_rpc_blocking
  get_rpc_blocking-Next r = blocking_from-Next r.reinjected_messages r.network
