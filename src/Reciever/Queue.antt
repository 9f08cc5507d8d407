-- ===== src/Reciever/Queue.antt =====
-- The read-again queue: what each read takes off.
use raft_algorep.Base.{◌+◌, ◌<◌, List, [], ◌∷◌, Option, none, some, length, ◌≡◌, arith}
use raft_algorep.Rpc.{RpcResponse}
use raft_algorep.Reciever.{
  RpcRecieverReinjecter, reinject_rpc, get_from, get_rpc_timeout, first_arrival, get_blocking_from,
  get_rpc_blocking, pending,
}

-- A message put back is the next one read, if the queue was empty, and the network waits.
pub get-reinject :
    (m : RpcResponse) (r : RpcRecieverReinjecter)
    → r.reinjected_messages ≡ []
    → get_rpc_timeout (reinject_rpc m r) ≡ (some m, r)
unfolding get_rpc_timeout reinject_rpc
get-reinject m r e = ground (arith)

first_arrival-pending :
    (net : List (Option RpcResponse)) (m : RpcResponse) (r : RpcRecieverReinjecter)
    → first_arrival net ≡ some (m, r)
    → pending r < length net
unfolding first_arrival
first_arrival-pending [] m r e = cc
first_arrival-pending (none ∷ ms) m r e = omega (arith, first_arrival-pending ms m r e)
first_arrival-pending (some x ∷ ms) m r e = ground arith

get_blocking_from-pending :
    (queue : List RpcResponse) (net : List (Option RpcResponse)) (m : RpcResponse)
    (r : RpcRecieverReinjecter)
    → get_blocking_from queue net ≡ some (m, r)
    → pending r < length queue + length net
unfolding get_blocking_from
get_blocking_from-pending [] net m r e = omega (arith, first_arrival-pending net m r e)
get_blocking_from-pending (x ∷ q) net m r e = ground arith

pub get_rpc_blocking-pending :
    (r : RpcRecieverReinjecter) (m : RpcResponse) (r' : RpcRecieverReinjecter)
    → get_rpc_blocking r ≡ some (m, r')
    → pending r' < pending r
unfolding get_rpc_blocking
get_rpc_blocking-pending r m r' e = get_blocking_from-pending r.reinjected_messages r.network m r' e

get_from-pending :
    (queue : List RpcResponse) (net : List (Option RpcResponse)) (m : RpcResponse)
    → (get_from queue net).0 ≡ some m
    → pending (get_from queue net).1 < length queue + length net
unfolding get_from
get_from-pending [] [] m e = cc
get_from-pending [] (x ∷ net) m e = omega arith
get_from-pending (x ∷ q) net m e = omega arith

pub get_rpc_timeout-pending :
    (r : RpcRecieverReinjecter) (m : RpcResponse)
    → (get_rpc_timeout r).0 ≡ some m
    → pending (get_rpc_timeout r).1 < pending r
unfolding get_rpc_timeout
get_rpc_timeout-pending r m e = get_from-pending r.reinjected_messages r.network m e
