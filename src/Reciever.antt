-- ===== src/Reciever.antt =====
-- src/wrappers/mpi/rpcRecieverReinjecter: a queue of messages to be read again, before the network.
pub mod Arrivals
pub mod Blocking
pub mod Fifo
pub mod Queue
use raft_algorep.Base.{ℕ, ◌+◌, Bool, true, false, List, [], ◌∷◌, ◌++◌, Option, none, some, length}
use raft_algorep.Rpc.{RpcResponse}

-- `network` stands for MPI: the results of the calls of MPI::Recv_Rpc_Timeout to come, `none` for
-- a call that times out. When the list is over nothing more arrives.
pub record RpcRecieverReinjecter : Type 0 where
  pub reinjected_messages : List RpcResponse
  pub network : List (Option RpcResponse)

unfoldable pub reinject_rpc : RpcResponse → RpcRecieverReinjecter → RpcRecieverReinjecter
reinject_rpc m r = record r { reinjected_messages = r.reinjected_messages ++ m ∷ [] }

abbrev pub recv : List (Option RpcResponse) → Option RpcResponse × List (Option RpcResponse)
recv [] = (none, [])
recv (m ∷ ms) = (m, ms)

get_from : List RpcResponse → List (Option RpcResponse) → Option RpcResponse × RpcRecieverReinjecter
get_from [] net =
    let (m, rest) = recv net in (m, record { reinjected_messages = []; network = rest })
get_from (m ∷ ms) net = (some m, record { reinjected_messages = ms; network = net })

unfoldable pub get_rpc_timeout : RpcRecieverReinjecter → Option RpcResponse × RpcRecieverReinjecter
unfolding get_from
get_rpc_timeout r = get_from r.reinjected_messages r.network

-- MPI::Recv_Rpc, which does not wait: without a message that is waiting already it returns null at
-- once, and what is to come stays.
abbrev recv_now : Bool → List (Option RpcResponse) → Option RpcResponse × List (Option RpcResponse)
recv_now true net = recv net
recv_now false net = (none, net)

get_now :
    Bool → List RpcResponse → List (Option RpcResponse) → Option RpcResponse × RpcRecieverReinjecter
get_now waits [] net =
    let (m, rest) = recv_now waits net in (m, record { reinjected_messages = []; network = rest })
get_now waits (m ∷ ms) net = (some m, record { reinjected_messages = ms; network = net })

-- `waits` tells whether MPI has a message waiting, which is then the next of `network`.
unfoldable pub get_rpc : Bool → RpcRecieverReinjecter → Option RpcResponse × RpcRecieverReinjecter
unfolding get_now
get_rpc waits r = get_now waits r.reinjected_messages r.network

-- The calls that time out are made again; `none`: the process still waits when the list is over.
first_arrival : List (Option RpcResponse) → Option (RpcResponse × RpcRecieverReinjecter)
first_arrival [] = none
first_arrival (none ∷ ms) = first_arrival ms
first_arrival (some m ∷ ms) = some (m, record { reinjected_messages = []; network = ms })

get_blocking_from :
    List RpcResponse → List (Option RpcResponse) → Option (RpcResponse × RpcRecieverReinjecter)
unfolding first_arrival
get_blocking_from [] net = first_arrival net
get_blocking_from (m ∷ ms) net = some (m, record { reinjected_messages = ms; network = net })

unfoldable pub get_rpc_blocking :
    RpcRecieverReinjecter → Option (RpcResponse × RpcRecieverReinjecter)
unfolding get_blocking_from
get_rpc_blocking r = get_blocking_from r.reinjected_messages r.network

-- The number of receive calls after which nothing more arrives.
abbrev pub pending : RpcRecieverReinjecter → ℕ
pending r = length r.reinjected_messages + length r.network
