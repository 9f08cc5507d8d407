-- ===== src/Reciever/Arrivals.antt =====
-- What a process reads until a receive times out.
use raft_algorep.Base.{List, [], ◌∷◌, ◌++◌, Option, none, some, ◌≡◌, refl}
use raft_algorep.Rpc.{RpcResponse}
use raft_algorep.Reciever.{RpcRecieverReinjecter, get_from, get_rpc_timeout}

abbrev until_timeout : List (Option RpcResponse) → List RpcResponse
until_timeout [] = []
until_timeout (none ∷ ms) = []
until_timeout (some m ∷ ms) = m ∷ until_timeout ms

abbrev after_timeout : List (Option RpcResponse) → List (Option RpcResponse)
after_timeout [] = []
after_timeout (none ∷ ms) = ms
after_timeout (some m ∷ ms) = after_timeout ms

-- The messages that are read until a receive times out.
abbrev pub arrivals : RpcRecieverReinjecter → List RpcResponse
arrivals r = r.reinjected_messages ++ until_timeout r.network

-- What is left to come after that.
abbrev pub drained : RpcRecieverReinjecter → RpcRecieverReinjecter
drained r = record { reinjected_messages = []; network = after_timeout r.network }

-- A receive takes the first arrival off, or times out when there is none.
abbrev pub Received : RpcRecieverReinjecter → Option RpcResponse × RpcRecieverReinjecter → Type 0
Received r (none, r') = (arrivals r ≡ []) × (r' ≡ drained r)
Received r (some m, r') = (arrivals r ≡ m ∷ arrivals r') × (drained r' ≡ drained r)

get_from-Received :
    (queue : List RpcResponse) (net : List (Option RpcResponse))
    → Received (record { reinjected_messages = queue; network = net }) (get_from queue net)
unfolding get_from
get_from-Received [] [] = (refl, refl)
get_from-Received [] (none ∷ net) = (refl, refl)
get_from-Received [] (some m ∷ net) = (refl, refl)
get_from-Received (m ∷ queue) net = (refl, refl)

pub get_rpc_timeout-Received : (r : RpcRecieverReinjecter) → Received r (get_rpc_timeout r)
unfolding get_rpc_timeout
get_rpc_timeout-Received r = get_from-Received r.reinjected_messages r.network
