-- ===== src/Cluster.antt =====
-- Several servers, the clients and the controller: which messages can arrive at a server at all.
use raft_algorep.Base.{
  ℕ, suc, List, [], ◌∷◌, Option, none, some, ok, IfReturns, IfReturns-mono, Ends-ok, All, All-get,
  get_elem?, Text, ◌≡◌, refl,
}
use raft_algorep.Config.{GlobalConfig}
use raft_algorep.Rpc.{
  Rpc, request_leader, request_client, controller_request, RpcResponse, ControllerRequest, Packet,
}
use raft_algorep.Node.{Node, State, new_node}
use raft_algorep.Node.Sourced.{ArrivalOf, Commands, PacketOf, Sourced}
use raft_algorep.Update.{start}
use raft_algorep.Update.Sourced.{start-Sourced}

abbrev pub arrives : Rpc → ℕ → Option RpcResponse
arrives rpc sender = some (record { rpc = rpc; sender_id = sender })

-- What can arrive where each client submits only the commands that `Submitted` relates to it: a
-- time-out, a message of a client or of the controller, or a packet that a server has sent which
-- started fresh and read only what can arrive. A packet may be lost, late, repeated or out of
-- order. One that is sent in the middle of a turn is sent in the run in which only time-outs
-- follow; it counts if that run does not stop with a fault.
pub data Possible (Submitted : Text → ℕ → Type 0) : Option RpcResponse → Type 0 where
  times_out : Possible Submitted none
  asks : (client : ℕ) → Possible Submitted (arrives request_leader client)
  submits :
      (message : Text) (client : ℕ)
      → Submitted message client
      → Possible Submitted (arrives (request_client message) client)
  controls :
      (r : ControllerRequest) (controller : ℕ)
      → Possible Submitted (arrives (controller_request r) controller)
  sends :
      (g : GlobalConfig) (net : List (Option RpcResponse)) (stales : List State) (n : Node)
      (p : Packet) (j : ℕ)
      → ((i : ℕ) (a : Option RpcResponse) → get_elem? net i ≡ some a → Possible Submitted a)
      → start g stales (new_node g net) ≡ ok n
      → get_elem? n.sent j ≡ some p
      → Possible Submitted (arrives p.rpc g.rank)

All-of-get :
    (Q : Option RpcResponse → Type 0) (net : List (Option RpcResponse))
    → ((i : ℕ) (a : Option RpcResponse) → get_elem? net i ≡ some a → Q a)
    → All Q net
All-of-get Q [] h = tt
All-of-get Q (a ∷ net) h = (h 0 a refl, All-of-get Q net (λ i. h (suc i)))

module _ (S : Text → ℕ → Type 0) where
  Possible-ArrivalOf : (a : Option RpcResponse) → Possible S a → ArrivalOf S a
  Possible-ArrivalOf _ times_out = tt
  Possible-ArrivalOf _ (asks client) = tt
  Possible-ArrivalOf _ (submits message client s) = s
  Possible-ArrivalOf _ (controls r controller) = tt
  Possible-ArrivalOf _ (sends g net stales n p j read ran at) =
      All-get (PacketOf S) n.sent j p
        (Ends-ok _ (Sourced S) _
          (start-Sourced S g net stales
            (All-of-get (ArrivalOf S) net (λ i a e. Possible-ArrivalOf a (read i a e))))
          ran).in_sent
        at g.rank

  -- In a cluster whose servers start fresh, whatever messages are lost, late, repeated or out of
  -- order, and whatever the controller does: each entry in the log or in the file of a running
  -- server has a command that a client has submitted, and names that client.
  pub start-Submitted :
      (g : GlobalConfig) (net : List (Option RpcResponse)) (stales : List State)
      → All (Possible S) net
      → IfReturns (λ n. Commands S n.logs × Commands S n.saved) (start g stales (new_node g net))
  start-Submitted g net stales h =
      IfReturns-mono (Sourced S) (λ n. Commands S n.logs × Commands S n.saved) _
        (start-Sourced S g net stales (each net h)) (λ n s. (s.in_log, s.in_file))
    where
      each : (net : List (Option RpcResponse)) → All (Possible S) net → All (ArrivalOf S) net
      each [] k = tt
      each (a ∷ rest) k = (Possible-ArrivalOf a k.0, each rest k.1)
