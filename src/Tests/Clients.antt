-- ===== src/Tests/Clients.antt =====
-- A client at concrete inputs.
use raft_algorep.Base.{
  List, [], ◌∷◌, Option, none, some, Outcome, ok, fault, waiting, Ends, ◌≡◌, refl, arith, true,
}
use raft_algorep.Rpc.{
  Rpc, request_leader, request_client, request_leader_response, controller_request, RpcResponse,
  Packet, start, entry,
}
use raft_algorep.Reciever.Arrivals.{arrivals, drained}
use raft_algorep.Client.{Client, new_client, client_turn, start_client}
use raft_algorep.Client.Intake.{entered}
use raft_algorep.Client.Commands.{Turned, client_turn-Turned}
use raft_algorep.Tests.{g}

abbrev command : Rpc → Option RpcResponse
command rpc = some (record { rpc = rpc; sender_id = 0 })

-- START and an ENTRY, and a node that names the leader 2.
abbrev orders : List (Option RpcResponse)
orders =
    command (controller_request (record { request = start; message = [] }))
    ∷ command (controller_request (record { request = entry; message = 7 ∷ [] }))
    ∷ none
    ∷ some (record {
      rpc = request_leader_response (record { leader_id = 2; success = true });
      sender_id = 3;
    })
    ∷ []

abbrev packets : Outcome Client → List Packet
packets (ok c) = c.sent
packets (fault e) = []

client_runs :
    packets (start_client g ((5 ∷ []) ∷ []) (new_client 0 orders))
    ≡ record { rpc = request_leader; dest = 3 }
      ∷ record { rpc = request_client (7 ∷ []); dest = 2 }
      ∷ []
unfolding start_client new_client
client_runs = refl

client_turn-Turned_example :
    Ends
      (λ e. e ≡ waiting)
      (Turned g
        (entered (arrivals (new_client 0 orders).rpc_reciever))
        (drained (new_client 0 orders).rpc_reciever).network
        (new_client 0 orders))
      (client_turn g (5 ∷ []) (new_client 0 orders))
client_turn-Turned_example = client_turn-Turned g (5 ∷ []) (new_client 0 orders) (omega arith)
