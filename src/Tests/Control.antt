-- ===== src/Tests/Control.antt =====
-- Commands from the line typed to the process that gets them, in a cluster of three nodes and a
-- client.
use raft_algorep.Base.{
  false, drop, List, ◌>>=◌, [], ◌∷◌, ◌++◌, map, none, some, ok, ◌≡◌, refl, Text,
}
use raft_algorep.Config.{is_node, is_client}
use raft_algorep.Rpc.{
  controller_request, RpcResponse, ControllerRequest, RpcResponse, request_leader,
}
use raft_algorep.Clock.{low, codes, get_speed_type_name}
use raft_algorep.Tests.Json.{library, library-IsLawful}
use raft_algorep.Mpi.{sent_text, recv_rpc}
use raft_algorep.Cycle.{Cycle, CycleClass}
use raft_algorep.Update.{handle_message}
use raft_algorep.Client.{Client}
use raft_algorep.Client as Clients
use raft_algorep.Reciever.{RpcRecieverReinjecter, reinject_rpc, get_rpc}
use raft_algorep.Reciever.Fifo.{reads, first_results, AllTake, upcoming, reinject_rpc-reads}
use raft_algorep.Controller.{run_lines}
use raft_algorep.Control.{speed_command-sets, entry_command-adds}
use raft_algorep.Tests.{g}

abbrev later : List Text
later = codes "CRASH 2" ∷ []

speed_command-sets_example :
    (r : ControllerRequest) × (bytes : Text) × (run_lines g
        ((codes "SPEED" ++ 32 ∷ (codes "2" ++ 32 ∷ get_speed_type_name low)) ∷ later)
      ≡ (do rest ← run_lines g later; ok (record { rpc = controller_request r; dest = 2 } ∷ rest)))
    × (sent_text library (controller_request r) ≡ ok bytes)
    × (recv_rpc library (some (record { source = 0; bytes = bytes }))
        ≡ ok (some (record { rpc = controller_request r; sender_id = 0 })))
    × ((cls : CycleClass) (m : RpcResponse) (k : Cycle)
        → handle_message g cls (controller_request r) m k
          ≡ ok (false, record k { node = record k.node { clock = low } }))
    × ((k : Client) → Clients.handle_arrival (controller_request r) k ≡ record k { clock = low })
unfolding is_node is_client
speed_command-sets_example =
    speed_command-sets library library-IsLawful g 50 [] low later (refl, tt) refl refl

entry_command-adds_example :
    (r : ControllerRequest) × (bytes : Text) × (run_lines g
        ((codes "ENTRY" ++ 32 ∷ (codes "4" ++ 32 ∷ codes "set x 1")) ∷ later)
      ≡ (do rest ← run_lines g later; ok (record { rpc = controller_request r; dest = 4 } ∷ rest)))
    × (sent_text library (controller_request r) ≡ ok bytes)
    × (recv_rpc library (some (record { source = 0; bytes = bytes }))
        ≡ ok (some (record { rpc = controller_request r; sender_id = 0 })))
    × ((k : Client)
        → Clients.handle_arrival (controller_request r) k
          ≡ record k { request = k.request ++ codes "set x 1" ∷ [] })
unfolding is_client
entry_command-adds_example =
    entry_command-adds library library-IsLawful g 52 [] (codes "set x 1") later (refl, tt) refl refl
      refl refl

abbrev asked : RpcResponse
asked = record { rpc = request_leader; sender_id = 4 }

abbrev reader : RpcRecieverReinjecter
reader = record { reinjected_messages = asked ∷ []; network = none ∷ some asked ∷ [] }

reinject_rpc-reads_example :
    (reads 3 (reinject_rpc asked reader)
      ≡ first_results 3 (map some reader.reinjected_messages ++ some asked ∷ reader.network))
    × (reads 3 reader ≡ first_results 3 (upcoming reader))
    × ((first : RpcResponse) × (rest : RpcRecieverReinjecter) × AllTake
          (reinject_rpc asked reader)
          first
          rest
        × (upcoming rest
            ≡ drop 1 (map some reader.reinjected_messages ++ some asked ∷ reader.network)))
    × (reader.reinjected_messages ≡ [] → get_rpc false reader ≡ (none, reader))
reinject_rpc-reads_example = reinject_rpc-reads 3 asked reader
