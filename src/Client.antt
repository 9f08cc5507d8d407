-- ===== src/Client.antt =====
-- src/runners/client/client.hh and client.cc: a client, which takes commands from the controller
-- and sends them to the leader. Console output, log lines and the sleeps are not modelled.
pub mod Commands
pub mod Intake
pub mod Told
use raft_algorep.Base.{
  ℕ, zero, suc, ◌+◌, ◌-◌, ◌%◌, Bool, true, false, not, List, [], ◌∷◌, ◌++◌, Option, none, some,
  Outcome, ok, fault, undefined, waiting, out_of_fuel, ◌>>=◌, require, ◌==◌, if◌then◌else◌, Text,
}
use raft_algorep.Config.{GlobalConfig}
use raft_algorep.Rpc.{
  Rpc, request_leader, request_leader_response, request_client, controller_request, RpcResponse,
  RequestLeaderResponse, Packet, ControllerRequest, ControllerRequestType, status, crash, speed,
  start, recovery, print_log, entry,
}
use raft_algorep.Reciever.{RpcRecieverReinjecter, get_rpc_timeout, pending, recv}
use raft_algorep.Clock.{SpeedType, high, get_speed_type}

-- The last field is the outside world: the packets given to MPI so far. The field `timer` only sets
-- the time-outs, which are entries of the schedule of arrivals.
pub record Client : Type 0 where
  pub run : Bool
  pub leader_id : ℕ
  pub rpc_reciever : RpcRecieverReinjecter
  pub request : List Text
  pub clock : SpeedType
  pub sent : List Packet

-- `leaderId` is not initialised: `stale` is the value that it happens to have.
unfoldable pub new_client : ℕ → List (Option RpcResponse) → Client
new_client stale net = record {
  run = false;
  leader_id = stale;
  rpc_reciever = record { reinjected_messages = []; network = net };
  request = [];
  clock = high;
  sent = [];
}

unfoldable pub add_request : Text → Client → Client
add_request message c = record c { request = c.request ++ message ∷ [] }

unfoldable pub apply_request : ControllerRequestType → Text → Client → Client
unfolding add_request
apply_request status message c = c
apply_request crash message c = if c.run then record c { run = false } else c
apply_request start message c = if c.run then c else record c { run = true }
apply_request speed message c = record c { clock = get_speed_type message }
apply_request recovery message c = record c { run = true }
apply_request entry message c = add_request message c
apply_request print_log message c = c

unfoldable pub handle_controller_request : ControllerRequest → Client → Client
unfolding apply_request
handle_controller_request r c = apply_request r.request r.message c

-- An answer of the leader is only logged, and other messages are dropped.
unfoldable pub handle_arrival : Rpc → Client → Client
unfolding handle_controller_request
handle_arrival (controller_request r) c = handle_controller_request r c
handle_arrival _ c = c

-- The loop body after its receive; `loop` is the rest of the loop.
unfoldable pub after_receive :
    (Client → Outcome Client) → Option RpcResponse → Client → Outcome Client
unfolding handle_arrival
after_receive loop none c = ok c
after_receive loop (some m) c = loop (handle_arrival m.rpc c)

-- do { ... } while (!hasTimedOut): each round takes a message off.
unfoldable pub requests_loop : ℕ → Client → Outcome Client
unfolding after_receive get_rpc_timeout
requests_loop zero c = fault out_of_fuel
requests_loop (suc fuel) c =
    let (arrived, r) = get_rpc_timeout c.rpc_reciever in
    after_receive (requests_loop fuel) arrived (record c { rpc_reciever = r })

unfoldable pub handle_requests : Client → Outcome Client
unfolding requests_loop
handle_requests c = requests_loop (pending c.rpc_reciever + 1) c

unfoldable pub send_packet : Rpc → ℕ → Client → Client
send_packet rpc dest c = record c { sent = c.sent ++ record { rpc = rpc; dest = dest } ∷ [] }

-- The leader that an answer names, if it names one.
unfoldable pub leader_of : Option RpcResponse → Option ℕ
leader_of none = none
leader_of (some m) = named m.rpc
  where
    named : Rpc → Option ℕ
    named (request_leader_response r) = if r.success then some r.leader_id else none
    named _ = none

module _ (g : GlobalConfig) where
  -- The node that a random number chooses; `max` is written so that the subtraction is exact.
  unfoldable pub random_node : ℕ → Outcome ℕ
  random_node draw =
      let max = g.nb_node_max + 1 - g.nb_node_min in
      require (not (max == 0)) undefined (ok (draw % max + g.nb_node_min))

  -- `while (!success)`: the result of a receive, and the rest of the loop.
  unfoldable pub leader_answer : (Client → Outcome Client) → Option ℕ → Client → Outcome Client
  leader_answer loop none c = loop c
  leader_answer loop (some leader) c = ok (record c { leader_id = leader })

  -- Ask the node `dst` for the leader: its answer, if it comes in time and names one. The receive
  -- passes by the queue of the messages to be read again.
  unfoldable pub ask_node : ℕ → Client → Option ℕ × Client
  unfolding send_packet leader_of
  ask_node dst c =
      let asked = send_packet request_leader dst c in
      let (answer, net) = recv asked.rpc_reciever.network in
      (
        leader_of answer,
        record asked { rpc_reciever = record asked.rpc_reciever { network = net } },
      )

  -- The results of std::rand to come; when they are over, the client still searches.
  unfoldable pub request_leader_id : List ℕ → Client → Outcome Client
  unfolding random_node ask_node leader_answer
  request_leader_id [] c = fault waiting
  request_leader_id (draw ∷ draws) c = do
    dst ← random_node draw
    let (leader, d) = ask_node dst c
    leader_answer (request_leader_id draws) leader d

  -- The loop of `send_request`.
  unfoldable pub send_all : List Text → Client → Client
  unfolding send_packet
  send_all [] c = c
  send_all (message ∷ messages) c =
      send_all messages (send_packet (request_client message) c.leader_id c)

  unfoldable pub send_request : Client → Client
  unfolding send_all
  send_request c = record (send_all c.request c) { request = [] }

  unfoldable pub is_empty_request : List Text → Bool
  is_empty_request [] = true
  is_empty_request (message ∷ messages) = false

  -- One turn of the loop of `start`.
  unfoldable pub client_turn : List ℕ → Client → Outcome Client
  unfolding handle_requests request_leader_id send_request is_empty_request
  client_turn draws c = do
    c₁ ← handle_requests c
    if not c₁.run then ok c₁ else do
      c₂ ← request_leader_id draws c₁
      ok (if is_empty_request c₂.request then c₂ else send_request c₂)

  -- The first turns of `start`, one for each list of random numbers.
  unfoldable pub start_client : List (List ℕ) → Client → Outcome Client
  unfolding client_turn
  start_client [] c = ok c
  start_client (draws ∷ turns) c = do c' ← client_turn draws c; start_client turns c'
