-- ===== src/Control.antt =====
-- A command typed at the controller, the message that MPI carries, and the process that gets it:
-- controller.cc, mpi_include.cc, cycle.cc and client.cc together.
use raft_algorep.Base.{
  ℕ, pos, int_max, leb_ℤ, Bool, true, false, ◌||◌, List, [], ◌∷◌, ◌++◌, some, ok, ◌>>=◌, ◌≡◌, refl,
  ◌∙◌, Text,
}
use raft_algorep.Config.{GlobalConfig, is_client}
use raft_algorep.Rpc.{
  controller_request, RpcResponse, Packet, ControllerRequest, ControllerRequestType, speed, entry,
}
use raft_algorep.Clock.{SpeedType, high, medium, low, codes, text_eq, get_speed_type_name}
use raft_algorep.Json.{JsonLib, IsLawful, is_ascii}
use raft_algorep.Mpi.{sent_text, recv_rpc}
use raft_algorep.Mpi.RoundTrip.{recv_rpc-sent_text}
use raft_algorep.Rpc.Names.{speed_type_of_name}
use raft_algorep.Cycle.{Cycle, CycleClass, handle_request, handle_controller_request}
use raft_algorep.Update.{handle_message}
use raft_algorep.Client.{Client}
use raft_algorep.Client as Clients
use raft_algorep.Controller.{
  is_empty_text, to_int, to_one, request_packet, is_process, speed_command, entry_command, commands,
  run_command, parse_input_command, run_lines,
}
use raft_algorep.Controller.Numbers.{
  decimal, AllDigits, AllDigits-NoSpace, split_space-append, to_int-decimal,
}

to_one-process :
    (allowed : ℕ → Bool) (type : ControllerRequestType) (message : Text) (dst : ℕ)
    → allowed dst ≡ true
    → to_one allowed type message (pos dst) ≡ request_packet type message dst ∷ []
unfolding to_one
to_one-process allowed type message dst h = rw h refl

to_int-int :
    (c : ℕ) (cs : Text)
    → AllDigits (c ∷ cs)
    → leb_ℤ (pos (decimal 0 (c ∷ cs))) int_max ≡ true
    → to_int (c ∷ cs) ≡ ok (pos (decimal 0 (c ∷ cs)))
to_int-int c cs digits small = to_int-decimal c cs digits ∙ (rw small refl)

-- A line of a command that the table has, and what it sends.
typed_speed :
    (g : GlobalConfig) (arg : Text)
    → parse_input_command g (codes "SPEED" ++ 32 ∷ arg) ≡ speed_command g arg
unfolding parse_input_command commands run_command
typed_speed g arg = refl

typed_entry :
    (g : GlobalConfig) (arg : Text)
    → parse_input_command g (codes "ENTRY" ++ 32 ∷ arg) ≡ entry_command g arg
unfolding parse_input_command commands run_command
typed_entry g arg = refl

-- One line, of a command that sends `p`, among the lines.
run_lines-first :
    (g : GlobalConfig) (c : ℕ) (line : Text) (lines : List Text) (p : Packet)
    → parse_input_command g (c ∷ line) ≡ ok (p ∷ [])
    → run_lines g ((c ∷ line) ∷ lines) ≡ (do rest ← run_lines g lines; ok (p ∷ rest))
unfolding run_lines
run_lines-first g c line lines p h = rw h refl

speed_name-is_known :
    (s : SpeedType)
    → (is_empty_text (get_speed_type_name s) ≡ false)
      × ((text_eq (get_speed_type_name s) (codes "low")
            || text_eq (get_speed_type_name s) (codes "medium")
            || text_eq (get_speed_type_name s) (codes "high"))
          ≡ true)
unfolding get_speed_type_name
speed_name-is_known high = (refl, refl)
speed_name-is_known medium = (refl, refl)
speed_name-is_known low = (refl, refl)

speed_name-is_ascii : (s : SpeedType) → is_ascii (get_speed_type_name s) ≡ true
unfolding get_speed_type_name
speed_name-is_ascii high = refl
speed_name-is_ascii medium = refl
speed_name-is_ascii low = refl

speed_command-sends :
    (g : GlobalConfig) (c : ℕ) (cs : Text) (s : SpeedType)
    → AllDigits (c ∷ cs)
    → leb_ℤ (pos (decimal 0 (c ∷ cs))) int_max ≡ true
    → is_process g (decimal 0 (c ∷ cs)) ≡ true
    → speed_command g ((c ∷ cs) ++ 32 ∷ get_speed_type_name s)
      ≡ ok (request_packet speed (get_speed_type_name s) (decimal 0 (c ∷ cs)) ∷ [])
unfolding speed_command
speed_command-sends g c cs s digits small there =
    let (not_empty, known) = speed_name-is_known s in
    rw
      (
        split_space-append (c ∷ cs) (get_speed_type_name s) (AllDigits-NoSpace (c ∷ cs) digits),
        not_empty,
        to_int-int c cs digits small,
        known,
        to_one-process (is_process g) speed (get_speed_type_name s) (decimal 0 (c ∷ cs)) there,
      )
      refl

speed_request_sets :
    (g : GlobalConfig) (s : SpeedType) (cls : CycleClass) (m : RpcResponse) (c : Cycle)
    → handle_message g cls
        (controller_request (record { request = speed; message = get_speed_type_name s }))
        m
        c
      ≡ ok (false, record c { node = record c.node { clock = s } })
unfolding handle_message handle_controller_request handle_request
speed_request_sets g s cls m c = rw (speed_type_of_name s) refl

speed_request_sets_client :
    (s : SpeedType) (c : Client)
    → Clients.handle_arrival
        (controller_request (record { request = speed; message = get_speed_type_name s }))
        c
      ≡ record c { clock = s }
unfolding Clients.handle_arrival Clients.handle_controller_request Clients.apply_request
speed_request_sets_client s c = rw (speed_type_of_name s) refl

-- If the line `SPEED rank speed` is typed, of the decimal rank of a process, at most the largest
-- int, and the name of a speed, then the controller sends one message for it, to that rank, and
-- then, if reading them ends, those for the lines after it. Its bytes are received as a request
-- that gives a server or a client this speed, changes nothing else of it, and does not make the
-- server leave its cycle.
pub speed_command-sets :
    (L : JsonLib)
    → IsLawful L
    → (g : GlobalConfig) (c : ℕ) (cs : Text) (s : SpeedType) (lines : List Text)
    → AllDigits (c ∷ cs)
    → leb_ℤ (pos (decimal 0 (c ∷ cs))) int_max ≡ true
    → is_process g (decimal 0 (c ∷ cs)) ≡ true
    → (r : ControllerRequest) × (bytes : Text) × (run_lines g
          ((codes "SPEED" ++ 32 ∷ ((c ∷ cs) ++ 32 ∷ get_speed_type_name s)) ∷ lines)
        ≡ (do
          rest ← run_lines g lines
          ok (record { rpc = controller_request r; dest = decimal 0 (c ∷ cs) } ∷ rest)))
      × (sent_text L (controller_request r) ≡ ok bytes)
      × (recv_rpc L (some (record { source = 0; bytes = bytes }))
          ≡ ok (some (record { rpc = controller_request r; sender_id = 0 })))
      × ((cls : CycleClass) (m : RpcResponse) (k : Cycle)
          → handle_message g cls (controller_request r) m k
            ≡ ok (false, record k { node = record k.node { clock = s } }))
      × ((k : Client) → Clients.handle_arrival (controller_request r) k ≡ record k { clock = s })
speed_command-sets L law g c cs s lines digits small there =
    let r : ControllerRequest = record { request = speed; message = get_speed_type_name s } in
    let (bytes, sent, got) =
      recv_rpc-sent_text L law (controller_request r) 0
        (law.is_utf8-ascii _ (speed_name-is_ascii s)) in
    (
      r,
      bytes,
      run_lines-first g 83 _ lines _
          (typed_speed g _ ∙ speed_command-sends g c cs s digits small there),
      sent,
      got,
      speed_request_sets g s,
      speed_request_sets_client s,
    )

entry_command-sends :
    (g : GlobalConfig) (c : ℕ) (cs cmd : Text)
    → AllDigits (c ∷ cs)
    → leb_ℤ (pos (decimal 0 (c ∷ cs))) int_max ≡ true
    → is_client g (decimal 0 (c ∷ cs)) ≡ true
    → is_empty_text cmd ≡ false
    → entry_command g ((c ∷ cs) ++ 32 ∷ cmd)
      ≡ ok (request_packet entry cmd (decimal 0 (c ∷ cs)) ∷ [])
unfolding entry_command
entry_command-sends g c cs cmd digits small there not_empty =
    rw
      (
        split_space-append (c ∷ cs) cmd (AllDigits-NoSpace (c ∷ cs) digits),
        not_empty,
        to_int-int c cs digits small,
        to_one-process (is_client g) entry cmd (decimal 0 (c ∷ cs)) there,
      )
      refl

entry_request_adds :
    (cmd : Text) (c : Client)
    → Clients.handle_arrival (controller_request (record { request = entry; message = cmd })) c
      ≡ record c { request = c.request ++ cmd ∷ [] }
unfolding Clients.handle_arrival Clients.handle_controller_request Clients.apply_request
    Clients.add_request
entry_request_adds cmd c = refl

-- If the line `ENTRY rank command` is typed, of the decimal rank of a client, at most the largest
-- int, and a command that is not empty and is UTF-8, then the controller sends one message for it,
-- to that client, and then, if reading them ends, those for the lines after it. Its bytes are
-- received as a request that puts the command, spaces included, behind those that the client still
-- has, and changes nothing else of it.
pub entry_command-adds :
    (L : JsonLib)
    → IsLawful L
    → (g : GlobalConfig) (c : ℕ) (cs cmd : Text) (lines : List Text) → AllDigits (c ∷ cs)
    → leb_ℤ (pos (decimal 0 (c ∷ cs))) int_max ≡ true
    → is_client g (decimal 0 (c ∷ cs)) ≡ true
    → is_empty_text cmd ≡ false
    → L.is_utf8 cmd ≡ true
    → (r : ControllerRequest) × (bytes : Text) × (run_lines g
          ((codes "ENTRY" ++ 32 ∷ ((c ∷ cs) ++ 32 ∷ cmd)) ∷ lines)
        ≡ (do
          rest ← run_lines g lines
          ok (record { rpc = controller_request r; dest = decimal 0 (c ∷ cs) } ∷ rest)))
      × (sent_text L (controller_request r) ≡ ok bytes)
      × (recv_rpc L (some (record { source = 0; bytes = bytes }))
          ≡ ok (some (record { rpc = controller_request r; sender_id = 0 })))
      × ((k : Client)
          → Clients.handle_arrival (controller_request r) k
            ≡ record k { request = k.request ++ cmd ∷ [] })
entry_command-adds L law g c cs cmd lines digits small there not_empty cmd_utf8 =
    let r : ControllerRequest = record { request = entry; message = cmd } in
    let (bytes, sent, got) = recv_rpc-sent_text L law (controller_request r) 0 cmd_utf8 in
    (
      r,
      bytes,
      run_lines-first g 69 _ lines _
          (typed_entry g _ ∙ entry_command-sends g c cs cmd digits small there not_empty),
      sent,
      got,
      entry_request_adds cmd,
    )
