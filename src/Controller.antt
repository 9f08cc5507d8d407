-- ===== src/Controller.antt =====
-- src/runners/controller/controller.cc and src/utils/string.hh: the commands of the controller, as
-- the packets that each sends. Console output is not modelled, and of the sleeps only the number in
-- SLEEP, which may be no int.
pub mod Numbers
pub mod Sleep
pub mod Targets
use raft_algorep.Base.{
  ℕ, zero, suc, ◌+◌, ◌-◌, ◌*◌, ℤ, pos, negsuc, minus_one, pos_part, ◌-ℤ◌, int_max, int_min, leb_ℤ,
  eq_ℤ, Bool, true, false, not, ◌&&◌, ◌||◌, List, [], ◌∷◌, ◌++◌, Option, none, some, Outcome, ok,
  fault, out_of_range, undefined, ◌>>=◌, require, leb, ◌==◌, if◌then◌else◌, Text, map,
}
use raft_algorep.Config.{GlobalConfig, is_node, is_client, nb_node, ranks_from, node_ranks}
use raft_algorep.Rpc.{
  Rpc, controller_request, Packet, ControllerRequest, ControllerRequestType, status, crash, speed,
  start, recovery, print_log, entry,
}
use raft_algorep.Clock.{codes, text_eq}

abbrev pub is_digit : ℕ → Bool
is_digit c = leb 48 c && leb c 57

-- std::isspace.
abbrev pub is_space : ℕ → Bool
is_space c = c == 32 || (leb 9 c && leb c 13)

-- The number that the digits at the head of a text continue, from what was read before; none, if
-- there is no digit.
abbrev pub digits_from : Option ℕ → Text → Option ℕ
digits_from read [] = read
digits_from read (c ∷ cs) =
    if is_digit c then digits_from (some (value read * 10 + (c - 48))) cs else read
  where
    value : Option ℕ → ℕ
    value none = 0
    value (some n) = n

abbrev pub negate : ℕ → ℤ
negate n = pos 0 -ℤ pos n

abbrev pub with_sign : (ℕ → ℤ) → Option ℕ → Option ℤ
with_sign sign none = none
with_sign sign (some n) = some (sign n)

-- A sign, or no sign, and digits.
abbrev pub signed : Text → Option ℤ
signed [] = none
signed (c ∷ cs) =
    if c == 45
    then with_sign negate (digits_from none cs)
    else if c == 43
    then with_sign pos (digits_from none cs)
    else with_sign pos (digits_from none (c ∷ cs))

abbrev pub skip_spaces : Text → Text
skip_spaces [] = []
skip_spaces (c ∷ cs) = if is_space c then skip_spaces cs else c ∷ cs

-- std::stoi, whose std::invalid_argument is caught; its std::out_of_range is not.
abbrev pub in_range : ℤ → Bool
in_range i = leb_ℤ i int_max && leb_ℤ int_min i

abbrev pub of_number : Option ℤ → Outcome ℤ
of_number none = ok minus_one
of_number (some i) = require (in_range i) out_of_range (ok i)

unfoldable pub to_int : Text → Outcome ℤ
to_int str = of_number (signed (skip_spaces str))

abbrev pub of_digits : Option ℤ → Outcome ℤ
of_digits none = ok (pos 0)
of_digits (some i) = require (in_range i) undefined (ok i)

-- std::atoi: what is no number is 0, and a number that is no `int` is undefined behaviour.
unfoldable pub atoi : Text → Outcome ℤ
atoi str = of_digits (signed (skip_spaces str))

-- The product with 1000, as an integer of any size.
abbrev pub thousand : ℤ → ℤ
thousand (pos n) = pos (1000 * n)
thousand (negsuc n) = negsuc (1000 * n + 999)

-- `find(" ")` and the two `substr`: the text before the first space and the text after it, which is
-- empty where there is no space.
abbrev pub split_space : Text → Text × Text
split_space [] = ([], [])
split_space (c ∷ cs) =
    let rest = split_space cs in if c == 32 then ([], cs) else (c ∷ rest.0, rest.1)

abbrev pub is_empty_text : Text → Bool
is_empty_text [] = true
is_empty_text (c ∷ cs) = false

abbrev pub request_packet : ControllerRequestType → Text → ℕ → Packet
request_packet type message dst = record {
  rpc = controller_request (record { request = type; message = message });
  dest = dst;
}

-- The packet for one process, if its rank passes the test. A negative rank passes none: the ranges
-- of ranks start at 1.
unfoldable pub to_one : (ℕ → Bool) → ControllerRequestType → Text → ℤ → List Packet
to_one allowed type message (pos dst) =
    if allowed dst then request_packet type message dst ∷ [] else []
to_one allowed type message (negsuc n) = []

module _ (g : GlobalConfig) where
  abbrev pub is_process : ℕ → Bool
  is_process rank = is_node g rank || is_client g rank

  -- for (dst = nb_client_min; dst <= nb_client_max; ++dst)
  unfoldable pub client_ranks : List ℕ
  unfolding ranks_from
  client_ranks = ranks_from (g.nb_client_max + 1 - g.nb_client_min) g.nb_client_min

  unfoldable pub speed_command : Text → Outcome (List Packet)
  unfolding to_int to_one
  speed_command arg =
      let (rank_id, name) = split_space arg in
      if is_empty_text rank_id || is_empty_text name then ok [] else do
        dst ← to_int rank_id
        ok (
            if text_eq name (codes "low")
              || text_eq name (codes "medium")
              || text_eq name (codes "high")
            then to_one is_process speed name dst
            else [])

  unfoldable pub print_log_command : Text → Outcome (List Packet)
  unfolding to_int to_one node_ranks
  print_log_command arg =
      if is_empty_text arg
      then ok (map (request_packet print_log []) (node_ranks g))
      else do dst ← to_int arg; ok (to_one (is_node g) print_log [] dst)

  unfoldable pub recovery_command : Text → Outcome (List Packet)
  unfolding to_int to_one
  recovery_command arg =
      if is_empty_text arg
      then ok []
      else do dst ← to_int arg; ok (to_one is_process recovery [] dst)

  unfoldable pub crash_command : Text → Outcome (List Packet)
  unfolding to_int to_one
  crash_command arg =
      if is_empty_text arg then ok [] else do dst ← to_int arg; ok (to_one is_process crash [] dst)

  unfoldable pub start_command : Text → Outcome (List Packet)
  unfolding to_int to_one client_ranks
  start_command arg =
      if is_empty_text arg
      then ok (map (request_packet start []) client_ranks)
      else do dst ← to_int arg; ok (to_one (is_client g) start [] dst)

  unfoldable pub status_command : Text → Outcome (List Packet)
  unfolding to_int to_one node_ranks client_ranks
  status_command arg =
      if is_empty_text arg
      then ok (
          map (request_packet status []) (node_ranks g)
          ++ map (request_packet status []) client_ranks)
      else do dst ← to_int arg; ok (to_one is_process status [] dst)

  unfoldable pub entry_command : Text → Outcome (List Packet)
  unfolding to_int to_one
  entry_command arg =
      let (rank_id, cmd) = split_space arg in
      if is_empty_text rank_id || is_empty_text cmd
      then ok []
      else do dst ← to_int rank_id; ok (to_one (is_client g) entry cmd dst)

  -- `1000 * std::atoi(...)` is a product of ints.
  unfoldable pub sleep_command : Text → Outcome (List Packet)
  unfolding atoi
  sleep_command arg = do n ← atoi arg; require (in_range (thousand n)) undefined (ok [])

  -- HELP prints.
  abbrev pub no_command : Text → Outcome (List Packet)
  no_command arg = ok []

  unfoldable pub commands : List (Text × (Text → Outcome (List Packet)))
  unfolding speed_command print_log_command recovery_command crash_command start_command
      status_command entry_command sleep_command
  commands =
      (codes "CRASH", crash_command)
      ∷ (codes "HELP", no_command)
      ∷ (codes "SPEED", speed_command)
      ∷ (codes "START", start_command)
      ∷ (codes "STATUS", status_command)
      ∷ (codes "RECOVERY", recovery_command)
      ∷ (codes "PRINT_LOG", print_log_command)
      ∷ (codes "ENTRY", entry_command)
      ∷ (codes "SLEEP", sleep_command)
      ∷ []

  -- The loop over the table; an unknown command is only reported.
  unfoldable pub run_command :
      List (Text × (Text → Outcome (List Packet))) → Text → Text → Outcome (List Packet)
  run_command [] command arg = ok []
  run_command ((name, run) ∷ rest) command arg =
      let others = run_command rest command arg in if text_eq name command then run arg else others

  unfoldable pub parse_input_command : Text → Outcome (List Packet)
  unfolding commands run_command
  parse_input_command line =
      let (command, arg) = split_space line in run_command commands command arg

  -- The loops of `start` and `start_command_list`, over the lines that std::getline returns.
  unfoldable pub run_lines : List Text → Outcome (List Packet)
  unfolding parse_input_command
  run_lines [] = ok []
  run_lines (line ∷ lines) = do
    sent ← if is_empty_text line then ok [] else parse_input_command line
    rest ← run_lines lines
    ok (sent ++ rest)
