-- ===== src/Controller/Targets.antt =====
-- The processes that the controller's commands reach.
use raft_algorep.Base.{
  ℕ, zero, suc, ◌+◌, ◌≤◌, ◌<◌, ℤ, pos, negsuc, Bool, true, false, Bool-cases, ◌||◌, List, [], ◌∷◌,
  ◌++◌, map, Option, none, some, Outcome, ok, Fault, out_of_range, Ends-faults, ◌>>=◌, Ends,
  Ends-bind, Ends-if, Ends-require, if◌then◌else◌, All, All-append, ◌≡◌, refl, inl, inr, arith,
  Text,
}
use raft_algorep.Config.{GlobalConfig, is_node, is_client, nb_node, ranks_from, node_ranks}
use raft_algorep.Rpc.{
  controller_request, Packet, ControllerRequest, ControllerRequestType, status, crash, speed, start,
  recovery, print_log, entry,
}
use raft_algorep.Clock.{codes, text_eq}
use raft_algorep.Controller.{
  of_number, in_range, to_int, request_packet, to_one, is_process, client_ranks, speed_command,
  print_log_command, recovery_command, crash_command, start_command, status_command, entry_command,
  commands, run_command, parse_input_command, signed, skip_spaces, run_lines, is_empty_text,
  split_space,
}
use raft_algorep.Controller.Sleep.{Stops, LineStops, here, later, sleep_command-Ends}

abbrev Thrown : Fault → Type 0
Thrown e = e ≡ out_of_range

abbrev Ended {ℓ} : {A : Type ℓ} → A → Type 0
Ended a = Unit {0}

of_number-Thrown : (o : Option ℤ) → Ends Thrown Ended (of_number o)
of_number-Thrown none = tt
of_number-Thrown (some i) =
    Ends-require Thrown Ended (in_range i) out_of_range (ok i) (λ _. refl) (λ _. tt)

to_int-Thrown : (t : Text) → Ends Thrown Ended (to_int t)
unfolding to_int
to_int-Thrown t = of_number-Thrown (signed (skip_spaces t))

module _ (g : GlobalConfig) where
  -- The processes that a kind of request may be sent to.
  abbrev pub reaches : ControllerRequestType → ℕ → Bool
  reaches entry dst = is_client g dst
  reaches start dst = is_client g dst
  reaches print_log dst = is_node g dst
  reaches status dst = is_process g dst
  reaches crash dst = is_process g dst
  reaches speed dst = is_process g dst
  reaches recovery dst = is_process g dst

  abbrev pub Addressed : Packet → Type 0
  Addressed p =
      (r : ControllerRequest) × (p.rpc ≡ controller_request r) × (reaches r.request p.dest ≡ true)

  Fine : Outcome (List Packet) → Type 0
  Fine m = Ends Thrown (All Addressed) m

  to_one-Addressed :
      (allowed : ℕ → Bool) (type : ControllerRequestType) (message : Text) (dst : ℤ)
      → ((r : ℕ) → allowed r ≡ true → reaches type r ≡ true)
      → All Addressed (to_one allowed type message dst)
  unfolding to_one
  to_one-Addressed allowed type message (negsuc n) h = tt
  to_one-Addressed allowed type message (pos r) h = elim (Bool-cases (allowed r)) [
    | inl e ↦ rw e ((record { request = type; message = message }, refl, h r e), tt)
    | inr e ↦ rw e tt
  ]

  one-Fine :
      (allowed : ℕ → Bool) (type : ControllerRequestType) (message rank : Text)
      → ((r : ℕ) → allowed r ≡ true → reaches type r ≡ true)
      → Fine (to_int rank >>= λ dst. ok (to_one allowed type message dst))
  unfolding Fine
  one-Fine allowed type message rank h =
      Ends-bind Thrown Ended (All Addressed) (to_int rank) _ (to_int-Thrown rank)
        (λ dst _. to_one-Addressed allowed type message dst h)

  each-Addressed :
      (type : ControllerRequestType) (ranks : List ℕ)
      → All (λ r. reaches type r ≡ true) ranks
      → All Addressed (map (request_packet type []) ranks)
  each-Addressed type [] h = tt
  each-Addressed type (r ∷ ranks) h =
      ((record { request = type; message = [] }, refl, h.0), each-Addressed type ranks h.1)

  ranks_from-All :
      (P : ℕ → Type 0) (count first : ℕ)
      → ((r : ℕ) → first ≤ r → r < first + count → P r)
      → All P (ranks_from count first)
  unfolding ranks_from
  ranks_from-All P zero first h = tt
  ranks_from-All P (suc count) first h = (
    h first (omega arith) (omega arith),
    ranks_from-All P count (first + 1) (λ r lo hi. h r (omega arith) (omega arith)),
  )

  nodes-All : All (λ r. is_node g r ≡ true) (node_ranks g)
  unfolding node_ranks nb_node is_node
  nodes-All =
      ranks_from-All (λ r. is_node g r ≡ true) (nb_node g) g.nb_node_min (λ r lo hi. ground arith)

  clients-All : All (λ r. is_client g r ≡ true) (client_ranks g)
  unfolding client_ranks is_client
  clients-All =
      ranks_from-All (λ r. is_client g r ≡ true) _ g.nb_client_min (λ r lo hi. ground arith)

  All-map : (P Q : ℕ → Type 0) (xs : List ℕ) → ((x : ℕ) → P x → Q x) → All P xs → All Q xs
  All-map P Q [] h a = tt
  All-map P Q (x ∷ xs) h a = (h x a.0, All-map P Q xs h a.1)

  node_process : (r : ℕ) → is_node g r ≡ true → is_process g r ≡ true
  node_process r h = ground arith

  client_process : (r : ℕ) → is_client g r ≡ true → is_process g r ≡ true
  client_process r h = ground arith

  speed-Fine : (arg : Text) → Fine (speed_command g arg)
  unfolding Fine speed_command
  speed-Fine arg =
      Ends-if Thrown (All Addressed) (is_empty_text rank || is_empty_text name) (ok []) _ (λ _. tt)
        λ _. Ends-bind Thrown Ended (All Addressed) (to_int rank) _ (to_int-Thrown rank) λ dst _.
          if_known
            (text_eq name (codes "low")
              || text_eq name (codes "medium")
              || text_eq name (codes "high"))
            (to_one (is_process g) speed name dst)
            (to_one-Addressed (is_process g) speed name dst (λ r h. h))
    where
      rank : Text
      rank = (split_space arg).0

      name : Text
      name = (split_space arg).1

      if_known :
          (b : Bool) (ps : List Packet) → All Addressed ps → All Addressed (if b then ps else [])
      if_known true ps h = h
      if_known false ps h = tt

  print_log-Fine : (arg : Text) → Fine (print_log_command g arg)
  unfolding Fine print_log_command
  print_log-Fine arg =
      Ends-if Thrown (All Addressed) (is_empty_text arg)
        (ok (map (request_packet print_log []) (node_ranks g))) _
        (λ _. each-Addressed print_log (node_ranks g) nodes-All)
        (λ _. one-Fine (is_node g) print_log [] arg (λ r h. h))

  recovery-Fine : (arg : Text) → Fine (recovery_command g arg)
  unfolding Fine recovery_command
  recovery-Fine arg =
      Ends-if Thrown (All Addressed) (is_empty_text arg) (ok []) _ (λ _. tt)
        (λ _. one-Fine (is_process g) recovery [] arg (λ r h. h))

  crash-Fine : (arg : Text) → Fine (crash_command g arg)
  unfolding Fine crash_command
  crash-Fine arg =
      Ends-if Thrown (All Addressed) (is_empty_text arg) (ok []) _ (λ _. tt)
        (λ _. one-Fine (is_process g) crash [] arg (λ r h. h))

  start-Fine : (arg : Text) → Fine (start_command g arg)
  unfolding Fine start_command
  start-Fine arg =
      Ends-if Thrown (All Addressed) (is_empty_text arg)
        (ok (map (request_packet start []) (client_ranks g))) _
        (λ _. each-Addressed start (client_ranks g) clients-All)
        (λ _. one-Fine (is_client g) start [] arg (λ r h. h))

  status-Fine : (arg : Text) → Fine (status_command g arg)
  unfolding Fine status_command
  status-Fine arg =
      Ends-if Thrown (All Addressed) (is_empty_text arg)
        (ok (
          map (request_packet status []) (node_ranks g)
          ++ map (request_packet status []) (client_ranks g)))
        _
        (λ _.
          All-append Addressed (map (request_packet status []) (node_ranks g))
            (map (request_packet status []) (client_ranks g))
            (each-Addressed status (node_ranks g)
              (All-map _ _ (node_ranks g) node_process nodes-All))
            (each-Addressed status (client_ranks g)
              (All-map _ _ (client_ranks g) client_process clients-All)))
        (λ _. one-Fine (is_process g) status [] arg (λ r h. h))

  entry-Fine : (arg : Text) → Fine (entry_command g arg)
  unfolding Fine entry_command
  entry-Fine arg =
      Ends-if Thrown (All Addressed)
        (is_empty_text (split_space arg).0 || is_empty_text (split_space arg).1) (ok []) _ (λ _. tt)
        (λ _. one-Fine (is_client g) entry (split_space arg).1 (split_space arg).0 (λ r h. h))

  run_command-Ends :
      (F : Fault → Type 0) (table : List (Text × (Text → Outcome (List Packet))))
      (command arg : Text)
      → All (λ p. text_eq p.0 command ≡ true → Ends F (All Addressed) (p.1 arg)) table
      → Ends F (All Addressed) (run_command g table command arg)
  unfolding run_command
  run_command-Ends F [] command arg h = tt
  run_command-Ends F ((name, run) ∷ rest) command arg h =
      Ends-if F (All Addressed) (text_eq name command) (run arg) (run_command g rest command arg)
        (λ is. h.0 is) (λ _. run_command-Ends F rest command arg h.1)

  fine :
      (line : Text) (m : Outcome (List Packet)) → Fine m → Ends (LineStops line) (All Addressed) m
  unfolding Fine
  fine line m h = Ends-faults Thrown (LineStops line) (All Addressed) m h (λ e t. inl t)

  parse-Stops : (line : Text) → Ends (LineStops line) (All Addressed) (parse_input_command g line)
  unfolding parse_input_command commands
  parse-Stops line =
      let arg = (split_space line).1 in
      run_command-Ends (LineStops line) (commands g) (split_space line).0 arg (
        (λ _. fine line (crash_command g arg) (crash-Fine arg)),
        (
          (λ _. tt),
          (
            (λ _. fine line (speed_command g arg) (speed-Fine arg)),
            (
              (λ _. fine line (start_command g arg) (start-Fine arg)),
              (
                (λ _. fine line (status_command g arg) (status-Fine arg)),
                (
                  (λ _. fine line (recovery_command g arg) (recovery-Fine arg)),
                  (
                    (λ _. fine line (print_log_command g arg) (print_log-Fine arg)),
                    (
                      (λ _. fine line (entry_command g arg) (entry-Fine arg)),
                      (sleep_command-Ends g (All Addressed) line tt, tt),
                    ),
                  ),
                ),
              ),
            ),
          ),
        ),
      )

  -- Whatever lines are typed, the controller sends only requests to processes that exist and may
  -- get them: ENTRY and START to clients, PRINT_LOG to nodes, the others to nodes or clients.
  -- Reading the lines ends, or stops the controller with an uncaught std::out_of_range, or, if one
  -- of them is a SLEEP whose number times 1000 is no int, is undefined behaviour.
  pub run_lines-Addressed :
      (lines : List Text) → Ends (Stops lines) (All Addressed) (run_lines g lines)
  unfolding run_lines
  run_lines-Addressed [] = tt
  run_lines-Addressed (line ∷ lines) =
      Ends-bind (Stops (line ∷ lines)) (All Addressed) (All Addressed)
        (if is_empty_text line then ok [] else parse_input_command g line) _
        (Ends-if (Stops (line ∷ lines)) (All Addressed) (is_empty_text line) (ok [])
          (parse_input_command g line) (λ _. tt)
          (λ _.
            Ends-faults (LineStops line) (Stops (line ∷ lines)) (All Addressed)
              (parse_input_command g line) (parse-Stops line) first_line))
        λ sent a.
          Ends-bind (Stops (line ∷ lines)) (All Addressed) (All Addressed) (run_lines g lines) _
            (Ends-faults (Stops lines) (Stops (line ∷ lines)) (All Addressed) (run_lines g lines)
              (run_lines-Addressed lines) next_lines)
            (λ rest b. All-append Addressed sent rest a b)
    where
      first_line : (e : Fault) → LineStops line e → Stops (line ∷ lines) e
      first_line e (inl thrown) = inl thrown
      first_line e (inr (u, long)) = inr (u, here long)

      next_lines : (e : Fault) → Stops lines e → Stops (line ∷ lines) e
      next_lines e (inl thrown) = inl thrown
      next_lines e (inr (u, some_line)) = inr (u, later some_line)
