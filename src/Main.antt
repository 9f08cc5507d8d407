-- ===== src/Main.antt =====
-- src/main.cc: the counts of processes, the checks on them, and the role that this process runs,
-- with `initConfig` of src/config/globalConfig.cc on the `int`s that main has; and the two readers
-- of the command file, of main.cc and of controller.cc. MPI's rank and size, the files and the
-- arguments are parameters.
pub mod File
pub mod Roles
use raft_algorep.Base.{
  ℕ, ◌+◌, ℤ, pos, ◌+ℤ◌, ◌-ℤ◌, leb_ℤ, eq_ℤ, Bool, true, false, not, ◌&&◌, List, [], ◌∷◌, ◌++◌,
  Option, none, some, Outcome, ok, undefined, ◌>>=◌, require, leb, ltb, ◌==◌, if◌then◌else◌, Text,
}
use raft_algorep.Config.{GlobalConfig}
use raft_algorep.Rpc.{Packet}
use raft_algorep.Controller.{is_space, in_range, skip_spaces, atoi, run_lines}

-- GlobalConfig as `int`s.
pub record IntConfig : Type 0 where
  pub rank : ℤ
  pub nb_node_min : ℤ
  pub nb_node_max : ℤ
  pub nb_client_min : ℤ
  pub nb_client_max : ℤ

-- A sum and a difference of two `int`s.
abbrev pub add_int : ℤ → ℤ → Outcome ℤ
add_int a b = let s = a +ℤ b in require (in_range s) undefined (ok s)

abbrev pub sub_int : ℤ → ℤ → Outcome ℤ
sub_int a b = let s = a -ℤ b in require (in_range s) undefined (ok s)

-- A negative number of clients that main accepts leaves room for a number of nodes whose sum with
-- 1 is no `int`.
unfoldable pub init_int_config : ℤ → ℤ → ℤ → Outcome IntConfig
init_int_config rank nb_node nb_client = do
  let node_min : ℤ = pos 1
  node_end ← add_int node_min nb_node
  node_max ← sub_int node_end (pos 1)
  client_min ← add_int node_max (pos 1)
  client_end ← add_int client_min nb_client
  client_max ← sub_int client_end (pos 1)
  ok (record {
    rank = rank;
    nb_node_min = node_min;
    nb_node_max = node_max;
    nb_client_min = client_min;
    nb_client_max = client_max;
  })

pub data Role : Type 0 where
  controller_role node_role client_role : Role

-- A process returns an exit status from main, or runs a role.
pub data Started : Type 0 where
  exits : ℕ → Started
  runs : Role → IntConfig → Started

-- GlobalConfig::is_controller and is_node of the process itself.
unfoldable pub own_role : IntConfig → Role
own_role g =
    if eq_ℤ g.rank (pos 0)
    then controller_role
    else if leb_ℤ g.nb_node_min g.rank && leb_ℤ g.rank g.nb_node_max
    then node_role
    else client_role

abbrev word_of : Text → Text × Text
word_of [] = ([], [])
word_of (c ∷ cs) =
    let rest = word_of cs in if is_space c then ([], c ∷ cs) else (c ∷ rest.0, rest.1)

-- `ifs >> str`: the next word, and what is left of the stream.
unfoldable pub read_word : Text → Text × Text
read_word cs = word_of (skip_spaces cs)

-- A file is none if it cannot be opened.
module _ (file : Text → Option Text) where
  abbrev counts_of_file : Option Text → Option (Text × Text)
  counts_of_file none = none
  counts_of_file (some contents) =
      let (nb_node, rest) = read_word contents in some (nb_node, (read_word rest).0)

  -- The texts of the two counts; none: exit(EXIT_FAILURE). The arguments are without the program's
  -- name.
  unfoldable pub init_nb_process : List Text → Option (Text × Text)
  unfolding read_word
  init_nb_process (name ∷ []) = counts_of_file (file name)
  init_nb_process (nb_node ∷ nb_client ∷ []) = some (nb_node, nb_client)
  init_nb_process [] = none
  init_nb_process (a ∷ b ∷ c ∷ args) = none

unfoldable pub check_counts : ℤ → ℤ → ℕ → ℕ → Outcome Started
unfolding own_role init_int_config
check_counts nb_node nb_client rank size = do
  processes ← add_int nb_node nb_client
  slots ← add_int processes (pos 1)
  if not (eq_ℤ (pos size) slots)
      then ok (exits 1)
      else if ltb size 2
      then ok (exits 1)
      else (do g ← init_int_config (pos rank) nb_node nb_client; ok (runs (own_role g) g))

abbrev with_counts : Option (Text × Text) → ℕ → ℕ → Outcome Started
with_counts none rank size = ok (exits 1)
with_counts (some (nb_node, nb_client)) rank size = do
  n ← atoi nb_node
  k ← atoi nb_client
  check_counts n k rank size

unfoldable pub main : (Text → Option Text) → List Text → ℕ → ℕ → Outcome Started
unfolding init_nb_process atoi check_counts
main file args rank size = with_counts (init_nb_process file args) rank size

-- The lines that std::getline returns of a stream.
unfoldable pub get_lines : Text → List Text
get_lines [] = []
get_lines (c ∷ cs) = let rest = get_lines cs in if c == 10 then [] ∷ rest else extend c rest
  where
    extend : ℕ → List Text → List Text
    extend c [] = (c ∷ []) ∷ []
    extend c (line ∷ lines) = (c ∷ line) ∷ lines

-- The packets of Controller::start_command_list, which skips the two counts.
unfoldable pub start_command_list : GlobalConfig → Text → Outcome (List Packet)
unfolding read_word get_lines run_lines
start_command_list g contents =
    let rest = (read_word contents).1 in run_lines g (get_lines (read_word rest).1)
