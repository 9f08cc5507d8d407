-- ===== src/Entries/Files.antt =====
-- The files node_<rank>.log of running servers.
use raft_algorep.Base.{
  ℕ, refl, true, List, Option, none, map, drop, All, Text, IfReturns, IfReturns-mono, ◌≡◌, sym, ap,
  ◌∙◌,
}
use raft_algorep.Config.{GlobalConfig}
use raft_algorep.Rpc.{Entry, RpcResponse}
use raft_algorep.Node.{Node, State, new_node}
use raft_algorep.Node.Sourced.{ArrivalOf}
use raft_algorep.Update.{start}
use raft_algorep.Update.Sourced.{start-Sourced}
use raft_algorep.Controller.{digits_from}
use raft_algorep.Main.{get_lines}
use raft_algorep.Entries.{entry_text, file_text, log_file_name}
use raft_algorep.Entries.Numbers.{one_line, number-read_before}
use raft_algorep.Entries.Unique.{OneLiners, get_lines-file_text, file_text_unique}

abbrev pub IsOneLine : Text → ℕ → Type 0
IsOneLine t client = one_line t ≡ true

-- The lines of a server's file are the texts of the entries that it has saved, and no other entries
-- with such commands have that file.
abbrev pub Readable : Node → Type 0
Readable n =
    (get_lines (file_text n.saved) ≡ map entry_text n.saved)
    × ((es : List Entry) → OneLiners es → file_text es ≡ file_text n.saved → es ≡ n.saved)

-- Let no command in the messages that will arrive contain a line's end. While a server that starts
-- fresh is running, std::getline on its file gives one line for each entry that it has saved, in
-- order, which is the entry's text; and any entries, with commands without a line's end, that
-- would make the same file are the entries that it has saved.
pub start-Readable :
    (g : GlobalConfig) (net : List (Option RpcResponse)) (stales : List State)
    → All (ArrivalOf IsOneLine) net
    → IfReturns Readable (start g stales (new_node g net))
start-Readable g net stales h =
    IfReturns-mono _ Readable _ (start-Sourced IsOneLine g net stales h) (λ n s. (
      get_lines-file_text n.saved s.in_file,
      λ es k same. file_text_unique es n.saved k s.in_file same,
    ))

-- Processes of different ranks write different files.
pub log_file_name_unique :
    (g g' : GlobalConfig) → log_file_name g ≡ log_file_name g' → g.rank ≡ g'.rank
unfolding log_file_name
log_file_name_unique g g' same =
    let read =
      sym (number-read_before g.rank 46 _ refl)
      ∙ ap (λ t. digits_from none (drop 5 t)) same
      ∙ number-read_before g'.rank 46 _ refl in
    cc
