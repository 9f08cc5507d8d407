-- ===== src/Entries.antt =====
-- The text of log entries: src/runners/node/entry.cc, and the file that Node::save_commit writes
-- (src/runners/node.cc).
pub mod Numbers
pub mod Unique
pub mod Files
use raft_algorep.Base.{
  ℕ, zero, suc, ◌+◌, ◌/◌, ◌%◌, ℤ, pos, negsuc, true, false, List, [], ◌∷◌, ◌++◌, ltb, Text,
}
use raft_algorep.Config.{GlobalConfig}
use raft_algorep.Rpc.{Entry}
use raft_algorep.Clock.{codes}

-- The decimal digits of a number; more fuel than the number is enough.
unfoldable pub digits : ℕ → ℕ → Text
digits zero n = []
digits (suc fuel) n = elim (ltb n 10) [
  | true ↦ (48 + n) ∷ []
  | false ↦ digits fuel (n / 10) ++ (48 + n % 10) ∷ []
]

abbrev pub number_text : ℕ → Text
number_text n = digits (suc n) n

-- `std::to_string` of an int, and what `<<` writes of one.
unfoldable pub int_text : ℤ → Text
unfolding digits
int_text (pos n) = number_text n
int_text (negsuc n) = 45 ∷ number_text (suc n)

-- operator<< of an entry.
unfoldable pub entry_text : Entry → Text
unfolding int_text
entry_text e =
    codes "  INDEX: "
    ++ (int_text e.index
        ++ (codes " TERM: "
            ++ (int_text e.term
                ++ (codes " CLIENT_ID: "
                    ++ (int_text (pos e.client_id) ++ (codes " CMD: " ++ e.cmd))))))

-- The lines of entries, each with its end: what the calls of `save_commit` have appended to the
-- file.
unfoldable pub file_text : List Entry → Text
unfolding entry_text
file_text [] = []
file_text (e ∷ es) = entry_text e ++ 10 ∷ file_text es

-- The name of the file of `save_commit`.
unfoldable pub log_file_name : GlobalConfig → Text
unfolding int_text
log_file_name g = codes "node_" ++ (int_text (pos g.rank) ++ codes ".log")
