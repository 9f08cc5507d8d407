-- ===== src/Main/File.antt =====
-- The command file, which main reads the two counts of, and the controller its commands.
use raft_algorep.Base.{false, ◌>>=◌, All, ◌≡◌, Text}
use raft_algorep.Controller.{is_space}

abbrev pub NoSpaces : Text → Type 0
NoSpaces cs = All (λ c. is_space c ≡ false) cs
