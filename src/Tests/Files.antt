-- ===== src/Tests/Files.antt =====
-- The file of the server in the run of the parent module, and texts of numbers.
use raft_algorep.Base.{pos, negsuc, [], ◌∷◌, ◌++◌, IfReturns, ◌≡◌, refl}
use raft_algorep.Node.{new_node}
use raft_algorep.Update.{start}
use raft_algorep.Clock.{codes}
use raft_algorep.Entries.{int_text, file_text}
use raft_algorep.Entries.Files.{Readable, start-Readable, log_file_name_unique}
use raft_algorep.Tests.{g, e₀, election, turns}

saved_text : file_text (e₀ ∷ []) ≡ codes "  INDEX: 0 TERM: 1 CLIENT_ID: 4 CMD: " ++ 7 ∷ 10 ∷ []
unfolding file_text
saved_text = refl

number_texts : (int_text (pos 2047) ≡ codes "2047") × (int_text (negsuc 9) ≡ codes "-10")
unfolding int_text
number_texts = (refl, refl)

start-Readable_example : IfReturns Readable (start g turns (new_node g election))
start-Readable_example =
    start-Readable g election turns (tt, (tt, (tt, (tt, (tt, (refl, (tt, (tt, (tt, (tt, tt))))))))))

log_file_name_unique_example : g.rank ≡ g.rank
log_file_name_unique_example = log_file_name_unique g g refl
