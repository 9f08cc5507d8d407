-- ===== src/Tests/Main.antt =====
-- The start of a process, by arguments and by a command file.
use raft_algorep.Base.{
  ◌+◌, pos, negsuc, ◌+ℤ◌, ◌-ℤ◌, leb, ◌==◌, ◌&&◌, [], ◌∷◌, ◌++◌, Option, some, ok, fault, undefined,
  ◌>>=◌, if◌then◌else◌, ◌≡◌, refl, Text,
}
use raft_algorep.Config.{init_config}
use raft_algorep.Clock.{codes}
use raft_algorep.Controller.{atoi}
use raft_algorep.Main.{
  exits, runs, client_role, main, init_nb_process, check_counts, own_role, init_int_config,
  get_lines,
}
use raft_algorep.Main.Roles.{int_config, role_of, main-counts}

abbrev cmd_file : Text
cmd_file = (52 ∷ []) ++ 10 ∷ ((50 ∷ []) ++ 10 ∷ (codes "START 5" ++ 10 ∷ codes "ENTRY 5 ls"))

abbrev files : Text → Option Text
files name = some cmd_file

main-counts_example :
    main files (codes "4" ∷ codes "2" ∷ []) 5 7
    ≡ ok (
        if (7 == 4 + 2 + 1) && leb 2 7
        then runs (role_of 4 5) (int_config (init_config 5 4 2))
        else exits 1)
main-counts_example = main-counts files 5 7 52 50 [] [] (refl, tt) (refl, tt) refl

lines_of_file :
    get_lines (codes "START 5" ++ 10 ∷ codes "ENTRY 5 ls")
    ≡ codes "START 5" ∷ codes "ENTRY 5 ls" ∷ []
unfolding get_lines
lines_of_file = refl

-- Minus one nodes and five clients are accepted as five processes.
negative_counts :
    main files (codes "-1" ∷ codes "5" ∷ []) 1 5
    ≡ (init_int_config (pos 1) (negsuc 0) (pos 5) >>= λ c. ok (runs client_role c))
unfolding main init_nb_process atoi check_counts own_role init_int_config ◌-ℤ◌ ◌+ℤ◌
negative_counts = refl

-- The largest number of nodes with a negative number of clients passes the check, and overflows.
overflow : main files (codes "2147483647" ∷ codes "-2147483640" ∷ []) 1 8 ≡ fault undefined
unfolding main init_nb_process atoi check_counts init_int_config ◌-ℤ◌ ◌+ℤ◌
overflow = refl
