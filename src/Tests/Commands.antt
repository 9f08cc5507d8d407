-- ===== src/Tests/Commands.antt =====
-- The controller at concrete inputs.
use raft_algorep.Base.{
  List, [], ◌∷◌, ok, fault, undefined, out_of_range, pos, Ends, All, ◌≡◌, refl, Text, if◌then◌else◌,
  leb_ℤ, int_max,
}
use raft_algorep.Rpc.{crash, entry}
use raft_algorep.Clock.{codes, medium, get_speed_type, get_speed_type_name}
use raft_algorep.Rpc.Names.{
  get_controller_request_type, get_controller_request_type_name, types_of_names,
}
use raft_algorep.Config.{is_node, is_client}
use raft_algorep.Controller.{run_lines, request_packet, to_int}
use raft_algorep.Controller.Sleep.{Stops}
use raft_algorep.Controller.Targets.{Addressed, run_lines-Addressed}
use raft_algorep.Controller.Numbers.{decimal, to_int-decimal}
use raft_algorep.Tests.{g}

-- Rank 7 does not exist, and rank 2 is no client.
abbrev typed : List Text
typed =
    codes "CRASH 2"
    ∷ codes "CRASH 7"
    ∷ codes "ENTRY 4 set x"
    ∷ codes "ENTRY 2 set x"
    ∷ []
    ∷ codes "STOP"
    ∷ []

commands_run :
    run_lines g typed ≡ ok (request_packet crash [] 2 ∷ request_packet entry (codes "set x") 4 ∷ [])
unfolding run_lines is_node is_client
commands_run = refl

-- 3000000 milliseconds are more microseconds than an int holds.
long_sleep : run_lines g (codes "SLEEP 3000000" ∷ []) ≡ fault undefined
unfolding run_lines
long_sleep = refl

short_sleep : run_lines g (codes "SLEEP 3000" ∷ []) ≡ ok []
unfolding run_lines
short_sleep = refl

run_lines-Addressed_example : Ends (Stops typed) (All (Addressed g)) (run_lines g typed)
run_lines-Addressed_example = run_lines-Addressed g typed

to_int-decimal_example : to_int (codes "9999999999") ≡ (
    if leb_ℤ (pos (decimal 0 (codes "9999999999"))) int_max
    then ok (pos (decimal 0 (codes "9999999999")))
    else fault out_of_range)
to_int-decimal_example =
    to_int-decimal 57 (codes "999999999")
      (refl, (refl, (refl, (refl, (refl, (refl, (refl, (refl, (refl, (refl, tt))))))))))

types_of_names_example :
    (get_controller_request_type (get_controller_request_type_name crash) ≡ crash)
    × (get_speed_type (get_speed_type_name medium) ≡ medium)
types_of_names_example = types_of_names crash medium
