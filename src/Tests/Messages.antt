-- ===== src/Tests/Messages.antt =====
-- Messages as bytes, written and read by the library of Tests.Json.
use raft_algorep.Base.{
  pos, minus_one, List, [], ◌∷◌, ◌++◌, none, some, ok, fault, unhandled, All, inl, inr, ◌≡◌, refl,
  Text, arith,
}
use raft_algorep.Rpc.{Rpc, append_entries}
use raft_algorep.Clock.{codes}
use raft_algorep.Tests.Json.{Value, int_value, library, library-IsLawful}
use raft_algorep.Mpi.{Poll, c_string, sent_text, recv_rpc, recv_rpc_timeout}
use raft_algorep.Mpi.RoundTrip.{recv_rpc-sent_text}
use raft_algorep.Mpi.Unhandled.{recv_rpc-unhandled}
use raft_algorep.Mpi.Timeout.{IsQuiet, IsLast, recv_rpc_timeout_ends}

abbrev update_message : Rpc
update_message = append_entries (record {
  term = pos 2;
  leader_id = 1;
  prev_log_index = minus_one;
  prev_log_term = minus_one;
  leader_commit = minus_one;
  entries = record { index = pos 0; term = pos 2; cmd = codes "set x"; client_id = 4 } ∷ [];
})

recv_rpc-sent_text_example :
    (bytes : Text) × (sent_text library update_message ≡ ok bytes)
    × (recv_rpc library (some (record { source = 1; bytes = bytes }))
        ≡ ok (some (record { rpc = update_message; sender_id = 1 })))
recv_rpc-sent_text_example = recv_rpc-sent_text library library-IsLawful update_message 1 (
  ground arith,
  ground arith,
  ground arith,
  ground arith,
  ground arith,
  ((ground arith, ground arith, refl, ground arith), tt),
)

abbrev odd_object : Value
odd_object = library.object ((codes "type", int_value (pos 9)) ∷ [])

abbrev odd_bytes : Text
odd_bytes = 8 ∷ 5 ∷ codes "uzqf" ++ 3 ∷ 2 ∷ 10 ∷ []

recv_rpc-unhandled_example :
    recv_rpc library (some (record { source = 3; bytes = odd_bytes }))
    ≡ fault (unhandled (codes "Unhandled message type: Unkown Name"))
unfolding c_string
recv_rpc-unhandled_example =
    recv_rpc-unhandled library 3 odd_bytes odd_object (int_value (pos 9)) (pos 9) (λ e. cc) refl
      refl refl (inr (omega arith))

abbrev polls : List Poll
polls =
    record { count_time = 0; incoming = none }
    ∷ record { count_time = 300; incoming = none }
    ∷ record { count_time = 301; incoming = none }
    ∷ []

recv_rpc_timeout_ends_example :
    (quiet : List Poll) × (p : Poll) × (rest : List Poll) × (polls ≡ quiet ++ p ∷ rest)
    × All (IsQuiet library (pos 300)) quiet
    × IsLast library (pos 300) p (recv_rpc_timeout library (pos 300) polls)
recv_rpc_timeout_ends_example =
    recv_rpc_timeout_ends library (pos 300) polls (inr (inr (inl (omega arith))))
