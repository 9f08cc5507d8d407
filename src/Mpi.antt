-- ===== src/Mpi.antt =====
-- src/wrappers/mpi_include.cc: the text that MPI::Send_Rpc hands to MPI, and the receiving of
-- messages. MPI and the clock are the parameters of a call: what a probe finds, and when.
-- nlohmann::json is the parameter `L`.
pub mod RoundTrip
pub mod Timeout
pub mod Unhandled
use raft_algorep.Base.{
  ℕ, zero, suc, ℤ, pos, Bool, true, false, List, [], ◌∷◌, ◌++◌, Option, none, some, Outcome, ok,
  fault, unreadable, unhandled, waiting, ◌>>=◌, or_fault, Text, length, get_at?, ltb_ℤ,
  if◌then◌else◌,
}
use raft_algorep.Rpc.{Rpc, RpcResponse, MessageType}
use raft_algorep.Rpc.Codec.{message_types, get_type_name, serialize}
use raft_algorep.Rpc.Reader.{message_from_json}
use raft_algorep.Clock.{codes}
use raft_algorep.Json.{JsonLib}

-- A message that waits at this process: its sender, and its bytes.
pub record Arrival : Type 0 where
  pub source : ℕ
  pub bytes : Text

-- A round of the loop of MPI::Recv_Rpc_Timeout: the milliseconds since the call, and what the probe
-- finds.
pub record Poll : Type 0 where
  pub count_time : ℕ
  pub incoming : Option Arrival

unfoldable pub any_message_waiting : Option Arrival → ℕ
any_message_waiting none = 0
any_message_waiting (some a) = length a.bytes

-- The std::string made of a buffer that ends with the byte 0: it ends before the first one.
unfoldable pub c_string : Text → Text
c_string [] = []
c_string (zero ∷ cs) = []
c_string (suc c ∷ cs) = suc c ∷ c_string cs

-- A round: a message is returned; without one the loop ends if it is late, or goes on.
abbrev pub next_round :
    Option RpcResponse → Bool → Outcome (Option RpcResponse) → Outcome (Option RpcResponse)
next_round (some m) late rest = ok (some m)
next_round none true rest = ok none
next_round none false rest = rest

module _ (L : JsonLib) where
  -- The text that MPI::Send_Rpc gives to MPI_Isend.
  unfoldable pub sent_text : Rpc → Outcome Text
  unfolding serialize
  sent_text m = L.dump (serialize L m)

  -- switch (recvType)
  abbrev pub received_data : ℤ → Option MessageType → L.Json → Outcome Rpc
  received_data type none j =
      fault (unhandled (codes "Unhandled message type: " ++ get_type_name type))
  received_data type (some t) j = do
    contents ← L.member j (codes "data")
    message_from_json L t contents

  unfoldable pub received : Text → Outcome Rpc
  unfolding c_string get_type_name message_from_json
  received bytes = do
    j ← L.parse (c_string bytes)
    field ← L.member j (codes "type")
    type ← L.get_enum field
    received_data type (get_at? message_types type) j

  abbrev taken : ℕ → Option Arrival → Outcome (Option RpcResponse)
  taken zero found = ok none
  taken (suc n) none = ok none
  taken (suc n) (some a) = do
    m ← received a.bytes
    ok (some (record { rpc = m; sender_id = a.source }))

  unfoldable pub recv_rpc : Option Arrival → Outcome (Option RpcResponse)
  unfolding any_message_waiting received
  recv_rpc found = taken (any_message_waiting found) found

  unfoldable pub recv_rpc_timeout : ℤ → List Poll → Outcome (Option RpcResponse)
  unfolding recv_rpc
  recv_rpc_timeout timeout [] = fault waiting
  recv_rpc_timeout timeout (p ∷ ps) = do
    m ← recv_rpc p.incoming
    next_round m (ltb_ℤ timeout (pos p.count_time)) (recv_rpc_timeout timeout ps)
