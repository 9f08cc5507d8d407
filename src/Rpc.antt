-- ===== src/Rpc.antt =====
-- The messages: src/rpc/*.hh, and the log entry they carry, src/runners/node/entry.hh.
-- A subclass of `Rpc::Rpc` is a record, and `Rpc` has a constructor for each of them.
pub mod Names
pub mod Codec
pub mod Reader
pub mod RoundTrip
use raft_algorep.Base.{ℕ, ℤ, Bool, List, Text}

pub record Entry : Type 0 where
  pub index : ℤ
  pub term : ℤ
  pub cmd : Text
  pub client_id : ℕ

pub data MessageType : Type 0 where
  request_vote_type request_vote_response_type : MessageType
  append_entries_type append_entries_response_type : MessageType
  request_leader_type request_leader_response_type : MessageType
  request_client_type request_client_response_type : MessageType
  controller_request_type : MessageType

pub record RequestVote : Type 0 where
  pub term : ℤ
  pub candidate_id : ℕ
  pub last_log_index : ℤ
  pub last_log_term : ℤ

pub record RequestVoteResponse : Type 0 where
  pub term : ℤ
  pub vote_granted : Bool

pub record AppendEntries : Type 0 where
  pub term : ℤ
  pub leader_id : ℕ
  pub prev_log_index : ℤ
  pub prev_log_term : ℤ
  pub leader_commit : ℤ
  pub entries : List Entry

pub record AppendEntriesResponse : Type 0 where
  pub term : ℤ
  pub success : Bool
  pub new_index : ℤ

pub record RequestLeaderResponse : Type 0 where
  pub leader_id : ℕ
  pub success : Bool

pub data ControllerRequestType : Type 0 where
  status crash speed start recovery print_log entry : ControllerRequestType

pub record ControllerRequest : Type 0 where
  pub request : ControllerRequestType
  pub message : Text

pub data Rpc : Type 0 where
  request_vote : RequestVote → Rpc
  request_vote_response : RequestVoteResponse → Rpc
  append_entries : AppendEntries → Rpc
  append_entries_response : AppendEntriesResponse → Rpc
  request_leader : Rpc
  request_leader_response : RequestLeaderResponse → Rpc
  -- the message of Rpc::RequestClient
  request_client : Text → Rpc
  -- the success of Rpc::RequestClientResponse
  request_client_response : Bool → Rpc
  controller_request : ControllerRequest → Rpc

unfoldable pub message_type : Rpc → MessageType
message_type (request_vote m) = request_vote_type
message_type (request_vote_response m) = request_vote_response_type
message_type (append_entries m) = append_entries_type
message_type (append_entries_response m) = append_entries_response_type
message_type request_leader = request_leader_type
message_type (request_leader_response m) = request_leader_response_type
message_type (request_client m) = request_client_type
message_type (request_client_response m) = request_client_response_type
message_type (controller_request m) = controller_request_type

-- A received message with its sender's rank.
pub record RpcResponse : Type 0 where
  pub rpc : Rpc
  pub sender_id : ℕ

-- A call of MPI::Send_Rpc.
pub record Packet : Type 0 where
  pub rpc : Rpc
  pub dest : ℕ
