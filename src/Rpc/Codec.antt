-- ===== src/Rpc/Codec.antt =====
-- src/rpc/*.hh, src/rpc/rpc.cc and src/runners/node/entry.cc: the messages and the log entry,
-- written to nlohmann::json, which is the parameter `L`.
use raft_algorep.Base.{Bool, ℕ, ℤ, pos, List, [], ◌∷◌, map, Text, get_at?}
use raft_algorep.Rpc.{
  RequestVote, RequestVoteResponse, AppendEntries, AppendEntriesResponse, RequestLeaderResponse,
  ControllerRequest, Entry, Rpc, MessageType, request_vote_type, request_vote_response_type,
  append_entries_type, append_entries_response_type, request_leader_type,
  request_leader_response_type, request_client_type, request_client_response_type,
  controller_request_type, message_type, request_vote, request_vote_response, append_entries,
  append_entries_response, request_leader, request_leader_response, request_client,
  request_client_response, controller_request,
}
use raft_algorep.Rpc.Names.{get_controller_request_type_name}
use raft_algorep.Clock.{codes}
use raft_algorep.Cycle.{value_or}
use raft_algorep.Json.{JsonLib}

-- The enumeration, in order.
abbrev pub message_types : List MessageType
message_types =
    request_vote_type ∷ request_vote_response_type ∷ append_entries_type
    ∷ append_entries_response_type ∷ request_leader_type ∷ request_leader_response_type
    ∷ request_client_type ∷ request_client_response_type ∷ controller_request_type ∷ []

unfoldable pub type_number : MessageType → ℕ
type_number request_vote_type = 0
type_number request_vote_response_type = 1
type_number append_entries_type = 2
type_number append_entries_response_type = 3
type_number request_leader_type = 4
type_number request_leader_response_type = 5
type_number request_client_type = 6
type_number request_client_response_type = 7
type_number controller_request_type = 8

abbrev pub type_names : List Text
type_names =
    codes "REQUEST_VOTE"
    ∷ codes "REQUEST_VOTE_RESPONSE"
    ∷ codes "APPEND_ENTRIES"
    ∷ codes "APPEND_ENTRIES_RESPONSE"
    ∷ codes "REQUEST_LEADER"
    ∷ codes "REQUEST_LEADER_RESPONSE"
    ∷ codes "REQUEST_CLIENT"
    ∷ codes "REQUEST_CLIENT_RESPONSE"
    ∷ codes "CONTROLLER_REQUEST"
    ∷ []

-- Of any value of the enumeration's underlying `int`; a negative one is a huge `unsigned int`.
unfoldable pub get_type_name : ℤ → Text
get_type_name type = value_or (get_at? type_names type) (codes "Unkown Name")

module _ (L : JsonLib) where
  -- The members of the object that `to_json` builds.
  unfoldable pub entry_fields : Entry → List (Text × L.Json)
  entry_fields e =
      (codes "index", L.of_int e.index)
      ∷ (codes "term", L.of_int e.term)
      ∷ (codes "cmd", L.of_text e.cmd)
      ∷ (codes "clientId", L.of_int (pos e.client_id))
      ∷ []

  -- to_json
  unfoldable pub entry_to_json : Entry → L.Json
  unfolding entry_fields
  entry_to_json e = L.object (entry_fields e)

  -- The members of the object that the `serialize_self` of each class builds.
  unfoldable pub request_vote_fields : RequestVote → List (Text × L.Json)
  request_vote_fields m =
      (codes "term", L.of_int m.term)
      ∷ (codes "candidateId", L.of_int (pos m.candidate_id))
      ∷ (codes "lastLogIndex", L.of_int m.last_log_index)
      ∷ (codes "lastLogTerm", L.of_int m.last_log_term)
      ∷ []

  unfoldable pub request_vote_response_fields : RequestVoteResponse → List (Text × L.Json)
  request_vote_response_fields m =
      (codes "term", L.of_int m.term) ∷ (codes "voteGranted", L.of_bool m.vote_granted) ∷ []

  unfoldable pub append_entries_fields : AppendEntries → List (Text × L.Json)
  unfolding entry_to_json
  append_entries_fields m =
      (codes "term", L.of_int m.term)
      ∷ (codes "leaderId", L.of_int (pos m.leader_id))
      ∷ (codes "prevLogTerm", L.of_int m.prev_log_term)
      ∷ (codes "prevLogIndex", L.of_int m.prev_log_index)
      ∷ (codes "leaderCommit", L.of_int m.leader_commit)
      ∷ (codes "entries", L.of_array (map entry_to_json m.entries))
      ∷ []

  unfoldable pub append_entries_response_fields : AppendEntriesResponse → List (Text × L.Json)
  append_entries_response_fields m =
      (codes "term", L.of_int m.term)
      ∷ (codes "success", L.of_bool m.success)
      ∷ (codes "newIndex", L.of_int m.new_index)
      ∷ []

  unfoldable pub request_leader_response_fields : RequestLeaderResponse → List (Text × L.Json)
  request_leader_response_fields m =
      (codes "leaderId", L.of_int (pos m.leader_id)) ∷ (codes "success", L.of_bool m.success) ∷ []

  unfoldable pub request_client_fields : Text → List (Text × L.Json)
  request_client_fields message = (codes "value", L.of_text message) ∷ []

  unfoldable pub request_client_response_fields : Bool → List (Text × L.Json)
  request_client_response_fields success = (codes "success", L.of_bool success) ∷ []

  unfoldable pub controller_request_fields : ControllerRequest → List (Text × L.Json)
  controller_request_fields m =
      (codes "type", L.of_text (get_controller_request_type_name m.request))
      ∷ (codes "value", L.of_text m.message)
      ∷ []

  unfoldable pub message_fields : Rpc → List (Text × L.Json)
  unfolding request_vote_fields request_vote_response_fields append_entries_fields
      append_entries_response_fields request_leader_response_fields request_client_fields
      request_client_response_fields controller_request_fields
  message_fields (request_vote m) = request_vote_fields m
  message_fields (request_vote_response m) = request_vote_response_fields m
  message_fields (append_entries m) = append_entries_fields m
  message_fields (append_entries_response m) = append_entries_response_fields m
  message_fields request_leader = []
  message_fields (request_leader_response m) = request_leader_response_fields m
  message_fields (request_client message) = request_client_fields message
  message_fields (request_client_response success) = request_client_response_fields success
  message_fields (controller_request m) = controller_request_fields m

  unfoldable pub serialize_self : Rpc → L.Json
  unfolding message_fields
  serialize_self m = L.object (message_fields m)

  unfoldable pub serialize : Rpc → L.Json
  unfolding serialize_self type_number message_type
  serialize m = L.object (
      (codes "type", L.of_int (pos (type_number (message_type m))))
      ∷ (codes "data", serialize_self m)
      ∷ [])
