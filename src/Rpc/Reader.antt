-- ===== src/Rpc/Reader.antt =====
-- The constructors of src/rpc/*.hh from nlohmann::json, which is the parameter `L`, and `from_json`
-- of src/runners/node/entry.cc. The arguments of a constructor are read in the order written.
use raft_algorep.Base.{
  ℕ, ℤ, pos, negsuc, Bool, List, [], ◌∷◌, Outcome, ok, fault, no_rank, ◌>>=◌, Text,
}
use raft_algorep.Rpc.{
  RequestVote, RequestVoteResponse, AppendEntries, AppendEntriesResponse, RequestLeaderResponse,
  ControllerRequest, Entry, Rpc, MessageType, request_vote_type, request_vote_response_type,
  append_entries_type, append_entries_response_type, request_leader_type,
  request_leader_response_type, request_client_type, request_client_response_type,
  controller_request_type, request_vote, request_vote_response, append_entries,
  append_entries_response, request_leader, request_leader_response, request_client,
  request_client_response, controller_request,
}
use raft_algorep.Rpc.Names.{get_controller_request_type}
use raft_algorep.Clock.{codes}
use raft_algorep.Json.{JsonLib}

module _ (L : JsonLib) where
  abbrev rank_of : ℤ → Outcome ℕ
  rank_of (pos n) = ok n
  rank_of (negsuc n) = fault no_rank

  abbrev pub get_rank : L.Json → Outcome ℕ
  get_rank j = L.get_int j >>= rank_of

  -- from_json
  unfoldable pub entry_from_json : L.Json → Outcome Entry
  entry_from_json j = do
    index ← L.at_key j (codes "index") >>= L.get_int
    term ← L.at_key j (codes "term") >>= L.get_int
    cmd ← L.at_key j (codes "cmd") >>= L.get_text
    client_id ← L.at_key j (codes "clientId") >>= get_rank
    ok (record { index = index; term = term; cmd = cmd; client_id = client_id })

  -- get<std::vector<Entry>>
  unfoldable pub entries_from_json : List L.Json → Outcome (List Entry)
  unfolding entry_from_json
  entries_from_json [] = ok []
  entries_from_json (j ∷ js) = do e ← entry_from_json j; es ← entries_from_json js; ok (e ∷ es)

  abbrev pub get_entries : L.Json → Outcome (List Entry)
  get_entries j = L.get_array j >>= entries_from_json

  abbrev pub int_at : L.Json → Text → Outcome ℤ
  int_at j key = L.index j key >>= L.get_int

  abbrev pub bool_at : L.Json → Text → Outcome Bool
  bool_at j key = L.index j key >>= L.get_bool

  abbrev pub text_at : L.Json → Text → Outcome Text
  text_at j key = L.index j key >>= L.get_text

  abbrev pub rank_at : L.Json → Text → Outcome ℕ
  rank_at j key = L.index j key >>= get_rank

  unfoldable pub request_vote_from_json : L.Json → Outcome RequestVote
  request_vote_from_json j = do
    term ← int_at j (codes "term")
    candidate_id ← rank_at j (codes "candidateId")
    last_log_index ← int_at j (codes "lastLogIndex")
    last_log_term ← int_at j (codes "lastLogTerm")
    ok (record {
      term = term;
      candidate_id = candidate_id;
      last_log_index = last_log_index;
      last_log_term = last_log_term;
    })

  unfoldable pub request_vote_response_from_json : L.Json → Outcome RequestVoteResponse
  request_vote_response_from_json j = do
    term ← int_at j (codes "term")
    vote_granted ← bool_at j (codes "voteGranted")
    ok (record { term = term; vote_granted = vote_granted })

  unfoldable pub append_entries_from_json : L.Json → Outcome AppendEntries
  unfolding entries_from_json
  append_entries_from_json j = do
    term ← int_at j (codes "term")
    leader_id ← rank_at j (codes "leaderId")
    prev_log_term ← int_at j (codes "prevLogTerm")
    prev_log_index ← int_at j (codes "prevLogIndex")
    leader_commit ← int_at j (codes "leaderCommit")
    entries ← L.index j (codes "entries") >>= get_entries
    ok (record {
      term = term;
      leader_id = leader_id;
      prev_log_index = prev_log_index;
      prev_log_term = prev_log_term;
      leader_commit = leader_commit;
      entries = entries;
    })

  unfoldable pub append_entries_response_from_json : L.Json → Outcome AppendEntriesResponse
  append_entries_response_from_json j = do
    term ← int_at j (codes "term")
    success ← bool_at j (codes "success")
    new_index ← int_at j (codes "newIndex")
    ok (record { term = term; success = success; new_index = new_index })

  unfoldable pub request_leader_response_from_json : L.Json → Outcome RequestLeaderResponse
  request_leader_response_from_json j = do
    leader_id ← rank_at j (codes "leaderId")
    success ← bool_at j (codes "success")
    ok (record { leader_id = leader_id; success = success })

  unfoldable pub request_client_from_json : L.Json → Outcome Text
  request_client_from_json j = text_at j (codes "value")

  unfoldable pub request_client_response_from_json : L.Json → Outcome Bool
  request_client_response_from_json j = bool_at j (codes "success")

  unfoldable pub controller_request_from_json : L.Json → Outcome ControllerRequest
  unfolding get_controller_request_type
  controller_request_from_json j = do
    name ← text_at j (codes "type")
    message ← text_at j (codes "value")
    ok (record { request = get_controller_request_type name; message = message })

  -- The constructor that belongs to the type.
  unfoldable pub message_from_json : MessageType → L.Json → Outcome Rpc
  unfolding request_vote_from_json request_vote_response_from_json append_entries_from_json
      append_entries_response_from_json request_leader_response_from_json request_client_from_json
      request_client_response_from_json controller_request_from_json
  message_from_json request_vote_type j = do m ← request_vote_from_json j; ok (request_vote m)
  message_from_json request_vote_response_type j = do
    m ← request_vote_response_from_json j
    ok (request_vote_response m)
  message_from_json append_entries_type j = do m ← append_entries_from_json j; ok (append_entries m)
  message_from_json append_entries_response_type j = do
    m ← append_entries_response_from_json j
    ok (append_entries_response m)
  message_from_json request_leader_type j = ok request_leader
  message_from_json request_leader_response_type j = do
    m ← request_leader_response_from_json j
    ok (request_leader_response m)
  message_from_json request_client_type j = do m ← request_client_from_json j; ok (request_client m)
  message_from_json request_client_response_type j = do
    m ← request_client_response_from_json j
    ok (request_client_response m)
  message_from_json controller_request_type j = do
    m ← controller_request_from_json j
    ok (controller_request m)
