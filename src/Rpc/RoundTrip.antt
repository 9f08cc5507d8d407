-- ===== src/Rpc/RoundTrip.antt =====
-- The messages written to JSON and read back: src/rpc/*.hh and src/runners/node/entry.cc.
use raft_algorep.Base.{ℕ, ℤ, pos, Bool, true, List, [], ◌∷◌, map, some, ok, All, ◌≡◌, refl, Text}
use raft_algorep.Rpc.{
  Entry, Rpc, message_type, request_vote, request_vote_response, append_entries,
  append_entries_response, request_leader, request_leader_response, request_client,
  request_client_response, controller_request,
}
use raft_algorep.Rpc.Codec.{
  entry_fields, entry_to_json, message_fields, serialize_self, request_vote_fields,
  request_vote_response_fields, append_entries_fields, append_entries_response_fields,
  request_leader_response_fields, request_client_fields, request_client_response_fields,
  controller_request_fields,
}
use raft_algorep.Rpc.Reader.{
  int_at, bool_at, text_at, rank_at, get_rank, get_entries, entry_from_json, entries_from_json,
  message_from_json, request_vote_from_json, request_vote_response_from_json,
  append_entries_from_json, append_entries_response_from_json, request_leader_response_from_json,
  request_client_from_json, request_client_response_from_json, controller_request_from_json,
}
use raft_algorep.Rpc.Names.{get_controller_request_type_name, request_type_of_name}
use raft_algorep.Clock.{codes}
use raft_algorep.Json.{JsonLib, IsLawful, IsInt, lookup, names, distinct}

module _ (L : JsonLib) where
  -- What the program's types promise: each `int` is one, and each text can be written.
  abbrev pub IsEntry : Entry → Type 0
  IsEntry e = IsInt e.index × IsInt e.term × (L.is_utf8 e.cmd ≡ true) × IsInt (pos e.client_id)

  abbrev pub IsMessage : Rpc → Type 0
  IsMessage (request_vote m) =
      IsInt m.term × IsInt (pos m.candidate_id) × IsInt m.last_log_index × IsInt m.last_log_term
  IsMessage (request_vote_response m) = IsInt m.term
  IsMessage (append_entries m) =
      IsInt m.term
      × IsInt (pos m.leader_id)
      × IsInt m.prev_log_index
      × IsInt m.prev_log_term
      × IsInt m.leader_commit
      × All IsEntry m.entries
  IsMessage (append_entries_response m) = IsInt m.term × IsInt m.new_index
  IsMessage request_leader = Unit
  IsMessage (request_leader_response m) = IsInt (pos m.leader_id)
  IsMessage (request_client message) = L.is_utf8 message ≡ true
  IsMessage (request_client_response success) = Unit
  IsMessage (controller_request m) = L.is_utf8 m.message ≡ true

module _ (L : JsonLib) (law : IsLawful L) where
  get_rank-of_int : (n : ℕ) → IsInt (pos n) → get_rank L (L.of_int (pos n)) ≡ ok n
  get_rank-of_int n h = rw (law.get_int-of_int (pos n) h) refl

  entry_from_json-entry_to_json :
      (e : Entry) → IsEntry L e → entry_from_json L (entry_to_json L e) ≡ ok e
  unfolding entry_from_json entry_to_json entry_fields
  entry_from_json-entry_to_json e (index_IsInt, term_IsInt, cmd_utf8, client_IsInt) =
      rw
        (
          law.at_key-object (entry_fields L e) (codes "index") (L.of_int e.index) refl refl,
          law.at_key-object (entry_fields L e) (codes "term") (L.of_int e.term) refl refl,
          law.at_key-object (entry_fields L e) (codes "cmd") (L.of_text e.cmd) refl refl,
          law.at_key-object (entry_fields L e) (codes "clientId") (L.of_int (pos e.client_id)) refl
              refl,
          law.get_int-of_int e.index index_IsInt,
          law.get_int-of_int e.term term_IsInt,
          law.get_text-of_text e.cmd,
          get_rank-of_int e.client_id client_IsInt,
        )
        refl

  entries_from_json-map :
      (es : List Entry)
      → All (IsEntry L) es
      → entries_from_json L (map (entry_to_json L) es) ≡ ok es
  unfolding entries_from_json
  entries_from_json-map [] h = refl
  entries_from_json-map (e ∷ es) h =
      rw (entry_from_json-entry_to_json e h.0, entries_from_json-map es h.1) refl

  get_entries-of_array :
      (es : List Entry)
      → All (IsEntry L) es
      → get_entries L (L.of_array (map (entry_to_json L) es)) ≡ ok es
  get_entries-of_array es h =
      rw (law.get_array-of_array (map (entry_to_json L) es)) (entries_from_json-map es h)

  module _ (fields : List (Text × L.Json)) (key : Text)
      (apart : distinct (names fields) ≡ true) where
    int_at-object :
        (i : ℤ)
        → lookup key fields ≡ some (L.of_int i)
        → IsInt i
        → int_at L (L.object fields) key ≡ ok i
    int_at-object i there h =
        rw (law.index-object fields key (L.of_int i) apart there) (law.get_int-of_int i h)

    rank_at-object :
        (n : ℕ)
        → lookup key fields ≡ some (L.of_int (pos n))
        → IsInt (pos n)
        → rank_at L (L.object fields) key ≡ ok n
    rank_at-object n there h =
        rw (law.index-object fields key (L.of_int (pos n)) apart there) (get_rank-of_int n h)

    bool_at-object :
        (b : Bool) → lookup key fields ≡ some (L.of_bool b) → bool_at L (L.object fields) key ≡ ok b
    bool_at-object b there =
        rw (law.index-object fields key (L.of_bool b) apart there) (law.get_bool-of_bool b)

    text_at-object :
        (t : Text) → lookup key fields ≡ some (L.of_text t) → text_at L (L.object fields) key ≡ ok t
    text_at-object t there =
        rw (law.index-object fields key (L.of_text t) apart there) (law.get_text-of_text t)

  -- Each message is constructed again from the object that its `serialize_self` returns.
  pub message_from_json-serialize_self :
      (m : Rpc) → IsMessage L m → message_from_json L (message_type m) (serialize_self L m) ≡ ok m
  unfolding message_from_json serialize_self message_fields message_type request_vote_fields
      request_vote_response_fields append_entries_fields append_entries_response_fields
      request_leader_response_fields request_client_fields request_client_response_fields
      controller_request_fields request_vote_from_json request_vote_response_from_json
      append_entries_from_json append_entries_response_from_json request_leader_response_from_json
      request_client_from_json request_client_response_from_json controller_request_from_json
  message_from_json-serialize_self (request_vote m) (term_IsInt, id_IsInt, i_IsInt, t_IsInt) =
      let fields : List (Text × L.Json) = message_fields L (request_vote m) in
      rw
        (
          int_at-object fields (codes "term") refl m.term refl term_IsInt,
          rank_at-object fields (codes "candidateId") refl m.candidate_id refl id_IsInt,
          int_at-object fields (codes "lastLogIndex") refl m.last_log_index refl i_IsInt,
          int_at-object fields (codes "lastLogTerm") refl m.last_log_term refl t_IsInt,
        )
        refl
  message_from_json-serialize_self (request_vote_response m) h =
      let fields : List (Text × L.Json) = message_fields L (request_vote_response m) in
      rw
        (
          int_at-object fields (codes "term") refl m.term refl h,
          bool_at-object fields (codes "voteGranted") refl m.vote_granted refl,
        )
        refl
  message_from_json-serialize_self (append_entries m)
        (term_IsInt, id_IsInt, i_IsInt, t_IsInt, commit_IsInt, entries_IsEntry) =
      let fields : List (Text × L.Json) = message_fields L (append_entries m) in
      rw
        (
          int_at-object fields (codes "term") refl m.term refl term_IsInt,
          rank_at-object fields (codes "leaderId") refl m.leader_id refl id_IsInt,
          int_at-object fields (codes "prevLogTerm") refl m.prev_log_term refl t_IsInt,
          int_at-object fields (codes "prevLogIndex") refl m.prev_log_index refl i_IsInt,
          int_at-object fields (codes "leaderCommit") refl m.leader_commit refl commit_IsInt,
          law.index-object fields (codes "entries") (L.of_array (map (entry_to_json L) m.entries))
              refl refl,
          get_entries-of_array m.entries entries_IsEntry,
        )
        refl
  message_from_json-serialize_self (append_entries_response m) (term_IsInt, index_IsInt) =
      let fields : List (Text × L.Json) = message_fields L (append_entries_response m) in
      rw
        (
          int_at-object fields (codes "term") refl m.term refl term_IsInt,
          bool_at-object fields (codes "success") refl m.success refl,
          int_at-object fields (codes "newIndex") refl m.new_index refl index_IsInt,
        )
        refl
  message_from_json-serialize_self request_leader h = refl
  message_from_json-serialize_self (request_leader_response m) h =
      let fields : List (Text × L.Json) = message_fields L (request_leader_response m) in
      rw
        (
          rank_at-object fields (codes "leaderId") refl m.leader_id refl h,
          bool_at-object fields (codes "success") refl m.success refl,
        )
        refl
  message_from_json-serialize_self (request_client message) h =
      rw
        (text_at-object (message_fields L (request_client message)) (codes "value") refl message
          refl)
        refl
  message_from_json-serialize_self (request_client_response success) h =
      rw
        (bool_at-object (message_fields L (request_client_response success)) (codes "success") refl
          success refl)
        refl
  message_from_json-serialize_self (controller_request m) h =
      let fields : List (Text × L.Json) = message_fields L (controller_request m) in
      rw
        (
          text_at-object fields (codes "type") refl (get_controller_request_type_name m.request)
              refl,
          text_at-object fields (codes "value") refl m.message refl,
          request_type_of_name m.request,
        )
        refl
