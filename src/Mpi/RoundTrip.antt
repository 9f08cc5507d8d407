-- ===== src/Mpi/RoundTrip.antt =====
-- A message sent by MPI::Send_Rpc and received by MPI::Recv_Rpc.
use raft_algorep.Base.{
  ℕ, zero, suc, ℤ, pos, Bool, true, ◌&&◌, List, [], ◌∷◌, map, some, ok, All, ◌≡◌, ◌≢◌, refl, ap,
  ◌∙◌, Text, get_at?, arith,
}
use raft_algorep.Rpc.{
  Entry, Rpc, MessageType, message_type, request_vote, request_vote_response, append_entries,
  append_entries_response, request_leader, request_leader_response, request_client,
  request_client_response, controller_request, request_vote_type, request_vote_response_type,
  append_entries_type, append_entries_response_type, request_leader_type,
  request_leader_response_type, request_client_type, request_client_response_type,
  controller_request_type, ControllerRequestType, status, crash, speed, start, recovery, print_log,
  entry,
}
use raft_algorep.Rpc.Codec.{
  entry_fields, entry_to_json, message_fields, serialize_self, request_vote_fields,
  request_vote_response_fields, append_entries_fields, append_entries_response_fields,
  request_leader_response_fields, request_client_fields, request_client_response_fields,
  controller_request_fields, serialize, type_number, message_types,
}
use raft_algorep.Rpc.Names.{get_controller_request_type_name}
use raft_algorep.Rpc.RoundTrip.{IsEntry, IsMessage, message_from_json-serialize_self}
use raft_algorep.Clock.{codes}
use raft_algorep.Json.{JsonLib, IsLawful, IsInt, names, distinct, is_ascii}
use raft_algorep.Mpi.{any_message_waiting, c_string, sent_text, received, recv_rpc}

-- A text without the byte 0 is read whole.
c_string-eq : (t : Text) → All (λ c. c ≢ 0) t → c_string t ≡ t
unfolding c_string
c_string-eq [] h = refl
c_string-eq (zero ∷ cs) h = absurd (h.0 refl)
c_string-eq (suc c ∷ cs) h = ap (◌∷◌ (suc c)) (c_string-eq cs h.1)

-- The switch has a case for each type, under its number.
types_in_order : (t : MessageType) → get_at? message_types (pos (type_number t)) ≡ some t
unfolding type_number
types_in_order request_vote_type = refl
types_in_order request_vote_response_type = refl
types_in_order append_entries_type = refl
types_in_order append_entries_response_type = refl
types_in_order request_leader_type = refl
types_in_order request_leader_response_type = refl
types_in_order request_client_type = refl
types_in_order request_client_response_type = refl
types_in_order controller_request_type = refl

type_number-IsInt : (t : MessageType) → IsInt (pos (type_number t))
unfolding type_number
type_number-IsInt t = ground arith

request_name-is_ascii :
    (t : ControllerRequestType) → is_ascii (get_controller_request_type_name t) ≡ true
unfolding get_controller_request_type_name
request_name-is_ascii status = refl
request_name-is_ascii crash = refl
request_name-is_ascii speed = refl
request_name-is_ascii start = refl
request_name-is_ascii recovery = refl
request_name-is_ascii print_log = refl
request_name-is_ascii entry = refl

and_true : (a b : Bool) → (a && b) ≡ true → (a ≡ true) × (b ≡ true)
and_true a b h = ground arith

module _ (L : JsonLib) (law : IsLawful L) where
  plain : List Text → Bool
  plain [] = true
  plain (k ∷ ks) = is_ascii k && plain ks

  members_dump :
      (fields : List (Text × L.Json))
      → plain (names fields) ≡ true
      → All (λ f. law.IsDumpable f.1) fields
      → All (λ f. (L.is_utf8 f.0 ≡ true) × law.IsDumpable f.1) fields
  unfolding plain
  members_dump [] h_plain h = tt
  members_dump ((k, j) ∷ fields) h_plain (j_dumps, h) = (
    (law.is_utf8-ascii k (and_true _ _ h_plain).0, j_dumps),
    members_dump fields (and_true _ _ h_plain).1 h,
  )

  object_dumps :
      (fields : List (Text × L.Json))
      → distinct (names fields) ≡ true
      → plain (names fields) ≡ true
      → All (λ f. law.IsDumpable f.1) fields
      → law.IsDumpable (L.object fields)
  object_dumps fields apart h_plain h =
      law.object-IsDumpable fields apart (members_dump fields h_plain h)

  entry_to_json-IsDumpable : (e : Entry) → IsEntry L e → law.IsDumpable (entry_to_json L e)
  unfolding entry_to_json entry_fields plain
  entry_to_json-IsDumpable e (index_IsInt, term_IsInt, cmd_utf8, id_IsInt) =
      object_dumps (entry_fields L e) refl refl (
        law.of_int-IsDumpable e.index,
        (
          law.of_int-IsDumpable e.term,
          (law.of_text-IsDumpable e.cmd cmd_utf8, (law.of_int-IsDumpable (pos e.client_id), tt)),
        ),
      )

  entries_dump :
      (es : List Entry) → All (IsEntry L) es → All law.IsDumpable (map (entry_to_json L) es)
  entries_dump [] h = tt
  entries_dump (e ∷ es) h = (entry_to_json-IsDumpable e h.0, entries_dump es h.1)

  serialize_self-IsDumpable : (m : Rpc) → IsMessage L m → law.IsDumpable (serialize_self L m)
  unfolding serialize_self message_fields plain request_vote_fields request_vote_response_fields
      append_entries_fields append_entries_response_fields request_leader_response_fields
      request_client_fields request_client_response_fields controller_request_fields
  serialize_self-IsDumpable (request_vote m) h =
      object_dumps (message_fields L (request_vote m)) refl refl (
        law.of_int-IsDumpable m.term,
        (
          law.of_int-IsDumpable (pos m.candidate_id),
          (law.of_int-IsDumpable m.last_log_index, (law.of_int-IsDumpable m.last_log_term, tt)),
        ),
      )
  serialize_self-IsDumpable (request_vote_response m) h =
      object_dumps (message_fields L (request_vote_response m)) refl refl
        (law.of_int-IsDumpable m.term, (law.of_bool-IsDumpable m.vote_granted, tt))
  serialize_self-IsDumpable (append_entries m) (a, b, c, d, e, entries_IsEntry) =
      object_dumps (message_fields L (append_entries m)) refl refl (
        law.of_int-IsDumpable m.term,
        (
          law.of_int-IsDumpable (pos m.leader_id),
          (
            law.of_int-IsDumpable m.prev_log_term,
            (
              law.of_int-IsDumpable m.prev_log_index,
              (
                law.of_int-IsDumpable m.leader_commit,
                (
                  law.of_array-IsDumpable (map (entry_to_json L) m.entries)
                      (entries_dump m.entries entries_IsEntry),
                  tt,
                ),
              ),
            ),
          ),
        ),
      )
  serialize_self-IsDumpable (append_entries_response m) h =
      object_dumps (message_fields L (append_entries_response m)) refl refl (
        law.of_int-IsDumpable m.term,
        (law.of_bool-IsDumpable m.success, (law.of_int-IsDumpable m.new_index, tt)),
      )
  serialize_self-IsDumpable request_leader h = object_dumps [] refl refl tt
  serialize_self-IsDumpable (request_leader_response m) h =
      object_dumps (message_fields L (request_leader_response m)) refl refl
        (law.of_int-IsDumpable (pos m.leader_id), (law.of_bool-IsDumpable m.success, tt))
  serialize_self-IsDumpable (request_client message) h =
      object_dumps (message_fields L (request_client message)) refl refl
        (law.of_text-IsDumpable message h, tt)
  serialize_self-IsDumpable (request_client_response success) h =
      object_dumps (message_fields L (request_client_response success)) refl refl
        (law.of_bool-IsDumpable success, tt)
  serialize_self-IsDumpable (controller_request m) h =
      object_dumps (message_fields L (controller_request m)) refl refl (
        law.of_text-IsDumpable (get_controller_request_type_name m.request)
            (law.is_utf8-ascii _ (request_name-is_ascii m.request)),
        (law.of_text-IsDumpable m.message h, tt),
      )

  serialize-IsDumpable : (m : Rpc) → IsMessage L m → law.IsDumpable (serialize L m)
  unfolding serialize plain
  serialize-IsDumpable m h =
      object_dumps
        ((codes "type", L.of_int (pos (type_number (message_type m))))
          ∷ (codes "data", serialize_self L m)
          ∷ [])
        refl refl (law.of_int-IsDumpable _, (serialize_self-IsDumpable m h, tt))

  received-eq :
      (m : Rpc) (bytes : Text)
      → IsMessage L m
      → L.parse (c_string bytes) ≡ ok (serialize L m)
      → received L bytes ≡ ok m
  unfolding received serialize
  received-eq m bytes h parsed =
      let type : ℤ = pos (type_number (message_type m)) in
      let fields : List (Text × L.Json) =
        (codes "type", L.of_int type) ∷ (codes "data", serialize_self L m) ∷ [] in
      rw
        (
          parsed,
          law.member-object fields (codes "type") (L.of_int type) refl refl,
          law.get_enum-of_int type (type_number-IsInt (message_type m)),
          types_in_order (message_type m),
          law.member-object fields (codes "data") (serialize_self L m) refl refl,
        )
        (message_from_json-serialize_self L law m h)

  recv_rpc-received :
      (source : ℕ) (bytes : Text) (m : Rpc)
      → bytes ≢ []
      → received L bytes ≡ ok m
      → recv_rpc L (some (record { source = source; bytes = bytes }))
        ≡ ok (some (record { rpc = m; sender_id = source }))
  unfolding recv_rpc any_message_waiting
  recv_rpc-received source [] m not_empty h = absurd (not_empty refl)
  recv_rpc-received source (c ∷ cs) m not_empty h = rw h refl

  -- If each `int` of a message is one and each of its texts is UTF-8, then MPI::Send_Rpc gives some
  -- bytes to MPI, and MPI::Recv_Rpc makes of them the same message, from the rank that sent it.
  pub recv_rpc-sent_text :
      (m : Rpc) (source : ℕ)
      → IsMessage L m
      → (bytes : Text) × (sent_text L m ≡ ok bytes)
        × (recv_rpc L (some (record { source = source; bytes = bytes }))
            ≡ ok (some (record { rpc = m; sender_id = source })))
  unfolding sent_text
  recv_rpc-sent_text m source h =
      let (bytes, dumped, not_empty, no_zero, parsed) =
        law.parse-dump (serialize L m) (serialize-IsDumpable m h) in
      (
        bytes,
        rw dumped refl,
        recv_rpc-received source bytes m not_empty
            (received-eq m bytes h (ap L.parse (c_string-eq bytes no_zero) ∙ parsed)),
      )
