-- ===== src/Follower.antt =====
-- src/runners/node/cycle/followerCycle.hh and followerCycle.cc. A follower's receive handlers.
pub mod Accept
pub mod Again
pub mod Append
pub mod Frame
pub mod Grant
pub mod Logged
pub mod Sourced
pub mod Votes
use raft_algorep.Base.{
  ℕ, zero, suc, ◌-◌, ℤ, pos, negsuc, minus_one, pos_part, ◌+ℤ◌, ◌-ℤ◌, Bool, true, false, ◌||◌, ◌&&◌,
  List, [], ◌∷◌, ◌++◌, Option, none, some, Outcome, ok, fault, assertion, inconsistent_index,
  commit_beyond_log, out_of_range, undefined, ◌>>=◌, require, or_fault, ltb_ℤ, leb_ℤ, eq_ℤ, ◌==◌,
  if◌then◌else◌, length, take, replicate, get_at?, get_last?,
}
use raft_algorep.Rpc.{
  Entry, Rpc, request_vote, request_vote_response, append_entries, append_entries_response,
  request_leader, RpcResponse, RequestVote, AppendEntries,
}
use raft_algorep.Node.{Node, candidate, save_commit, send_rpc}
use raft_algorep.Cycle.{
  Cycle, CycleClass, change_next_state, check_always_should_stop, client_request_leader_response,
}

-- `node.logs.at(i)` is read only below the length of the log; at a negative index it throws.
unfoldable pub check_entry_consistency : AppendEntries → List Entry → Outcome Bool
check_entry_consistency m logs =
    if eq_ℤ m.prev_log_index minus_one
    then ok true
    else if leb_ℤ (pos (length logs)) m.prev_log_index
    then ok false
    else do
      e ← or_fault (get_at? logs m.prev_log_index) out_of_range
      ok (eq_ℤ e.term m.prev_log_term)

-- What `resize` appends to a log that is too short.
abbrev pub blank_entry : Entry
blank_entry = record { index = pos 0; term = pos 0; cmd = []; client_id = 0 }

-- A negative size converts to one that no vector can have.
unfoldable pub resize : ℤ → List Entry → Outcome (List Entry)
resize (pos n) logs = ok (take n logs ++ replicate (n - length logs) blank_entry)
resize (negsuc n) logs = fault out_of_range

-- The loop of `append_entries`, with its assertion.
unfoldable pub push_entries : List Entry → List Entry → Outcome (List Entry)
push_entries [] logs = ok logs
push_entries (e ∷ es) logs =
    require (eq_ℤ e.index (pos (length logs))) (assertion inconsistent_index)
      (push_entries es (logs ++ e ∷ []))

unfoldable pub append_log : AppendEntries → List Entry → Outcome (List Entry)
unfolding ◌+ℤ◌
append_log m logs = do kept ← resize (m.prev_log_index +ℤ pos 1) logs; push_entries m.entries kept

-- for (index = commitIndex + 1; index <= leaderCommit; ++index), by the rounds left.
unfoldable pub save_range : ℕ → ℤ → Node → Outcome Node
unfolding save_commit ◌+ℤ◌
save_range zero index n = ok n
save_range (suc rounds) index n = do
  e ← or_fault (get_at? n.logs index) undefined
  save_range rounds (index +ℤ pos 1) (save_commit e n)

-- The reply to an AppendEntries.
unfoldable pub reply_append : ℕ → Bool → Node → Node
unfolding send_rpc
reply_append sender success n =
    send_rpc
      (append_entries_response
        (record { term = n.term; success = success; new_index = pos (length n.logs) }))
      sender n

abbrev pub is_empty {ℓ} : {A : Type ℓ} → List A → Bool
is_empty [] = true
is_empty (x ∷ xs) = false

-- The part of `handle_append_entries` after its checks.
unfoldable pub accept_entries : ℕ → AppendEntries → Node → Outcome Node
unfolding reply_append ◌-ℤ◌ ◌+ℤ◌
accept_entries sender m n = do
  logs ← append_log m n.logs
  require (ltb_ℤ m.leader_commit (pos (length logs))) (assertion commit_beyond_log) (do
    n' ←
        save_range (pos_part (m.leader_commit -ℤ n.commit_index)) (n.commit_index +ℤ pos 1)
          (record n { logs = logs })
    let done = record n' { commit_index = m.leader_commit }
    ok (if is_empty m.entries then done else reply_append sender true done))

unfoldable pub handle_append_entries : ℕ → AppendEntries → Node → Outcome Node
unfolding reply_append
handle_append_entries sender m n =
    if ltb_ℤ m.term n.term then ok (reply_append sender false n) else do
      let n' = record n { leader_id = some sender }
      consistent ← check_entry_consistency m n'.logs
      if consistent then accept_entries sender m n' else ok (reply_append sender false n')

-- The reply to a RequestVote.
unfoldable pub reply_vote : ℕ → Bool → Node → Node
unfolding send_rpc
reply_vote sender granted n =
    send_rpc (request_vote_response (record { term = n.term; vote_granted = granted })) sender n

-- The log test of `handle_request_vote`, on the last entry of the log.
unfoldable pub is_up_to_date : Option Entry → ℕ → RequestVote → Bool
unfolding ◌-ℤ◌
is_up_to_date none size m = true
is_up_to_date (some last) size m =
    ltb_ℤ last.term m.last_log_term
    || (eq_ℤ last.term m.last_log_term && leb_ℤ (pos size -ℤ pos 1) m.last_log_index)

unfoldable pub vote : Option ℕ → ℕ → RequestVote → Node → Node
unfolding reply_vote is_up_to_date
vote (some earlier) sender m n = reply_vote sender (earlier == sender) n
vote none sender m n =
    if is_up_to_date (get_last? n.logs) (length n.logs) m
    then reply_vote sender true (record n { voted_for = some sender })
    else reply_vote sender false n

unfoldable pub handle_request_vote : ℕ → RequestVote → Node → Node
unfolding reply_vote vote
handle_request_vote sender m n =
    if ltb_ℤ m.term n.term then reply_vote sender false n else vote n.voted_for sender m n

unfoldable pub dispatch : Rpc → ℕ → Cycle → Outcome (Bool × Cycle)
unfolding handle_request_vote handle_append_entries
dispatch (request_vote m) sender c =
    ok (true, record c { node = handle_request_vote sender m c.node })
dispatch (append_entries m) sender c = do
  n ← handle_append_entries sender m c.node
  ok (true, record c { node = n })
dispatch _ sender c = ok (false, c)

unfoldable pub handle_node_request : RpcResponse → Cycle → Outcome (Bool × Cycle)
unfolding dispatch check_always_should_stop
handle_node_request m c = do
  (stop, d) ← check_always_should_stop m c
  if stop then ok (true, d) else dispatch m.rpc m.sender_id d

unfoldable pub client_request : Rpc → RpcResponse → Cycle → Outcome Cycle
client_request request_leader m c = ok (client_request_leader_response m c)
client_request _ m c = ok c

unfoldable pub handle_client_request : RpcResponse → Cycle → Outcome Cycle
unfolding client_request
handle_client_request m c = client_request m.rpc m c

unfoldable pub post_cycle : Bool → Cycle → Outcome Cycle
unfolding change_next_state
post_cycle has_timed_out c = if has_timed_out then change_next_state candidate c else ok c

unfoldable pub follower_cycle : CycleClass
unfolding handle_node_request handle_client_request post_cycle
follower_cycle = record {
  pre_cycle = λ c. ok c;
  handle_node_request = handle_node_request;
  handle_client_request = handle_client_request;
  post_cycle = post_cycle;
}
