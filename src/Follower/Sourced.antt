-- ===== src/Follower/Sourced.antt =====
-- A follower's commands come from what it reads.
use raft_algorep.Base.{
  ℕ, zero, suc, pos, ◌+ℤ◌, ◌-ℤ◌, ℤ, pos_part, eq_ℤ, ltb_ℤ, Bool, true, false, Bool-cases, List, [],
  ◌∷◌, ◌++◌, Text, ok, some, assertion, inconsistent_index, commit_beyond_log, undefined, or_fault,
  IfReturns, IfReturns-bind, IfReturns-if, IfReturns-require, Ends-bind, Ends-or_fault,
  if◌then◌else◌, length, take, get_at?, All-append, All-get_at, All-take, ap, ◌∙◌, inl, inr,
}
use raft_algorep.Rpc.{Entry, RequestVote, AppendEntries}
use raft_algorep.Node.{Node, save_commit, send_rpc}
use raft_algorep.Node.Sourced.{
  HasCommand, Commands, Sourced, send_rpc-Sourced, save_commit-Sourced, logs-Sourced,
}
use raft_algorep.Follower.{
  check_entry_consistency, push_entries, append_log, save_range, reply_append, is_empty,
  accept_entries, handle_append_entries, handle_request_vote,
}
use raft_algorep.Follower.Append.{resize_lem}
use raft_algorep.Follower.Grant.{vote_reply, handle_request_vote-Answers}
use raft_algorep.Follower.Logged.{Starts, consistent-Starts}

module _ (P : Text → ℕ → Type 0) where
  push_entries-Commands :
      (es logs : List Entry)
      → Commands P es
      → Commands P logs
      → IfReturns (Commands P) (push_entries es logs)
  unfolding push_entries
  push_entries-Commands [] logs h l = l
  push_entries-Commands (e ∷ es) logs h l =
      IfReturns-require (Commands P) (eq_ℤ e.index (pos (length logs)))
        (assertion inconsistent_index) (push_entries es (logs ++ e ∷ []))
        (λ _.
          push_entries-Commands es (logs ++ e ∷ []) h.1
            (All-append (HasCommand P) logs (e ∷ []) l (h.0, tt)))

  -- No blank entry is added to a log in which the message starts.
  append_log-Commands :
      (m : AppendEntries) (logs : List Entry)
      → Starts m logs
      → Commands P m.entries
      → Commands P logs
      → IfReturns (Commands P) (append_log m logs)
  unfolding append_log
  append_log-Commands m logs (k, e, h) new old =
      rw (e, resize_lem k logs h)
        (push_entries-Commands m.entries (take k logs) new (All-take (HasCommand P) k logs old))

  save_range-Sourced :
      (rounds : ℕ) (i : ℤ) (n : Node) → Sourced P n → IfReturns (Sourced P) (save_range rounds i n)
  unfolding save_range
  save_range-Sourced zero i n s = s
  save_range-Sourced (suc rounds) i n s =
      Ends-bind _ (HasCommand P) (Sourced P) (or_fault (get_at? n.logs i) undefined) _
        (Ends-or_fault _ (HasCommand P) (get_at? n.logs i) undefined (λ _. tt)
          (λ e at. All-get_at (HasCommand P) n.logs i e s.in_log at))
        (λ e h.
          save_range-Sourced rounds (i +ℤ pos 1) (save_commit e n) (save_commit-Sourced P e n h s))

  reply_append-Sourced :
      (sender : ℕ) (b : Bool) (n : Node) → Sourced P n → Sourced P (reply_append sender b n)
  unfolding reply_append
  reply_append-Sourced sender b n s = send_rpc-Sourced P _ sender n (λ _. tt) s

  accepted-Sourced :
      (sender : ℕ) (m : AppendEntries) (n : Node)
      → Sourced P n
      → Sourced P (if is_empty m.entries then n else reply_append sender true n)
  accepted-Sourced sender m n s = elim (Bool-cases (is_empty m.entries)) [
    | inl e ↦ rw e s
    | inr e ↦ rw e (reply_append-Sourced sender true n s)
  ]

  accept_entries-Sourced :
      (sender : ℕ) (m : AppendEntries) (n : Node)
      → Starts m n.logs
      → Commands P m.entries
      → Sourced P n
      → IfReturns (Sourced P) (accept_entries sender m n)
  unfolding accept_entries
  accept_entries-Sourced sender m n starts new s =
      Ends-bind _ (Commands P) (Sourced P) (append_log m n.logs) _
        (append_log-Commands m n.logs starts new s.in_log)
        λ logs l.
          IfReturns-require (Sourced P) (ltb_ℤ m.leader_commit (pos (length logs)))
            (assertion commit_beyond_log) _
            λ _.
              Ends-bind _ (Sourced P) (Sourced P)
                (save_range (pos_part (m.leader_commit -ℤ n.commit_index)) (n.commit_index +ℤ pos 1)
                  (record n { logs = logs }))
                _
                (save_range-Sourced (pos_part (m.leader_commit -ℤ n.commit_index))
                  (n.commit_index +ℤ pos 1) (record n { logs = logs }) (logs-Sourced P logs n l s))
                (λ n' s'.
                  accepted-Sourced sender m (record n' { commit_index = m.leader_commit }) s')

  pub handle_append_entries-Sourced :
      (sender : ℕ) (m : AppendEntries) (n : Node)
      → Commands P m.entries
      → Sourced P n
      → IfReturns (Sourced P) (handle_append_entries sender m n)
  unfolding handle_append_entries
  handle_append_entries-Sourced sender m n new s =
      IfReturns-if (Sourced P) (ltb_ℤ m.term n.term) _ _
        (λ _. reply_append-Sourced sender false n s)
        λ _. IfReturns-bind (Sourced P) (check_entry_consistency m n.logs) _ λ b e.
          IfReturns-if (Sourced P) b (accept_entries sender m known) _
            (λ yes_b.
              accept_entries-Sourced sender m known (consistent-Starts m n.logs (e ∙ ap ok yes_b))
                new s)
            (λ _. reply_append-Sourced sender false known s)
    where
      known : Node
      known = record n { leader_id = some sender }

  pub handle_request_vote-Sourced :
      (sender : ℕ) (m : RequestVote) (n : Node)
      → Sourced P n
      → Sourced P (handle_request_vote sender m n)
  unfolding send_rpc
  handle_request_vote-Sourced sender m n s =
      let (granted, answer, deserved) = handle_request_vote-Answers sender m n in
      rw answer (send_rpc-Sourced P (vote_reply sender granted n).rpc sender n (λ _. tt) s)
