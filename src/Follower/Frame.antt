-- ===== src/Follower/Frame.antt =====
-- What the receive handlers of a follower leave alone.
use raft_algorep.Base.{
  ℕ, zero, suc, ℤ, pos, ◌+ℤ◌, ◌-ℤ◌, pos_part, Bool, true, false, Bool-cases, some, ok, IfReturns,
  or_fault, undefined, inl, inr, Ends-ok, IfReturns-mono, IfReturns-bind, IfReturns-require,
  IfReturns-if, ltb_ℤ, if◌then◌else◌, length, get_at?, refl, assertion, commit_beyond_log,
}
use raft_algorep.Rpc.{AppendEntries}
use raft_algorep.Node.{Node, save_commit}
use raft_algorep.Node.Quiet.{Quiet, Quiet-refl, Quiet-trans, send_rpc-Quiet}
use raft_algorep.Follower.{
  check_entry_consistency, append_log, save_range, reply_append, is_empty, accept_entries,
  handle_append_entries,
}

reply_append-Quiet : (sender : ℕ) (b : Bool) (n : Node) → Quiet n (reply_append sender b n)
unfolding reply_append
reply_append-Quiet sender b n = send_rpc-Quiet _ sender n refl

pub save_range-Quiet : (rounds : ℕ) (i : ℤ) (n : Node) → IfReturns (Quiet n) (save_range rounds i n)
unfolding save_range save_commit
save_range-Quiet zero i n = Quiet-refl n n refl refl refl refl
save_range-Quiet (suc rounds) i n =
    IfReturns-bind (Quiet n) (or_fault (get_at? n.logs i) undefined) _ λ e _.
      IfReturns-mono (Quiet (save_commit e n)) (Quiet n)
        (save_range rounds (i +ℤ pos 1) (save_commit e n))
        (save_range-Quiet rounds (i +ℤ pos 1) (save_commit e n))
        (λ n' q. Quiet-trans (Quiet-refl n (save_commit e n) refl refl refl refl) q)

accepted-Quiet :
    (sender : ℕ) (m : AppendEntries) (n n' : Node)
    → Quiet n n'
    → let done = record n' { commit_index = m.leader_commit } in
      Quiet n (if is_empty m.entries then done else reply_append sender true done)
accepted-Quiet sender m n n' q = elim (Bool-cases (is_empty m.entries)) [
  | inl e ↦ rw e done-Quiet
  | inr e ↦ rw e (Quiet-trans done-Quiet (reply_append-Quiet sender true _))
]
  where
    done-Quiet : Quiet n (record n' { commit_index = m.leader_commit })
    done-Quiet = Quiet-trans q (Quiet-refl n' _ refl refl refl refl)

accept_entries-Quiet :
    (sender : ℕ) (m : AppendEntries) (n : Node) → IfReturns (Quiet n) (accept_entries sender m n)
unfolding accept_entries
accept_entries-Quiet sender m n = IfReturns-bind (Quiet n) (append_log m n.logs) _ λ logs _.
    IfReturns-require (Quiet n) (ltb_ℤ m.leader_commit (pos (length logs)))
      (assertion commit_beyond_log) _
      λ _.
        IfReturns-bind (Quiet n)
          (save_range (pos_part (m.leader_commit -ℤ n.commit_index)) (n.commit_index +ℤ pos 1)
            (record n { logs = logs }))
          _
          λ n' e. accepted-Quiet sender m n n' (
            Quiet-trans (Quiet-refl n (record n { logs = logs }) refl refl refl refl) (
              Ends-ok _ (Quiet (record n { logs = logs })) _
                (save_range-Quiet (pos_part (m.leader_commit -ℤ n.commit_index))
                  (n.commit_index +ℤ pos 1) (record n { logs = logs }))
                e))

pub handle_append_entries-Quiet :
    (sender : ℕ) (m : AppendEntries) (n : Node)
    → IfReturns (Quiet n) (handle_append_entries sender m n)
unfolding handle_append_entries
handle_append_entries-Quiet sender m n =
    IfReturns-if (Quiet n) (ltb_ℤ m.term n.term) _ _ (λ _. reply_append-Quiet sender false n)
      λ _. IfReturns-bind (Quiet n) (check_entry_consistency m n.logs) _ λ b _.
        IfReturns-if (Quiet n) b (accept_entries sender m known)
          (ok (reply_append sender false known))
          (λ _.
            IfReturns-mono (Quiet known) (Quiet n) (accept_entries sender m known)
              (accept_entries-Quiet sender m known) (λ n' q. Quiet-trans known-Quiet q))
          (λ _. Quiet-trans known-Quiet (reply_append-Quiet sender false known))
  where
    known : Node
    known = record n { leader_id = some sender }

    known-Quiet : Quiet n known
    known-Quiet = Quiet-refl n known refl refl refl refl
