-- ===== src/Follower/Accept.antt =====
-- An AppendEntries that a follower accepts: the log, the file, the commit index and the reply.
use raft_algorep.Base.{
  ℕ, zero, suc, ◌+◌, ◌-◌, ◌≤◌, ℤ, pos, pos_part, neg_part, ◌+ℤ◌, ◌-ℤ◌, ◌≤ℤ◌, ltb_ℤ, eq_ℤ_iff,
  +ℤ_parts, int_laws, true, false, Bool-cases, List, [], ◌∷◌, ◌++◌, some, ok, if◌then◌else◌, length,
  take, get_elem?, length-append, length-take, ◌≡◌, inl, inr, refl, sym, ap, arith, lt→ltb, leb,
  not_leb→lt, leb→le, parts_apart, append-nil,
}
use raft_algorep.Rpc.{Entry, append_entries_response, AppendEntries, Packet}
use raft_algorep.Node.{Node, send_rpc}
use raft_algorep.Follower.{
  check_entry_consistency, save_range, reply_append, is_empty, accept_entries,
  handle_append_entries,
}
use raft_algorep.Follower.Append.{IsIndexedFrom, append_log_lem, save_slice, save_range_lem}

-- The log has an entry of the message's `prevLogTerm` just before its entry `k`, if `k` is not 0.
abbrev pub HasPrev : ℕ → AppendEntries → List Entry → Type 0
HasPrev zero m logs = Unit
HasPrev (suc j) m logs = (e : Entry) × (get_elem? logs j ≡ some e) × (e.term ≡ m.prev_log_term)

consistent_pos :
    (j : ℕ) (p : ℤ) (m : AppendEntries) (logs : List Entry)
    → p ≡ pos j
    → m.prev_log_index ≡ p
    → suc j ≤ length logs
    → HasPrev (suc j) m logs
    → check_entry_consistency m logs ≡ ok true
unfolding check_entry_consistency
consistent_pos j p m logs e q h (x, at, t) =
    rw (q, e, at) (ground (arith, eq_ℤ_iff x.term m.prev_log_term))

pub check_entry_consistency_lem :
    (k : ℕ) (m : AppendEntries) (logs : List Entry)
    → m.prev_log_index +ℤ pos 1 ≡ pos k
    → k ≤ length logs
    → HasPrev k m logs
    → check_entry_consistency m logs ≡ ok true
check_entry_consistency_lem zero m logs e h p =
    unfold check_entry_consistency in ground (arith, +ℤ_parts m.prev_log_index (pos 1))
check_entry_consistency_lem (suc j) m logs e h p =
    consistent_pos j m.prev_log_index m logs (omega (int_laws, ap pos_part e, ap neg_part e)) refl h
      p

-- What a follower accepts. The message starts at entry `k`; `a` and `b` are the numbers of entries
-- that the follower and the leader have committed.
pub record Acceptable (m : AppendEntries) (n : Node) (k a b : ℕ) : Type 0 where
  pub current : n.term ≤ℤ m.term
  pub starts : m.prev_log_index +ℤ pos 1 ≡ pos k
  pub fits : k ≤ length n.logs
  pub has_prev : HasPrev k m n.logs
  pub indexed : IsIndexedFrom k m.entries
  pub own_commit : n.commit_index +ℤ pos 1 ≡ pos a
  pub leader_commit : m.leader_commit +ℤ pos 1 ≡ pos b
  pub in_log : b ≤ k + length m.entries

abbrev pub success_reply : ℕ → Node → Packet
success_reply sender n = record {
  rpc =
      append_entries_response
        (record { term = n.term; success = true; new_index = pos (length n.logs) });
  dest = sender;
}

abbrev pub merged : AppendEntries → Node → ℕ → List Entry
merged m n k = take k n.logs ++ m.entries

-- The follower before its reply.
abbrev pub updated : ℕ → AppendEntries → Node → ℕ → ℕ → ℕ → Node
updated sender m n k a b = record n {
  logs = merged m n k;
  leader_id = some sender;
  commit_index = m.leader_commit;
  saved = n.saved ++ save_slice (b - a) a (merged m n k);
}

abbrev pub replied : ℕ → AppendEntries → Node → Node
replied sender m n =
    if is_empty m.entries then n else record n { sent = n.sent ++ success_reply sender n ∷ [] }

save_none :
    (a : ℕ) (n : Node)
    → save_range zero (pos a) n ≡ ok (record n { saved = n.saved ++ save_slice zero a n.logs })
unfolding save_range
save_none a n = ap (λ (s : List Entry). ok (record n { saved = s })) (sym (append-nil n.saved))

save_slice_lem :
    (a b : ℕ) (n : Node)
    → b ≤ length n.logs
    → save_range (b - a) (pos a) n
      ≡ ok (record n { saved = n.saved ++ save_slice (b - a) a n.logs })
save_slice_lem a b n h = elim (Bool-cases (leb b a)) [
  | inl none_left ↦ let e : b - a ≡ 0 = omega (arith, leb→le b a none_left) in rw e (save_none a n)
  | inr some_left ↦ save_range_lem (b - a) a n (omega (arith, not_leb→lt b a some_left))
]

module _ (sender : ℕ) (m : AppendEntries) (n : Node) (k a b : ℕ) (h : Acceptable m n k a b) where
  fits_log : ltb_ℤ m.leader_commit (pos (length (merged m n k))) ≡ true
  fits_log = lt→ltb _ _ (
      omega (
        int_laws,
        ap pos_part h.leader_commit,
        ap neg_part h.leader_commit,
        h.in_log,
        h.fits,
        length-append {0} (take k n.logs) m.entries,
        length-take {0} k n.logs,
      ))

  rounds : pos_part (m.leader_commit -ℤ n.commit_index) ≡ b - a
  rounds = omega (
    int_laws,
    ap pos_part h.leader_commit,
    ap neg_part h.leader_commit,
    ap pos_part h.own_commit,
    ap neg_part h.own_commit,
    parts_apart (m.leader_commit -ℤ n.commit_index),
  )

  in_merged : b ≤ length (merged m n k)
  in_merged = omega (
    arith,
    h.in_log,
    h.fits,
    length-append {0} (take k n.logs) m.entries,
    length-take {0} k n.logs,
  )

  accept_entries_lem :
      accept_entries sender m (record n { leader_id = some sender })
      ≡ ok (replied sender m (updated sender m n k a b))
  unfolding accept_entries reply_append send_rpc
  accept_entries_lem =
      rw (append_log_lem k m n.logs h.starts h.fits h.indexed, fits_log, rounds, h.own_commit)
        (rw
          (save_slice_lem a b (record n { logs = merged m n k; leader_id = some sender }) in_merged)
          refl)

  not_old : ltb_ℤ m.term n.term ≡ false
  not_old = ground (arith, h.current)

-- A message that starts inside the follower's log, behind an entry that matches, whose entries
-- carry their positions and which commits no more than the resulting log, is handled without any
-- fault: the log becomes its first k entries and the message's, the entries between the two commit
-- indices are appended to the file in order, the commit index becomes the leader's, the sender is
-- the known leader, and a success with the new length is sent unless the message is empty.
pub handle_append_entries-accepts :
    (sender : ℕ) (m : AppendEntries) (n : Node) (k a b : ℕ)
    → Acceptable m n k a b
    → handle_append_entries sender m n ≡ ok (replied sender m (updated sender m n k a b))
unfolding handle_append_entries
handle_append_entries-accepts sender m n k a b h =
    rw
      (
        not_old sender m n k a b h,
        check_entry_consistency_lem k m n.logs h.starts h.fits h.has_prev,
      )
      (accept_entries_lem sender m n k a b h)
