-- ===== src/Update/Clean.antt =====
-- The faults of the handlers: none is an exhausted loop or a second choice of the next state.
use raft_algorep.Base.{
  ℕ, zero, suc, ◌+◌, ◌≤◌, ℤ, pos, negsuc, pos_part, neg_part, ◌+ℤ◌, Bool, true, false, List, [],
  ◌∷◌, Option, none, some, ok, undefined, ◌>>=◌, or_fault, ◌≡◌, refl, sym, ap, ◌∙◌, arith, length,
  get_at?, int_laws, lt-get_elem?,
}
use raft_algorep.Config.{GlobalConfig}
use raft_algorep.Rpc.{Entry, Rpc, append_entries_response, request_client_response, AppendEntries}
use raft_algorep.Node.{Node, send_rpc, save_commit}
use raft_algorep.Follower.{
  resize, push_entries, append_log, save_range, check_entry_consistency, accept_entries,
  handle_append_entries,
}
use raft_algorep.Leader.{
  write, entries_from, update_message, send_update_to_follower, update_followers, count_holders,
  update_commit_index, commit_entry, commit_loop, commit_fuel, handle_append_response, response,
}
use raft_algorep.Update.Faults.{Clean, clean, Clean-bind_eq}

resize-Clean : (size : ℤ) (logs : List Entry) → Clean (resize size logs)
unfolding resize
resize-Clean (pos n) logs = search clean
resize-Clean (negsuc n) logs = search clean

push_entries-Clean : (es logs : List Entry) → Clean (push_entries es logs)
unfolding push_entries
push_entries-Clean [] logs = search clean
push_entries-Clean (e ∷ es) logs = search (clean, push_entries-Clean es)

save_range-Clean : (rounds : ℕ) (index : ℤ) (n : Node) → Clean (save_range rounds index n)
unfolding save_range
save_range-Clean zero index n = search clean
save_range-Clean (suc rounds) index n = search (clean, save_range-Clean rounds)

check_entry-Clean : (m : AppendEntries) (logs : List Entry) → Clean (check_entry_consistency m logs)
unfolding check_entry_consistency
check_entry-Clean m logs = search clean

append_log-Clean : (m : AppendEntries) (logs : List Entry) → Clean (append_log m logs)
unfolding append_log
append_log-Clean m logs = search (clean, resize-Clean, push_entries-Clean)

accept_entries-Clean :
    (sender : ℕ) (m : AppendEntries) (n : Node) → Clean (accept_entries sender m n)
unfolding accept_entries
accept_entries-Clean sender m n = search (clean, append_log-Clean, save_range-Clean)

pub handle_append_entries-Clean :
    (sender : ℕ) (m : AppendEntries) (n : Node) → Clean (handle_append_entries sender m n)
unfolding handle_append_entries
handle_append_entries-Clean sender m n = search (clean, check_entry-Clean, accept_entries-Clean)

module _ (g : GlobalConfig) where
  entries_from-Clean : (i : ℤ) (logs : List Entry) → Clean (entries_from i logs)
  unfolding entries_from
  entries_from-Clean (pos i) logs = search clean
  entries_from-Clean (negsuc i) logs = search clean

  send_update-Clean : (dst : ℕ) (n : Node) → Clean (send_update_to_follower g dst n)
  unfolding send_update_to_follower update_message
  send_update-Clean dst n = search (clean, entries_from-Clean)

  pub update_followers-Clean : (ranks : List ℕ) (n : Node) → Clean (update_followers g ranks n)
  unfolding update_followers
  update_followers-Clean [] n = search clean
  update_followers-Clean (dst ∷ ranks) n =
      search (clean, send_update-Clean, update_followers-Clean ranks)

  count_holders-Clean :
      (ranks : List ℕ) (index : ℤ) (n : Node) → Clean (count_holders g ranks index n)
  unfolding count_holders
  count_holders-Clean [] index n = search clean
  count_holders-Clean (dst ∷ ranks) index n = search (clean, count_holders-Clean ranks)

  write-Clean {ℓ} : {A : Type ℓ} (xs : List A) (i : ℕ) (x : A) → Clean (write xs i x)
  unfolding write
  write-Clean xs i x = search clean

  pub response-Clean : (rpc : Rpc) (sender : ℕ) (n : Node) → Clean (response g rpc sender n)
  unfolding handle_append_response
  response-Clean (append_entries_response m) sender n =
      search (clean, write-Clean, send_update-Clean)
  response-Clean _ sender n = search clean

  update_commit-Clean : (n : Node) → Clean (update_commit_index g n)
  unfolding update_commit_index
  update_commit-Clean n = search (clean, count_holders-Clean)

  commit_entry-Clean : (n : Node) → Clean (commit_entry g n)
  unfolding commit_entry
  commit_entry-Clean n = search clean

  update_commit-true :
      (n n' : Node)
      → update_commit_index g n ≡ ok (true, n')
      → (n'.logs ≡ n.logs) × (n'.commit_index ≡ n.commit_index +ℤ pos 1)
  unfolding update_commit_index
  update_commit-true n n' e = ground arith

  saved_entry :
      (o : Option Entry) (n n' : Node)
      → (or_fault o undefined >>= λ e.
          ok (save_commit e (send_rpc (request_client_response true) e.client_id n)))
        ≡ ok n'
      → (n'.logs ≡ n.logs) × (n'.commit_index ≡ n.commit_index) × ((e : Entry) × (o ≡ some e))
  unfolding send_rpc save_commit
  saved_entry none n n' e = cc
  saved_entry (some x) n n' e = (ground arith, ground arith, (x, refl))

  commit_entry-eq :
      (n n' : Node)
      → commit_entry g n ≡ ok n'
      → (n'.logs ≡ n.logs)
        × (n'.commit_index ≡ n.commit_index)
        × ((e : Entry) × (get_at? n.logs n.commit_index ≡ some e))
  unfolding commit_entry
  commit_entry-eq n n' e = saved_entry (get_at? n.logs n.commit_index) n n' e

  -- Enough fuel for the commit loop at `n`: one round for each entry beyond the commit index.
  abbrev Fuelled : ℕ → Node → Type 0
  Fuelled fuel n = (1 ≤ fuel) × (length n.logs + 1 ≤ fuel + pos_part (n.commit_index +ℤ pos 1))

  at_pos :
      (logs : List Entry) (i : ℤ) (e : Entry)
      → get_at? logs i ≡ some e
      → (j : ℕ) × (i ≡ pos j) × (j + 1 ≤ length logs)
  at_pos logs (pos j) e at = (j, refl, omega (arith, lt-get_elem? logs j e at))
  at_pos logs (negsuc j) e at = cc

  fuel_left :
      (fuel : ℕ) (n n' : Node) (e : Entry)
      → Fuelled (suc fuel) n
      → n'.logs ≡ n.logs
      → n'.commit_index ≡ n.commit_index +ℤ pos 1
      → get_at? n'.logs n'.commit_index ≡ some e
      → Fuelled fuel n'
  fuel_left fuel n n' e (one, enough) l c at =
      let (j, is, lt) = at_pos n'.logs n'.commit_index e at in
      (
        omega (int_laws, ap pos_part (sym c ∙ is), ap (length {0}) l),
        omega
            (int_laws, ap pos_part (sym c ∙ is), ap pos_part is, ap neg_part is, ap (length {0}) l),
      )

  commit_loop-Fuelled : (fuel : ℕ) (n : Node) → Fuelled fuel n → Clean (commit_loop g fuel n)
  unfolding commit_loop
  commit_loop-Fuelled zero n f = absurd (omega (arith, f.0))
  commit_loop-Fuelled (suc fuel) n f =
      Clean-bind_eq (update_commit_index g n) _ (update_commit-Clean n)
        (round (commit_loop-Fuelled fuel))
    where
      round :
          ((n'' : Node) → Fuelled fuel n'' → Clean (commit_loop g fuel n''))
          → (r : Bool × Node) → update_commit_index g n ≡ ok r
          → Clean (elim r.0 [ false ↦ ok r.1 | true ↦ (commit_entry g r.1 >>= commit_loop g fuel) ])
      round ih (false, n') e = search clean
      round ih (true, n') e =
          let (l, c) = update_commit-true n n' e in
          Clean-bind_eq (commit_entry g n') (commit_loop g fuel) (commit_entry-Clean n') λ n'' e'.
            let (l', c', (x, at)) = commit_entry-eq n' n'' e' in
            ih n'' (rw (l', c') (fuel_left fuel n n' x f l c at))

  pub commit_loop-Clean : (n : Node) → Clean (commit_loop g (commit_fuel g n) n)
  unfolding commit_fuel
  commit_loop-Clean n = commit_loop-Fuelled (length n.logs + 2) n (omega arith, omega arith)
