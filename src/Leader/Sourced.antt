-- ===== src/Leader/Sourced.antt =====
-- A leader's commands come from what it reads.
use raft_algorep.Base.{
  ℕ, zero, suc, ◌-◌, ◌/◌, pos, negsuc, ◌+ℤ◌, ◌-ℤ◌, ℤ, Bool, true, false, List, [], ◌∷◌, ◌++◌, Text,
  ok, ◌>>=◌, or_fault, undefined, IfReturns, IfReturns-bind, IfReturns-if, IfReturns-require,
  Ends-bind, Ends-or_fault, assertion, commit_beyond_log, get_elem?, get_at?, if◌then◌else◌, ltb,
  ltb_ℤ, length, ◌==◌, All-append, All-get_at, All-drop,
}
use raft_algorep.Config.{GlobalConfig, node_ranks, nb_node}
use raft_algorep.Rpc.{
  Entry, Rpc, append_entries, append_entries_response, request_client_response,
  AppendEntriesResponse,
}
use raft_algorep.Node.{Node, send_rpc}
use raft_algorep.Node.Sourced.{
  HasCommand, Commands, Sourced, send_rpc-Sourced, save_commit-Sourced, logs-Sourced,
}
use raft_algorep.Leader.{
  count_holders, write, entries_from, update_message, send_update_to_follower, update_followers,
  update_commit_index, commit_entry, commit_loop, handle_append_response, response, new_entry,
}

module _ (P : Text → ℕ → Type 0) where
  entries_from-Commands :
      (i : ℤ) (logs : List Entry) → Commands P logs → IfReturns (Commands P) (entries_from i logs)
  unfolding entries_from
  entries_from-Commands (pos i) logs h = All-drop (HasCommand P) i logs h
  entries_from-Commands (negsuc i) logs h = tt

  module _ (g : GlobalConfig) where
    update_message-Commands :
        (dst : ℕ) (n : Node)
        → Sourced P n
        → IfReturns (λ m. Commands P m.entries) (update_message g dst n)
    unfolding update_message
    update_message-Commands dst n s =
        IfReturns-bind _ (or_fault (get_elem? n.next_index (dst - g.nb_node_min)) undefined) _
          λ next _.
            Ends-bind _ (Commands P) (λ m. Commands P m.entries)
              (entries_from ((next -ℤ pos 1) +ℤ pos 1) n.logs) _
              (entries_from-Commands ((next -ℤ pos 1) +ℤ pos 1) n.logs s.in_log) (λ es h. h)

    send_update-Sourced :
        (dst : ℕ) (n : Node) → Sourced P n → IfReturns (Sourced P) (send_update_to_follower g dst n)
    unfolding send_update_to_follower
    send_update-Sourced dst n s =
        Ends-bind _ (λ m. Commands P m.entries) (Sourced P) (update_message g dst n) _
          (update_message-Commands dst n s)
          (λ m h. send_rpc-Sourced P (append_entries m) dst n (λ _. h) s)

    pub update_followers-Sourced :
        (ranks : List ℕ) (n : Node)
        → Sourced P n
        → IfReturns (Sourced P) (update_followers g ranks n)
    unfolding update_followers
    update_followers-Sourced [] n s = s
    update_followers-Sourced (dst ∷ ranks) n s =
        Ends-bind _ (Sourced P) (Sourced P)
          (if dst == g.rank then ok n else send_update_to_follower g dst n) _
          (IfReturns-if (Sourced P) (dst == g.rank) (ok n) (send_update_to_follower g dst n)
            (λ _. s) (λ _. send_update-Sourced dst n s))
          (λ n' s'. update_followers-Sourced ranks n' s')

    handle_append_response-Sourced :
        (sender : ℕ) (m : AppendEntriesResponse) (n : Node)
        → Sourced P n
        → IfReturns (Sourced P) (handle_append_response g sender m n)
    unfolding handle_append_response
    handle_append_response-Sourced sender m n s =
        IfReturns-if (Sourced P) m.success _ _
          (λ _.
            IfReturns-bind (Sourced P) (write n.next_index (sender - g.nb_node_min) m.new_index) _
              λ next _.
                IfReturns-bind (Sourced P)
                  (write n.match_index (sender - g.nb_node_min) (m.new_index -ℤ pos 1)) _
                  λ matched _. s)
          (λ _.
            IfReturns-bind (Sourced P)
              (or_fault (get_elem? n.next_index (sender - g.nb_node_min)) undefined) _
              λ old _.
                IfReturns-bind (Sourced P)
                  (write n.next_index (sender - g.nb_node_min) (old -ℤ pos 1)) _
                  λ next _. send_update-Sourced sender (record n { next_index = next }) s)

    pub response-Sourced :
        (rpc : Rpc) (sender : ℕ) (n : Node)
        → Sourced P n
        → IfReturns (Sourced P) (response g rpc sender n)
    response-Sourced (append_entries_response m) sender n s =
        handle_append_response-Sourced sender m n s
    response-Sourced _ sender n s = s

    commit_entry-Sourced : (n : Node) → Sourced P n → IfReturns (Sourced P) (commit_entry g n)
    unfolding commit_entry
    commit_entry-Sourced n s =
        Ends-bind _ (HasCommand P) (Sourced P) (or_fault (get_at? n.logs n.commit_index) undefined)
          _
          (Ends-or_fault _ (HasCommand P) (get_at? n.logs n.commit_index) undefined (λ _. tt)
            (λ e at. All-get_at (HasCommand P) n.logs n.commit_index e s.in_log at))
          (λ e h.
            save_commit-Sourced P e (send_rpc (request_client_response true) e.client_id n) h
              (send_rpc-Sourced P (request_client_response true) e.client_id n (λ _. tt) s))

    update_commit-Sourced :
        (n : Node) → Sourced P n → IfReturns (λ r. Sourced P r.1) (update_commit_index g n)
    unfolding update_commit_index
    update_commit-Sourced n s =
        IfReturns-require _ (ltb_ℤ n.commit_index (pos (length n.logs)))
          (assertion commit_beyond_log) _
          λ _.
            IfReturns-bind _ (count_holders g (node_ranks g) (n.commit_index +ℤ pos 1) n) _
              λ k _. chosen (ltb (nb_node g / 2) k)
      where
        chosen :
            (b : Bool)
            → IfReturns
                (λ (r : Bool × Node). Sourced P r.1)
                (ok (
                  if b
                  then (true, record n { commit_index = n.commit_index +ℤ pos 1 })
                  else (false, n)))
        chosen false = s
        chosen true = s

    pub commit_loop-Sourced :
        (fuel : ℕ) (n : Node) → Sourced P n → IfReturns (Sourced P) (commit_loop g fuel n)
    unfolding commit_loop
    commit_loop-Sourced zero n s = tt
    commit_loop-Sourced (suc fuel) n s =
        Ends-bind _ (λ r. Sourced P r.1) (Sourced P) (update_commit_index g n) _
          (update_commit-Sourced n s) (round (commit_loop-Sourced fuel))
      where
        round :
            ((n' : Node) → Sourced P n' → IfReturns (Sourced P) (commit_loop g fuel n'))
            → (r : Bool × Node) → Sourced P r.1
            → IfReturns
                (Sourced P)
                (elim r.0 [ false ↦ ok r.1 | true ↦ (commit_entry g r.1 >>= commit_loop g fuel) ])
        round ih (false, n') h = h
        round ih (true, n') h =
            Ends-bind _ (Sourced P) (Sourced P) (commit_entry g n') (commit_loop g fuel)
              (commit_entry-Sourced n' h) ih

    -- A client's request adds its command.
    pub request-Sourced :
        (message : Text) (client : ℕ) (n : Node)
        → P message client
        → Sourced P n
        → Sourced P (record n { logs = n.logs ++ new_entry g message client n ∷ [] })
    unfolding new_entry
    request-Sourced message client n h s =
        logs-Sourced P (n.logs ++ new_entry g message client n ∷ []) n
          (All-append (HasCommand P) n.logs (new_entry g message client n ∷ []) s.in_log (h, tt)) s
