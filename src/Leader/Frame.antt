-- ===== src/Leader/Frame.antt =====
-- What the handlers of a leader leave alone.
use raft_algorep.Base.{
  ℕ, zero, suc, pos, ◌+ℤ◌, ◌-ℤ◌, ◌-◌, Bool, true, false, List, [], ◌∷◌, ok, ◌>>=◌, IfReturns,
  IfReturns-bind, IfReturns-if, IfReturns-mono, IfReturns-require, undefined, or_fault, get_elem?,
  get_at?, ltb_ℤ, ◌==◌, if◌then◌else◌, length, ◌≡◌, refl, assertion, commit_beyond_log, Ends-ok,
  ltb, ◌/◌,
}
use raft_algorep.Config.{GlobalConfig, node_ranks, nb_node}
use raft_algorep.Rpc.{Rpc, append_entries_response, request_client_response, AppendEntriesResponse}
use raft_algorep.Node.{Node, save_commit}
use raft_algorep.Node.Quiet.{Quiet, Quiet-refl, Quiet-trans, send_rpc-Quiet}
use raft_algorep.Leader.{
  write, update_message, send_update_to_follower, update_followers, count_holders,
  update_commit_index, commit_entry, commit_loop, handle_append_response, response,
}

module _ (g : GlobalConfig) where
  send_update-Quiet : (dst : ℕ) (n : Node) → IfReturns (Quiet n) (send_update_to_follower g dst n)
  unfolding send_update_to_follower
  send_update-Quiet dst n =
      IfReturns-bind (Quiet n) (update_message g dst n) _ λ m _. send_rpc-Quiet _ dst n refl

  pub update_followers-Quiet :
      (ranks : List ℕ) (n : Node) → IfReturns (Quiet n) (update_followers g ranks n)
  unfolding update_followers
  update_followers-Quiet [] n = Quiet-refl n n refl refl refl refl
  update_followers-Quiet (dst ∷ ranks) n =
      IfReturns-bind (Quiet n) (if dst == g.rank then ok n else send_update_to_follower g dst n) _
        λ n' e.
          IfReturns-mono (Quiet n') (Quiet n) (update_followers g ranks n')
            (update_followers-Quiet ranks n') (λ n'' q. Quiet-trans (sent n' e) q)
    where
      sent :
          (n' : Node)
          → (if dst == g.rank then ok n else send_update_to_follower g dst n) ≡ ok n'
          → Quiet n n'
      sent n' e =
          Ends-ok _ (Quiet n) _
            (IfReturns-if (Quiet n) (dst == g.rank) (ok n) (send_update_to_follower g dst n)
              (λ _. Quiet-refl n n refl refl refl refl) (λ _. send_update-Quiet dst n))
            e

  update_commit-Quiet : (n : Node) → IfReturns (λ r. Quiet n r.1) (update_commit_index g n)
  unfolding update_commit_index
  update_commit-Quiet n =
      IfReturns-require _ (ltb_ℤ n.commit_index (pos (length n.logs))) (assertion commit_beyond_log)
        _
        λ _.
          IfReturns-bind _ (count_holders g (node_ranks g) (n.commit_index +ℤ pos 1) n) _
            λ k _. chosen (ltb (nb_node g / 2) k)
    where
      chosen :
          (b : Bool)
          → IfReturns
              (λ (r : Bool × Node). Quiet n r.1)
              (ok (
                if b
                then (true, record n { commit_index = n.commit_index +ℤ pos 1 })
                else (false, n)))
      chosen true = Quiet-refl n _ refl refl refl refl
      chosen false = Quiet-refl n n refl refl refl refl

  commit_entry-Quiet : (n : Node) → IfReturns (Quiet n) (commit_entry g n)
  unfolding commit_entry save_commit
  commit_entry-Quiet n =
      IfReturns-bind (Quiet n) (or_fault (get_at? n.logs n.commit_index) undefined) _ λ e _.
        Quiet-trans (send_rpc-Quiet (request_client_response true) e.client_id n refl)
          (Quiet-refl _ _ refl refl refl refl)

  pub commit_loop-Quiet : (fuel : ℕ) (n : Node) → IfReturns (Quiet n) (commit_loop g fuel n)
  unfolding commit_loop
  commit_loop-Quiet zero n = tt
  commit_loop-Quiet (suc fuel) n =
      IfReturns-bind (Quiet n) (update_commit_index g n) _
        λ r e. round r (Ends-ok _ _ _ (update_commit-Quiet n) e) (commit_loop-Quiet fuel)
    where
      round :
          (r : Bool × Node)
          → Quiet n r.1
          → ((n' : Node) → IfReturns (Quiet n') (commit_loop g fuel n'))
          → IfReturns
              (Quiet n)
              (elim r.0 [ false ↦ ok r.1 | true ↦ (commit_entry g r.1 >>= commit_loop g fuel) ])
      round (false, n') q ih = q
      round (true, n') q ih =
          IfReturns-bind (Quiet n) (commit_entry g n') (commit_loop g fuel) λ n'' e.
            IfReturns-mono (Quiet n'') (Quiet n) (commit_loop g fuel n'') (ih n'') (λ k s.
              Quiet-trans (Quiet-trans q (Ends-ok _ (Quiet n') _ (commit_entry-Quiet n') e)) s)

  handle_append_response-Quiet :
      (sender : ℕ) (m : AppendEntriesResponse) (n : Node)
      → IfReturns (Quiet n) (handle_append_response g sender m n)
  unfolding handle_append_response
  handle_append_response-Quiet sender m n =
      IfReturns-if (Quiet n) m.success _ _
        (λ _.
          IfReturns-bind (Quiet n) (write n.next_index (sender - g.nb_node_min) m.new_index) _
            λ next _.
              IfReturns-bind (Quiet n)
                (write n.match_index (sender - g.nb_node_min) (m.new_index -ℤ pos 1)) _
                λ matched _. Quiet-refl n _ refl refl refl refl)
        (λ _.
          IfReturns-bind (Quiet n)
            (or_fault (get_elem? n.next_index (sender - g.nb_node_min)) undefined) _
            λ old _.
              IfReturns-bind (Quiet n) (write n.next_index (sender - g.nb_node_min) (old -ℤ pos 1))
                _
                λ next _.
                  IfReturns-mono (Quiet (record n { next_index = next })) (Quiet n)
                    (send_update_to_follower g sender (record n { next_index = next }))
                    (send_update-Quiet sender (record n { next_index = next }))
                    (λ n' q. Quiet-trans (Quiet-refl n _ refl refl refl refl) q))

  pub response-Quiet :
      (rpc : Rpc) (sender : ℕ) (n : Node) → IfReturns (Quiet n) (response g rpc sender n)
  response-Quiet (append_entries_response m) sender n = handle_append_response-Quiet sender m n
  response-Quiet _ sender n = Quiet-refl n n refl refl refl refl
