-- ===== src/Leader/Appends.antt =====
-- A leader's log and file only grow, and its commit index does not fall.
use raft_algorep.Base.{
  ℕ, zero, suc, ◌-◌, ◌/◌, pos, ◌+ℤ◌, ◌-ℤ◌, ◌≤ℤ◌, int_laws, Bool, true, false, List, [], ◌∷◌, ◌++◌,
  append-nil, append_assoc, ok, ◌>>=◌, or_fault, undefined, IfReturns, IfReturns-bind, IfReturns-if,
  IfReturns-require, assertion, commit_beyond_log, IfReturns-mono, Ends-ok, get_elem?, get_at?,
  if◌then◌else◌, ltb, ltb_ℤ, length, ◌≡◌, refl, sym, ap, ◌∙◌, Text, arith,
}
use raft_algorep.Config.{GlobalConfig, node_ranks, nb_node}
use raft_algorep.Rpc.{Entry, Rpc, append_entries_response, AppendEntriesResponse}
use raft_algorep.Node.{Node, save_commit, send_rpc}
use raft_algorep.Leader.{
  count_holders, write, send_update_to_follower, update_followers, update_commit_index,
  commit_entry, commit_loop, handle_append_response, response, new_entry,
}
use raft_algorep.Leader.Logged.{OnlySends, send_update-OnlySends, update_followers-OnlySends}

pub record Appends (n n' : Node) : Type 0 where
  pub more : List Entry
  pub log_grows : n'.logs ≡ n.logs ++ more
  pub more_saved : List Entry
  pub file_grows : n'.saved ≡ n.saved ++ more_saved
  pub commit_up : n.commit_index ≤ℤ n'.commit_index

pub Appends-refl :
    (n n' : Node)
    → n'.logs ≡ n.logs
    → n'.saved ≡ n.saved
    → n'.commit_index ≡ n.commit_index
    → Appends n n'
Appends-refl n n' l s c = record {
  more = [];
  log_grows = l ∙ sym (append-nil n.logs);
  more_saved = [];
  file_grows = s ∙ sym (append-nil n.saved);
  commit_up = rw c (omega arith);
}

pub Appends-trans : {n n' n'' : Node} → Appends n n' → Appends n' n'' → Appends n n''
Appends-trans {n} {n'} {n''} p q = record {
  more = p.more ++ q.more;
  log_grows = q.log_grows ∙ ap (λ l. l ++ q.more) p.log_grows ∙ append_assoc n.logs p.more q.more;
  more_saved = p.more_saved ++ q.more_saved;
  file_grows =
      q.file_grows
      ∙ ap (λ l. l ++ q.more_saved) p.file_grows
      ∙ append_assoc n.saved p.more_saved q.more_saved;
  commit_up = omega (arith, p.commit_up, q.commit_up);
}

pub OnlySends-Appends : (n n' : Node) → OnlySends n n' → Appends n n'
OnlySends-Appends n n' q =
    Appends-refl n n' (ap (λ (k : Node). k.logs) q) (ap (λ (k : Node). k.saved) q)
      (ap (λ (k : Node). k.commit_index) q)

module _ (g : GlobalConfig) where
  handle_append_response-Appends :
      (sender : ℕ) (m : AppendEntriesResponse) (n : Node)
      → IfReturns (Appends n) (handle_append_response g sender m n)
  unfolding handle_append_response
  handle_append_response-Appends sender m n =
      IfReturns-if (Appends n) m.success _ _
        (λ _.
          IfReturns-bind (Appends n) (write n.next_index (sender - g.nb_node_min) m.new_index) _
            λ next _.
              IfReturns-bind (Appends n)
                (write n.match_index (sender - g.nb_node_min) (m.new_index -ℤ pos 1)) _
                λ matched _. Appends-refl n _ refl refl refl)
        (λ _.
          IfReturns-bind (Appends n)
            (or_fault (get_elem? n.next_index (sender - g.nb_node_min)) undefined) _
            λ old _.
              IfReturns-bind (Appends n)
                (write n.next_index (sender - g.nb_node_min) (old -ℤ pos 1)) _
                λ next _.
                  IfReturns-mono (OnlySends (record n { next_index = next })) (Appends n)
                    (send_update_to_follower g sender (record n { next_index = next }))
                    (send_update-OnlySends g sender (record n { next_index = next }))
                    (λ n' q.
                      Appends-trans (Appends-refl n (record n { next_index = next }) refl refl refl)
                        (OnlySends-Appends (record n { next_index = next }) n' q)))

  pub response-Appends :
      (rpc : Rpc) (sender : ℕ) (n : Node) → IfReturns (Appends n) (response g rpc sender n)
  response-Appends (append_entries_response m) sender n = handle_append_response-Appends sender m n
  response-Appends _ sender n = Appends-refl n n refl refl refl

  commit_entry-Appends : (n : Node) → IfReturns (Appends n) (commit_entry g n)
  unfolding commit_entry save_commit send_rpc
  commit_entry-Appends n =
      IfReturns-bind (Appends n) (or_fault (get_at? n.logs n.commit_index) undefined) _ λ e _.
        record {
          more = [];
          log_grows = sym (append-nil n.logs);
          more_saved = e ∷ [];
          file_grows = refl;
          commit_up = omega arith;
        }

  update_commit-Appends : (n : Node) → IfReturns (λ r. Appends n r.1) (update_commit_index g n)
  unfolding update_commit_index
  update_commit-Appends n =
      IfReturns-require _ (ltb_ℤ n.commit_index (pos (length n.logs))) (assertion commit_beyond_log)
        _
        λ _.
          IfReturns-bind _ (count_holders g (node_ranks g) (n.commit_index +ℤ pos 1) n) _
            λ k _. chosen (ltb (nb_node g / 2) k)
    where
      chosen :
          (b : Bool)
          → IfReturns
              (λ (r : Bool × Node). Appends n r.1)
              (ok (
                if b
                then (true, record n { commit_index = n.commit_index +ℤ pos 1 })
                else (false, n)))
      chosen false = Appends-refl n n refl refl refl
      chosen true = record {
        more = [];
        log_grows = sym (append-nil n.logs);
        more_saved = [];
        file_grows = sym (append-nil n.saved);
        commit_up = omega int_laws;
      }

  pub commit_loop-Appends : (fuel : ℕ) (n : Node) → IfReturns (Appends n) (commit_loop g fuel n)
  unfolding commit_loop
  commit_loop-Appends zero n = tt
  commit_loop-Appends (suc fuel) n =
      IfReturns-bind (Appends n) (update_commit_index g n) _
        λ r e. round r (Ends-ok _ _ _ (update_commit-Appends n) e) (commit_loop-Appends fuel)
    where
      round :
          (r : Bool × Node)
          → Appends n r.1
          → ((n' : Node) → IfReturns (Appends n') (commit_loop g fuel n'))
          → IfReturns
              (Appends n)
              (elim r.0 [ false ↦ ok r.1 | true ↦ (commit_entry g r.1 >>= commit_loop g fuel) ])
      round (false, n') q ih = q
      round (true, n') q ih =
          IfReturns-bind (Appends n) (commit_entry g n') (commit_loop g fuel) λ n'' e.
            IfReturns-mono (Appends n'') (Appends n) (commit_loop g fuel n'') (ih n'') (λ k s.
              Appends-trans (Appends-trans q (Ends-ok _ (Appends n') _ (commit_entry-Appends n') e))
                s)

  pub update_followers-Appends :
      (ranks : List ℕ) (n : Node) → IfReturns (Appends n) (update_followers g ranks n)
  update_followers-Appends ranks n =
      IfReturns-mono (OnlySends n) (Appends n) (update_followers g ranks n)
        (update_followers-OnlySends g ranks n) (λ n' q. OnlySends-Appends n n' q)

  -- A client's request adds its entry.
  pub request-Appends :
      (message : Text) (client : ℕ) (n : Node)
      → Appends n (record n { logs = n.logs ++ new_entry g message client n ∷ [] })
  request-Appends message client n = record {
    more = new_entry g message client n ∷ [];
    log_grows = refl;
    more_saved = [];
    file_grows = sym (append-nil n.saved);
    commit_up = omega arith;
  }
