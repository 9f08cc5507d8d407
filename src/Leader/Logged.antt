-- ===== src/Leader/Logged.antt =====
-- A leader's log keeps its shape, whatever its followers answer.
use raft_algorep.Base.{
  ℕ, zero, suc, ◌-◌, ℤ, pos, negsuc, ◌+ℤ◌, ◌-ℤ◌, ◌<ℤ◌, int_laws, Bool, true, false, List, [], ◌∷◌,
  ◌++◌, Option, none, some, ok, ◌>>=◌, or_fault, undefined, IfReturns, IfReturns-bind, IfReturns-if,
  IfReturns-require, IfReturns-mono, Ends-ok, if◌then◌else◌, length, set, get_at?, get_elem?,
  lt-get_elem?, length-set, length-append, ltb, ◌==◌, ◌≡◌, refl, sym, Text, ap, ◌∙◌, arith,
}
use raft_algorep.Config.{GlobalConfig}
use raft_algorep.Rpc.{
  Entry, Rpc, append_entries_response, request_client_response, AppendEntriesResponse,
}
use raft_algorep.Node.{Node, save_commit, send_rpc}
use raft_algorep.Node.Logged.{WellLogged, IsIndexed-append}
use raft_algorep.Leader.{
  write, update_message, send_update_to_follower, update_followers, update_commit_index,
  commit_entry, commit_loop, handle_append_response, response, new_entry,
}

-- Packets are sent, and nothing else changes.
abbrev pub OnlySends : Node → Node → Type 0
OnlySends n n' = n' ≡ record n { sent = n'.sent }

pub OnlySends-WellLogged :
    (g : GlobalConfig) (n n' : Node) → OnlySends n n' → WellLogged g n → WellLogged g n'
OnlySends-WellLogged g n n' q w = rw q w

write-length {ℓ} :
    {A : Type ℓ} (xs : List A) (i : ℕ) (x : A)
    → IfReturns (λ ys. length ys ≡ length xs) (write xs i x)
unfolding write
write-length xs i x =
    IfReturns-require (λ ys. length ys ≡ length xs) (ltb i (length xs)) undefined (ok (set xs i x))
      (λ _. length-set xs i x)

module _ (g : GlobalConfig) where
  pub send_update-OnlySends :
      (dst : ℕ) (n : Node) → IfReturns (OnlySends n) (send_update_to_follower g dst n)
  unfolding send_update_to_follower send_rpc
  send_update-OnlySends dst n =
      IfReturns-bind (OnlySends n) (update_message g dst n) _ (λ m _. refl)

  pub update_followers-OnlySends :
      (ranks : List ℕ) (n : Node) → IfReturns (OnlySends n) (update_followers g ranks n)
  unfolding update_followers
  update_followers-OnlySends [] n = refl
  update_followers-OnlySends (dst ∷ ranks) n =
      IfReturns-bind (OnlySends n) (if dst == g.rank then ok n else send_update_to_follower g dst n)
        _
        λ n' e.
          IfReturns-mono (OnlySends n') (OnlySends n) (update_followers g ranks n')
            (update_followers-OnlySends ranks n') (λ n'' q. let p = sent n' e in ground arith)
    where
      sent :
          (n' : Node)
          → (if dst == g.rank then ok n else send_update_to_follower g dst n) ≡ ok n'
          → OnlySends n n'
      sent n' e =
          Ends-ok _ (OnlySends n) _
            (IfReturns-if (OnlySends n) (dst == g.rank) (ok n) (send_update_to_follower g dst n)
              (λ _. refl) (λ _. send_update-OnlySends dst n))
            e

  handle_append_response-Logged :
      (sender : ℕ) (m : AppendEntriesResponse) (n : Node)
      → WellLogged g n
      → IfReturns (WellLogged g) (handle_append_response g sender m n)
  unfolding handle_append_response
  handle_append_response-Logged sender m n w =
      IfReturns-if (WellLogged g) m.success _ _
        (λ _.
          IfReturns-bind (WellLogged g) (write n.next_index (sender - g.nb_node_min) m.new_index) _
            λ next e.
              IfReturns-bind (WellLogged g)
                (write n.match_index (sender - g.nb_node_min) (m.new_index -ℤ pos 1)) _
                λ matched e'. record {
                  indexed = w.indexed;
                  in_log = w.in_log;
                  match_slots = Ends-ok _ _ _ (write-length n.match_index _ _) e' ∙ w.match_slots;
                  next_slots = Ends-ok _ _ _ (write-length n.next_index _ _) e ∙ w.next_slots;
                })
        (λ _.
          IfReturns-bind (WellLogged g)
            (or_fault (get_elem? n.next_index (sender - g.nb_node_min)) undefined) _
            λ old _.
              IfReturns-bind (WellLogged g)
                (write n.next_index (sender - g.nb_node_min) (old -ℤ pos 1)) _
                λ next e.
                  IfReturns-mono (OnlySends (record n { next_index = next })) (WellLogged g)
                    (send_update_to_follower g sender (record n { next_index = next }))
                    (send_update-OnlySends sender (record n { next_index = next }))
                    (λ n' q.
                      OnlySends-WellLogged g (record n { next_index = next }) n' q
                        (record {
                          indexed = w.indexed;
                          in_log = w.in_log;
                          match_slots = w.match_slots;
                          next_slots =
                              Ends-ok _ _ _ (write-length n.next_index _ _) e ∙ w.next_slots;
                        })))

  pub response-Logged :
      (rpc : Rpc) (sender : ℕ) (n : Node)
      → WellLogged g n
      → IfReturns (WellLogged g) (response g rpc sender n)
  response-Logged (append_entries_response m) sender n w =
      handle_append_response-Logged sender m n w
  response-Logged _ sender n w = w

  in_log_at :
      (logs : List Entry) (i : ℤ) (e : Entry) → get_at? logs i ≡ some e → i <ℤ pos (length logs)
  in_log_at logs (pos j) e at = omega (int_laws, lt-get_elem? logs j e at)
  in_log_at logs (negsuc j) e at = omega int_laws

  saved-Logged :
      (o : Option Entry) (n : Node)
      → ((e : Entry) → o ≡ some e → WellLogged g n)
      → IfReturns (WellLogged g) (
          or_fault o undefined >>= λ e.
          ok (save_commit e (send_rpc (request_client_response true) e.client_id n)))
  unfolding send_rpc save_commit
  saved-Logged none n w = tt
  saved-Logged (some e) n w = w e refl

  -- An entry that is committed is in the log.
  commit_entry-Logged :
      (n : Node) (i : ℤ)
      → WellLogged g n
      → IfReturns (WellLogged g) (commit_entry g (record n { commit_index = i }))
  unfolding commit_entry
  commit_entry-Logged n i w =
      saved-Logged (get_at? n.logs i) (record n { commit_index = i })
        λ e at. record {
          indexed = w.indexed;
          in_log = in_log_at n.logs i e at;
          match_slots = w.match_slots;
          next_slots = w.next_slots;
        }

  update_commit-true :
      (n n' : Node)
      → update_commit_index g n ≡ ok (true, n')
      → n' ≡ record n { commit_index = n.commit_index +ℤ pos 1 }
  unfolding update_commit_index
  update_commit-true n n' e = ground arith

  update_commit-false : (n n' : Node) → update_commit_index g n ≡ ok (false, n') → n' ≡ n
  unfolding update_commit_index
  update_commit-false n n' e = ground arith

  pub commit_loop-Logged :
      (fuel : ℕ) (n : Node) → WellLogged g n → IfReturns (WellLogged g) (commit_loop g fuel n)
  unfolding commit_loop
  commit_loop-Logged zero n w = tt
  commit_loop-Logged (suc fuel) n w =
      IfReturns-bind (WellLogged g) (update_commit_index g n) _ (round (commit_loop-Logged fuel))
    where
      round :
          ((n'' : Node) → WellLogged g n'' → IfReturns (WellLogged g) (commit_loop g fuel n''))
          → (r : Bool × Node) → update_commit_index g n ≡ ok r
          → IfReturns
              (WellLogged g)
              (elim r.0 [ false ↦ ok r.1 | true ↦ (commit_entry g r.1 >>= commit_loop g fuel) ])
      round ih (false, n') e = rw (update_commit-false n n' e) w
      round ih (true, n') e =
          IfReturns-bind (WellLogged g) (commit_entry g n') (commit_loop g fuel) λ n'' e'. ih n'' (
            Ends-ok _ (WellLogged g) _ (commit_entry-Logged n (n.commit_index +ℤ pos 1) w)
              (ap (commit_entry g) (sym (update_commit-true n n' e)) ∙ e'))

  -- A client's entry is appended at its index.
  pub request-Logged :
      (message : Text) (client : ℕ) (n : Node)
      → WellLogged g n
      → WellLogged g (record n { logs = n.logs ++ new_entry g message client n ∷ [] })
  unfolding new_entry
  request-Logged message client n w = record {
    indexed =
        IsIndexed-append 0 n.logs (new_entry g message client n ∷ []) w.indexed
          (ap pos (omega arith), tt);
    in_log =
        omega (int_laws, w.in_log, length-append {0} n.logs (new_entry g message client n ∷ []));
    match_slots = w.match_slots;
    next_slots = w.next_slots;
  }
