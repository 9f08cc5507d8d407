-- ===== src/Candidate/Tally.antt =====
-- The count of votes of a candidate.
use raft_algorep.Base.{
  ℕ, zero, suc, ◌-◌, ◌/◌, ◌<◌, pos, ◌+ℤ◌, ◌≤ℤ◌, Bool, true, false, List, [], ◌∷◌, some, Outcome, ok,
  ◌>>=◌, IfReturns, IfReturns-bind, IfReturns-if, Ends-ok, or_fault, undefined, if◌then◌else◌,
  get_elem?, set, replicate, ◌≡◌, refl, ap, arith,
}
use raft_algorep.Config.{GlobalConfig, nb_node}
use raft_algorep.Rpc.{
  Rpc, request_vote_response, append_entries, RpcResponse, RequestVoteResponse, AppendEntries,
}
use raft_algorep.Node.{leader}
use raft_algorep.Cycle.{Cycle, change_next_state, check_always_should_stop}
use raft_algorep.Cycle.Checks.{check_cases, check-same}
use raft_algorep.Candidate.{
  increment, count_vote, handle_vote, yield_to, dispatch, handle_node_request,
}

-- The number of nodes that have voted for the candidate, itself not counted.
abbrev pub count_true : List Bool → ℕ
count_true [] = 0
count_true (true ∷ xs) = suc (count_true xs)
count_true (false ∷ xs) = count_true xs

pub count_true-set :
    (xs : List Bool) (i : ℕ)
    → get_elem? xs i ≡ some false
    → count_true (set xs i true) ≡ suc (count_true xs)
count_true-set [] i e = cc
count_true-set (true ∷ xs) zero e = cc
count_true-set (false ∷ xs) zero e = refl
count_true-set (true ∷ xs) (suc i) e = ap suc (count_true-set xs i e)
count_true-set (false ∷ xs) (suc i) e = count_true-set xs i e

pub count_true-replicate : (k : ℕ) → count_true (replicate k false) ≡ 0
count_true-replicate zero = refl
count_true-replicate (suc k) = count_true-replicate k

module _ (g : GlobalConfig) where
  -- The counter is the number of different voters, the candidate included; and the next state is
  -- leader only if these are more than half of the nodes.
  pub record Tally (c : Cycle) : Type 0 where
    pub counted : c.vote_count ≡ pos (suc (count_true c.has_voted_for_me))
    pub elected : c.next_state ≡ some leader → nb_node g / 2 < suc (count_true c.has_voted_for_me)

  abbrev Tallied : Bool × Cycle → Type 0
  Tallied r = Tally r.1

  count_vote-Tally :
      (slot : ℕ) (c : Cycle)
      → get_elem? c.has_voted_for_me slot ≡ some false
      → Tally c
      → IfReturns Tallied (count_vote g slot c)
  unfolding count_vote increment change_next_state ◌+ℤ◌
  count_vote-Tally slot c e t = ground (arith, count_true-set c.has_voted_for_me slot, t.counted)

  handle_vote-Tally :
      (sender : ℕ) (m : RequestVoteResponse) (c : Cycle)
      → Tally c
      → IfReturns Tallied (handle_vote g sender m c)
  unfolding handle_vote
  handle_vote-Tally sender m c t =
      IfReturns-if Tallied m.vote_granted _ _
        (λ _.
          IfReturns-bind Tallied
            (or_fault (get_elem? c.has_voted_for_me (sender - g.nb_node_min)) undefined) _
            λ b e.
              IfReturns-if Tallied b (ok (false, c)) (count_vote g (sender - g.nb_node_min) c)
                (λ _. t) (λ f. count_vote-Tally (sender - g.nb_node_min) c (ground arith) t))
        (λ _. t)

  yield_to-Tally :
      (m : RpcResponse) (a : AppendEntries) (c : Cycle)
      → Tally c
      → IfReturns Tallied (yield_to g m a c)
  unfolding yield_to change_next_state
  yield_to-Tally m a c t = ground arith

  dispatch-Tally :
      (rpc : Rpc) (m : RpcResponse) (c : Cycle) → Tally c → IfReturns Tallied (dispatch g rpc m c)
  unfolding dispatch
  dispatch-Tally (request_vote_response v) m c t = handle_vote-Tally m.sender_id v c t
  dispatch-Tally (append_entries a) m c t = yield_to-Tally m a c t
  dispatch-Tally _ m c t = t

  check-Tally :
      (m : RpcResponse) (c : Cycle) → Tally c → IfReturns Tallied (check_always_should_stop m c)
  check-Tally m c t =
      check_cases _ Tallied m c t (λ l. record { counted = t.counted; elected = t.elected })
        (λ l n. record { counted = t.counted; elected = λ e. cc }) (λ _. tt)

  -- No message from a node makes the candidate count a voter twice, or become leader with at most
  -- half of the nodes: if the counter is the number of voters, and a next state of leader comes
  -- with a majority, then this is so after the message is handled.
  pub handle_node_request-Tally :
      (m : RpcResponse) (c : Cycle)
      → Tally c
      → IfReturns (λ r. Tally r.1) (handle_node_request g m c)
  unfolding handle_node_request
  handle_node_request-Tally m c t = IfReturns-bind Tallied (check_always_should_stop m c) _ λ r e.
      IfReturns-if Tallied r.0 (ok (true, r.1)) (dispatch g m.rpc m r.1)
        (λ _. Ends-ok _ Tallied _ (check-Tally m c t) e)
        (λ _. dispatch-Tally m.rpc m r.1 (Ends-ok _ Tallied _ (check-Tally m c t) e))

  -- The vote of an earlier term, sent to an election that has ended, is counted like one of the
  -- current term: the handler's result does not depend on the term of a response, as long as that
  -- is not later than the candidate's.
  pub handle_node_request-stale_vote :
      (c : Cycle) (sender : ℕ) (m : RequestVoteResponse)
      → m.term ≤ℤ c.node.term
      → handle_node_request g (record { rpc = request_vote_response m; sender_id = sender }) c
        ≡ handle_vote g sender (record m { term = c.node.term }) c
  unfolding handle_node_request
  handle_node_request-stale_vote c sender m h =
      ap
        (λ (x : Outcome (Bool × Cycle)).
          (x >>= λ r. if r.0 then ok (true, r.1) else dispatch g vote.rpc vote r.1))
        (check-same vote c h)
    where
      vote : RpcResponse
      vote = record { rpc = request_vote_response m; sender_id = sender }
