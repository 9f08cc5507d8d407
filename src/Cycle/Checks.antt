-- ===== src/Cycle/Checks.antt =====
-- Cycle::check_always_should_stop: a message of a later term.
use raft_algorep.Base.{
  ℕ, pos, minus_one, ◌<ℤ◌, ◌≤ℤ◌, eq_ℤ, ltb_ℤ, not, ◌&&◌, Bool, true, false, [], ◌∷◌, ◌++◌, Option,
  none, some, Fault, assertion, state_changed_twice, ok, Ends, Ends-if, require, ◌>>=◌, IfReturns,
  Returns, ◌≡◌, ◌≢◌, ◌⊎◌, ◌↔◌, refl, arith,
}
use raft_algorep.Rpc.{RpcResponse}
use raft_algorep.Reciever.{reinject_rpc}
use raft_algorep.Node.{State, follower}
use raft_algorep.Node.Voter.{Steps, rests, then_steps, learns, voter}
use raft_algorep.Cycle.{
  Cycle, is_follower, is_none, sent_term, change_next_state, check_always_should_stop,
}

-- The message is of a later term than the node's.
abbrev pub Later : RpcResponse → Cycle → Type 0
Later m c = c.node.term <ℤ sent_term m.rpc

-- What the check does to a cycle.
pub record Checked (m : RpcResponse) (c : Cycle) (r : Bool × Cycle) : Type 0 where
  pub term_up : c.node.term ≤ℤ r.1.node.term
  pub term_seen : sent_term m.rpc ≤ℤ r.1.node.term
  pub term_from : c.node.term <ℤ r.1.node.term → r.1.node.term ≡ sent_term m.rpc
  pub vote_cleared : Later m c → r.1.node.voted_for ≡ none
  pub vote_kept : sent_term m.rpc ≤ℤ c.node.term → r.1.node.voted_for ≡ c.node.voted_for
  pub stops : (r.0 ≡ true) ↔ (Later m c × (c.node.state ≢ follower))
  pub steps_down : r.0 ≡ true → r.1.next_state ≡ some follower
  pub read_again :
      r.0 ≡ true
      → r.1.node.rpc_reciever.reinjected_messages
        ≡ c.node.rpc_reciever.reinjected_messages ++ m ∷ []
  pub goes_on :
      r.0 ≡ false → (r.1.next_state ≡ c.next_state) × (r.1.node.rpc_reciever ≡ c.node.rpc_reciever)
  pub same_log : (r.1.node.logs ≡ c.node.logs) × (r.1.node.commit_index ≡ c.node.commit_index)

-- For a node whose term is not negative, in a cycle whose next state is not chosen yet, the check
-- always returns. The term becomes the larger of the node's and the message's; a later term clears
-- the vote, and otherwise the vote stays. The cycle stops exactly if the term is later and the node
-- is no follower: then the next state is follower, and the message is last in the queue to be
-- read again. Otherwise the next state and the queue are unchanged. The log never changes.
pub check-Checked :
    (m : RpcResponse) (c : Cycle)
    → pos 0 ≤ℤ c.node.term
    → c.next_state ≡ none
    → Returns (Checked m c) (check_always_should_stop m c)
unfolding check_always_should_stop
check-Checked m c h e = ground arith

abbrev pub raised : RpcResponse → Cycle → Cycle
raised m c = record c { node = record c.node { term = sent_term m.rpc; voted_for = none } }

abbrev pub stepped_down : RpcResponse → Cycle → Cycle
stepped_down m c = record c {
  next_state = some follower;
  node = record (raised m c).node { rpc_reciever = reinject_rpc m c.node.rpc_reciever };
}

-- The ways in which the check ends.
pub check_cases :
    (F : Fault → Type 0) (P : Bool × Cycle → Type 0) (m : RpcResponse) (c : Cycle)
    → P (false, c)
    → (Later m c → P (false, raised m c))
    → (Later m c → c.next_state ≡ none → P (true, stepped_down m c))
    → (c.next_state ≢ none → F (assertion state_changed_twice))
    → Ends F P (check_always_should_stop m c)
unfolding check_always_should_stop
check_cases F P m c same up down twice =
    Ends-if F P (not (eq_ℤ (sent_term m.rpc) minus_one) && ltb_ℤ c.node.term (sent_term m.rpc)) _ _
      (λ e.
        Ends-if F P (is_follower c.node.state) _ _ (λ f. up (ground arith))
          (λ f. stop (ground arith) c.next_state refl))
      (λ e. same)
  where
    stop :
        Later m c
        → (o : Option State) → c.next_state ≡ o
        → Ends F P (
            require
              (is_none o)
              (assertion state_changed_twice)
              (ok (record (raised m c) { next_state = some follower }))
            >>= λ d. ok (
              true,
              record d {
                node = record d.node { rpc_reciever = reinject_rpc m d.node.rpc_reciever };
              },
            ))
    stop l none e = down l e
    stop l (some s) e = twice (λ n. cc)

-- As a voter, the node learns of a later term at most.
pub check-Steps :
    (own : ℕ) (m : RpcResponse) (c : Cycle)
    → IfReturns (λ r. Steps own (voter c.node) (voter r.1.node)) (check_always_should_stop m c)
check-Steps own m c =
    check_cases _ (λ r. Steps own (voter c.node) (voter r.1.node)) m c rests
      (λ l. then_steps rests (learns (sent_term m.rpc) l))
      (λ l _. then_steps rests (learns (sent_term m.rpc) l)) (λ _. tt)

-- A message of no later term, or of none, passes.
pub check-same :
    (m : RpcResponse) (c : Cycle)
    → sent_term m.rpc ≤ℤ c.node.term
    → check_always_should_stop m c ≡ ok (false, c)
unfolding check_always_should_stop
check-same m c h = ground arith

-- A candidate or a leader passes unchanged, or is stopped and becomes a follower.
pub check-stops :
    (m : RpcResponse) (c : Cycle)
    → c.node.state ≢ follower
    → IfReturns
        (λ r. ((r.0 ≡ true) × (r.1.next_state ≡ some follower)) ⊎ (r ≡ (false, c)))
        (check_always_should_stop m c)
unfolding check_always_should_stop change_next_state
check-stops m c active = ground arith
