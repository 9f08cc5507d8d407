-- ===== src/Candidate/Frame.antt =====
-- What the handlers of a candidate leave alone.
use raft_algorep.Base.{
  ℕ, ℤ, ◌-◌, ◌<ℤ◌, Bool, false, Bool-cases, List, [], ◌∷◌, none, some, ok, IfReturns,
  IfReturns-bind, IfReturns-if, IfReturns-mono, undefined, or_fault, get_elem?, ◌==◌, ◌≡◌, refl,
  inl, inr, arith,
}
use raft_algorep.Config.{GlobalConfig, node_ranks, nb_node}
use raft_algorep.Rpc.{
  Rpc, request_vote_response, append_entries, RpcResponse, RequestVoteResponse, AppendEntries,
}
use raft_algorep.Node.{Node, send_rpc}
use raft_algorep.Node.Quiet.{grant_term, Quiet, Quiet-refl, Quiet-trans, send_rpc-Quiet}
use raft_algorep.Node.Voter.{Steps, rests, then_steps, runs, voter, Steps-trans, Quiet-Steps}
use raft_algorep.Cycle.{Cycle, change_next_state}
use raft_algorep.Candidate.{
  increment, broadcast, vote_request, pre_cycle, count_vote, handle_vote, yield_to, dispatch,
}

pub broadcast-Quiet :
    (rpc : Rpc) (own : ℕ) (ranks : List ℕ) (n : Node)
    → grant_term rpc ≡ none
    → Quiet n (broadcast rpc own ranks n)
unfolding broadcast
broadcast-Quiet rpc own [] n h = Quiet-refl n n refl refl refl refl
broadcast-Quiet rpc own (dst ∷ ranks) n h = elim (Bool-cases (dst == own)) [
  | inl self ↦ rw self (broadcast-Quiet rpc own ranks n h)
  | inr other ↦ rw other (
      Quiet-trans (send_rpc-Quiet rpc dst n h)
        (broadcast-Quiet rpc own ranks (send_rpc rpc dst n) h))
]

pub increment-lt : (x y : ℤ) → increment x ≡ ok y → x <ℤ y
unfolding increment
increment-lt x y e = ground arith

abbrev pub KeepsNode : Cycle → Bool × Cycle → Type 0
KeepsNode c r = r.1.node ≡ c.node

-- The node of the cycle stays, but for the queue.
abbrev pub SameNode : Cycle → Bool × Cycle → Type 0
SameNode c r = r.1.node ≡ record c.node { rpc_reciever = r.1.node.rpc_reciever }

module _ (g : GlobalConfig) where
  -- As a voter, the node runs for a later term.
  pub pre_cycle-Steps :
      (c : Cycle) → IfReturns (λ d. Steps g.rank (voter c.node) (voter d.node)) (pre_cycle g c)
  unfolding pre_cycle
  pre_cycle-Steps c = IfReturns-bind _ (increment c.node.term) _ λ t e.
      IfReturns-bind _ (increment c.vote_count) _ λ k _.
        Steps-trans g.rank (then_steps rests (runs t (increment-lt c.node.term t e))) (
          Quiet-Steps g.rank
            (broadcast-Quiet _ g.rank (node_ranks g) (candidacy t) (unfold vote_request in refl)))
    where
      candidacy : ℤ → Node
      candidacy t = record c.node { term = t; voted_for = some g.rank }

  count_vote-KeepsNode : (slot : ℕ) (c : Cycle) → IfReturns (KeepsNode c) (count_vote g slot c)
  unfolding count_vote increment change_next_state nb_node
  count_vote-KeepsNode slot c = ground arith

  pub handle_vote-KeepsNode :
      (sender : ℕ) (m : RequestVoteResponse) (c : Cycle)
      → IfReturns (KeepsNode c) (handle_vote g sender m c)
  unfolding handle_vote
  handle_vote-KeepsNode sender m c =
      IfReturns-if (KeepsNode c) m.vote_granted _ _
        (λ _.
          IfReturns-bind (KeepsNode c)
            (or_fault (get_elem? c.has_voted_for_me (sender - g.nb_node_min)) undefined) _
            λ b _.
              IfReturns-if (KeepsNode c) b (ok (false, c)) _ (λ _. refl)
                (λ _. count_vote-KeepsNode (sender - g.nb_node_min) c))
        (λ _. refl)

  yield_to-SameNode :
      (m : RpcResponse) (a : AppendEntries) (c : Cycle) → IfReturns (SameNode c) (yield_to g m a c)
  unfolding yield_to change_next_state
  yield_to-SameNode m a c = ground arith

  pub dispatch-SameNode :
      (rpc : Rpc) (m : RpcResponse) (c : Cycle) → IfReturns (SameNode c) (dispatch g rpc m c)
  unfolding dispatch
  dispatch-SameNode (request_vote_response v) m c =
      IfReturns-mono (KeepsNode c) (SameNode c) _ (handle_vote-KeepsNode m.sender_id v c)
        (λ r same. rw same refl)
  dispatch-SameNode (append_entries a) m c = yield_to-SameNode m a c
  dispatch-SameNode _ m c = refl
