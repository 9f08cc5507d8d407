-- ===== src/Candidate.antt =====
-- src/runners/node/cycle/candidateCycle.hh and candidateCycle.cc: an election.
pub mod Campaign
pub mod Frame
pub mod Tally
use raft_algorep.Base.{
  ℕ, ◌-◌, ◌/◌, ℤ, pos, minus_one, ◌+ℤ◌, ◌-ℤ◌, Bool, true, false, List, [], ◌∷◌, Option, none, some,
  Outcome, ok, undefined, ◌>>=◌, require, or_fault, ltb_ℤ, leb_ℤ, ◌==◌, if◌then◌else◌, int_max,
  length, get_elem?, get_last?, set,
}
use raft_algorep.Config.{GlobalConfig, node_ranks, nb_node}
use raft_algorep.Rpc.{
  Entry, Rpc, request_vote, request_vote_response, append_entries, RpcResponse, RequestVoteResponse,
  AppendEntries,
}
use raft_algorep.Reciever.{reinject_rpc}
use raft_algorep.Node.{Node, State, leader, follower, candidate, send_rpc, init_leader}
use raft_algorep.Cycle.{Cycle, CycleClass, change_next_state, check_always_should_stop, value_or}

-- `x += 1` on an int.
unfoldable pub increment : ℤ → Outcome ℤ
unfolding ◌+ℤ◌
increment x = require (ltb_ℤ x int_max) undefined (ok (x +ℤ pos 1))

-- Send `rpc` to each of the ranks but `own`.
unfoldable pub broadcast : Rpc → ℕ → List ℕ → Node → Node
unfolding send_rpc
broadcast rpc own [] n = n
broadcast rpc own (dst ∷ ranks) n =
    broadcast rpc own ranks (if dst == own then n else send_rpc rpc dst n)

-- `logs.empty() ? -1 : logs.back().term`
abbrev pub last_term : Option Entry → ℤ
last_term none = minus_one
last_term (some e) = e.term

abbrev pub is_leader : State → Bool
is_leader leader = true
is_leader follower = false
is_leader candidate = false

module _ (g : GlobalConfig) where
  -- The request that a candidate sends.
  unfoldable pub vote_request : Node → Rpc
  unfolding ◌-ℤ◌
  vote_request n = request_vote (record {
    term = n.term;
    candidate_id = g.rank;
    last_log_index = pos (length n.logs) -ℤ pos 1;
    last_log_term = last_term (get_last? n.logs);
  })

  unfoldable pub pre_cycle : Cycle → Outcome Cycle
  unfolding increment vote_request broadcast
  pre_cycle c = do
    t ← increment c.node.term
    v ← increment c.vote_count
    let n = record c.node { term = t; voted_for = some g.rank }
    ok (record c { node = broadcast (vote_request n) g.rank (node_ranks g) n; vote_count = v })

  -- A vote from the node at `slot` of `hasVotedForMe`.
  unfoldable pub count_vote : ℕ → Cycle → Outcome (Bool × Cycle)
  unfolding increment change_next_state nb_node
  count_vote slot c = do
    v ← increment c.vote_count
    let d = record c { has_voted_for_me = set c.has_voted_for_me slot true; vote_count = v }
    if ltb_ℤ (pos (nb_node g / 2)) v
        then (do e ← change_next_state leader d; ok (true, e))
        else ok (false, d)

  -- A granted vote is looked up in `hasVotedForMe`, and counted once.
  unfoldable pub handle_vote : ℕ → RequestVoteResponse → Cycle → Outcome (Bool × Cycle)
  unfolding count_vote
  handle_vote sender m c =
      let slot = sender - g.nb_node_min in
      if m.vote_granted
      then (do
        voted ← or_fault (get_elem? c.has_voted_for_me slot) undefined
        if voted then ok (false, c) else count_vote slot c)
      else ok (false, c)

  -- An AppendEntries of this term or a later one: follow its sender, and read it again.
  unfoldable pub yield_to : RpcResponse → AppendEntries → Cycle → Outcome (Bool × Cycle)
  unfolding change_next_state reinject_rpc
  yield_to m a c =
      if leb_ℤ c.node.term a.term
      then (do
        d ← change_next_state follower c
        ok (
          true,
          record d { node = record d.node { rpc_reciever = reinject_rpc m d.node.rpc_reciever } },
        ))
      else ok (false, c)

  unfoldable pub dispatch : Rpc → RpcResponse → Cycle → Outcome (Bool × Cycle)
  unfolding handle_vote yield_to
  dispatch (request_vote_response v) m c = handle_vote m.sender_id v c
  dispatch (append_entries a) m c = yield_to m a c
  dispatch _ m c = ok (false, c)

  unfoldable pub handle_node_request : RpcResponse → Cycle → Outcome (Bool × Cycle)
  unfolding dispatch check_always_should_stop
  handle_node_request m c = do
    (stop, d) ← check_always_should_stop m c
    if stop then ok (true, d) else dispatch m.rpc m d

  -- `*nextState` is read whether or not it holds a value.
  unfoldable pub post_cycle : Bool → Cycle → Outcome Cycle
  unfolding init_leader
  post_cycle has_timed_out c = ok (
      if is_leader (value_or c.next_state c.stale)
      then record c { node = init_leader c.node }
      else c)

  unfoldable pub candidate_cycle : CycleClass
  unfolding pre_cycle handle_node_request post_cycle
  candidate_cycle = record {
    pre_cycle = pre_cycle;
    handle_node_request = handle_node_request;
    handle_client_request = λ m c. ok c;
    post_cycle = post_cycle;
  }
