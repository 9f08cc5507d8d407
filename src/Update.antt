-- ===== src/Update.antt =====
-- src/runners/node.cc: Node::update, one cycle of a server, and Node::start, which runs them.
pub mod Appends
pub mod Clean
pub mod Ending
pub mod Faults
pub mod Keeps
pub mod Logged
pub mod Rule
pub mod Sourced
pub mod Termination
pub mod Votes
use raft_algorep.Base.{
  Option, ℕ, zero, suc, ◌+◌, pos, Bool, true, false, List, [], ◌∷◌, none, some, Outcome, ok, fault,
  out_of_fuel, ◌>>=◌, if◌then◌else◌, replicate,
}
use raft_algorep.Config.{GlobalConfig, is_node, is_client, nb_node}
use raft_algorep.Rpc.{Rpc, controller_request, RpcResponse}
use raft_algorep.Reciever.{get_rpc_timeout, reinject_rpc, pending}
use raft_algorep.Node.{Node, State, follower, leader, candidate}
use raft_algorep.Cycle.{Cycle, CycleClass, handle_controller_request, value_or}
use raft_algorep.Follower.{follower_cycle}
use raft_algorep.Candidate.{candidate_cycle}
use raft_algorep.Leader.{leader_cycle}

module _ (g : GlobalConfig) where
  unfoldable pub by_sender : CycleClass → RpcResponse → Cycle → Outcome (Bool × Cycle)
  by_sender cls m c =
      if is_node g m.sender_id
      then cls.handle_node_request m c
      else if is_client g m.sender_id
      then (do d ← cls.handle_client_request m c; ok (false, d))
      else ok (false, c)

  -- The body of the receive loop for a message that has arrived: whether to leave the cycle.
  unfoldable pub handle_message : CycleClass → Rpc → RpcResponse → Cycle → Outcome (Bool × Cycle)
  unfolding by_sender
  handle_message cls (controller_request r) m c = handle_controller_request r c
  handle_message cls _ m c = by_sender cls m c

  -- `while (!hasTimedOut && !leaveCycle)`: whether to go round again.
  unfoldable pub proceed : (Cycle → Outcome (Bool × Cycle)) → Bool × Cycle → Outcome (Bool × Cycle)
  proceed loop (true, c) = ok (false, c)
  proceed loop (false, c) = loop c

  -- The loop body after its receive; `loop` is the rest of the loop.
  unfoldable pub on_arrival :
      CycleClass
      → (Cycle → Outcome (Bool × Cycle))
      → Option RpcResponse
      → Cycle
      → Outcome (Bool × Cycle)
  unfolding proceed handle_message
  on_arrival cls loop none c = ok (true, c)
  on_arrival cls loop (some m) c = do r ← handle_message cls m.rpc m c; proceed loop r

  -- The loop ends with `true` when a receive times out. Each round takes a message off.
  unfoldable pub update_loop : CycleClass → ℕ → Cycle → Outcome (Bool × Cycle)
  unfolding on_arrival get_rpc_timeout
  update_loop cls zero c = fault out_of_fuel
  update_loop cls (suc fuel) c =
      let (arrived, r) = get_rpc_timeout c.node.rpc_reciever in
      on_arrival cls (update_loop cls fuel) arrived
        (record c { node = record c.node { rpc_reciever = r } })

  unfoldable pub update : CycleClass → Cycle → Outcome Node
  unfolding update_loop
  update cls c = do
    c₁ ← cls.pre_cycle c
    (has_timed_out, c₂) ← update_loop cls (pending c₁.node.rpc_reciever + 1) c₁
    c₃ ← cls.post_cycle has_timed_out c₂
    ok (record c₃.node { state = value_or c₃.next_state c₃.node.state })

  -- The constructors of the cycles.
  unfoldable pub new_cycle : State → Node → Cycle
  unfolding nb_node
  new_cycle stale n = record {
    next_state = none;
    stale = stale;
    node = n;
    vote_count = pos 0;
    has_voted_for_me = replicate (nb_node g) false;
  }

  unfoldable pub class_of : State → CycleClass
  unfolding follower_cycle candidate_cycle leader_cycle
  class_of follower = follower_cycle
  class_of leader = leader_cycle g
  class_of candidate = candidate_cycle g

  -- The receive at the head of the loop of `start`: what arrives is put back.
  unfoldable pub peek : Node → Node
  unfolding get_rpc_timeout reinject_rpc
  peek n =
      let (arrived, r) = get_rpc_timeout n.rpc_reciever in
      elim arrived [
        | none ↦ record n { rpc_reciever = r }
        | some m ↦ record n { rpc_reciever = reinject_rpc m r }
      ]

  -- One turn of the loop of `start`.
  unfoldable pub turn : State → Node → Outcome Node
  unfolding peek update new_cycle class_of
  turn stale n = let n' = peek n in update (class_of n'.state) (new_cycle stale n')

  -- The first turns of `start`, one for each value that the empty optional's storage may hold.
  unfoldable pub start : List State → Node → Outcome Node
  unfolding turn
  start [] n = ok n
  start (stale ∷ stales) n = do n' ← turn stale n; start stales n'
