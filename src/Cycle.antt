-- ===== src/Cycle.antt =====
-- src/runners/node/cycle/cycle.hh and cycle.cc: what the three cycles of a server share.
-- Console output and the spdlog lines are not modelled; the timer is in the schedule of arrivals.
pub mod Arriving
pub mod Asleep
pub mod Checks
pub mod Crash
pub mod Logged
pub mod Sourced
use raft_algorep.Base.{
  ℕ, zero, suc, ◌+◌, ℤ, minus_one, Bool, true, false, not, ◌&&◌, List, Option, none, some, Outcome,
  ok, fault, assertion, state_changed_twice, waiting, out_of_fuel, ◌>>=◌, require, ltb_ℤ, eq_ℤ,
  if◌then◌else◌,
}
use raft_algorep.Rpc.{
  Rpc, request_vote, request_vote_response, append_entries, append_entries_response, request_leader,
  request_leader_response, request_client, request_client_response, controller_request, RpcResponse,
  ControllerRequest, ControllerRequestType, status, crash, speed, start, recovery, print_log, entry,
}
use raft_algorep.Reciever.{RpcRecieverReinjecter, reinject_rpc, get_rpc_blocking, pending}
use raft_algorep.Clock.{get_speed_type}
use raft_algorep.Node.{Node, State, follower, leader, candidate, send_rpc}

-- A cycle with the node that it refers to. `stale` is what the storage of the empty optional
-- `nextState` happens to hold; `vote_count` and `has_voted_for_me` are those of CandidateCycle.
pub record Cycle : Type 0 where
  pub next_state : Option State
  pub stale : State
  pub node : Node
  pub vote_count : ℤ
  pub has_voted_for_me : List Bool

-- The virtual functions of a cycle.
pub record CycleClass : Type 0 where
  pub pre_cycle : Cycle → Outcome Cycle
  pub handle_node_request : RpcResponse → Cycle → Outcome (Bool × Cycle)
  pub handle_client_request : RpcResponse → Cycle → Outcome Cycle
  pub post_cycle : Bool → Cycle → Outcome Cycle

abbrev pub is_none {ℓ} : {A : Type ℓ} → Option A → Bool
is_none none = true
is_none (some a) = false

abbrev pub is_follower : State → Bool
is_follower follower = true
is_follower leader = false
is_follower candidate = false

abbrev pub value_or {ℓ} : {A : Type ℓ} → Option A → A → A
value_or (some a) d = a
value_or none d = d

unfoldable pub change_next_state : State → Cycle → Outcome Cycle
change_next_state s c =
    require (is_none c.next_state) (assertion state_changed_twice)
      (ok (record c { next_state = some s }))

-- The term of a message between nodes, and -1 for any other message.
unfoldable pub sent_term : Rpc → ℤ
sent_term (request_vote m) = m.term
sent_term (request_vote_response m) = m.term
sent_term (append_entries m) = m.term
sent_term (append_entries_response m) = m.term
sent_term request_leader = minus_one
sent_term (request_leader_response m) = minus_one
sent_term (request_client m) = minus_one
sent_term (request_client_response m) = minus_one
sent_term (controller_request m) = minus_one

unfoldable pub check_always_should_stop : RpcResponse → Cycle → Outcome (Bool × Cycle)
unfolding sent_term change_next_state reinject_rpc
check_always_should_stop m c =
    let t = sent_term m.rpc in
    if not (eq_ℤ t minus_one) && ltb_ℤ c.node.term t
    then (let c' = record c { node = record c.node { term = t; voted_for = none } } in
        if is_follower c.node.state then ok (false, c') else do
          d ← change_next_state follower c'
          ok (
            true,
            record d { node = record d.node { rpc_reciever = reinject_rpc m d.node.rpc_reciever } },
          ))
    else ok (false, c)

unfoldable pub client_request_leader_response : RpcResponse → Cycle → Cycle
unfolding send_rpc
client_request_leader_response m c =
    let id = c.node.leader_id in
    record c {
      node =
          send_rpc
            (request_leader_response
              (record { leader_id = value_or id 0; success = not (is_none id) }))
            m.sender_id c.node;
    }

-- `crash_loop` is the loop that a node enters when it crashes.
unfoldable pub handle_request :
    (Cycle → Outcome Cycle)
    → ControllerRequestType
    → ControllerRequest
    → Cycle
    → Outcome (Bool × Cycle)
handle_request crash_loop status r c = ok (false, c)
handle_request crash_loop crash r c =
    if c.node.crash
    then ok (false, c)
    else do d ← crash_loop (record c { node = record c.node { crash = true } }); ok (true, d)
handle_request crash_loop speed r c =
    ok (false, record c { node = record c.node { clock = get_speed_type r.message } })
handle_request crash_loop recovery r c =
    ok (false, if c.node.crash then record c { node = record c.node { crash = false } } else c)
handle_request crash_loop print_log r c = ok (false, c)
handle_request crash_loop start r c = ok (false, c)
handle_request crash_loop entry r c = ok (false, c)

-- `loop` is the rest of the crash loop.
unfoldable pub crash_message : (Cycle → Outcome Cycle) → Rpc → Cycle → Outcome Cycle
unfolding handle_request
crash_message loop (controller_request r) c = do (_, d) ← handle_request loop r.request r c; loop d
crash_message loop _ c = loop c

-- `while (node.crash)`: one round, with the message that `get_rpc_blocking` returns in it.
unfoldable pub crash_round :
    (Cycle → Outcome Cycle)
    → Bool
    → Option (RpcResponse × RpcRecieverReinjecter)
    → Cycle
    → Outcome Cycle
unfolding crash_message
crash_round loop false arrived c = ok c
crash_round loop true none c = fault waiting
crash_round loop true (some (m, r)) c =
    crash_message loop m.rpc (record c { node = record c.node { rpc_reciever = r } })

-- One round takes a message off, so the fuel is the number of messages to come, and one more.
unfoldable pub crash_loop : ℕ → Cycle → Outcome Cycle
unfolding crash_round get_rpc_blocking
crash_loop zero c = fault out_of_fuel
crash_loop (suc fuel) c =
    crash_round (crash_loop fuel) c.node.crash (get_rpc_blocking c.node.rpc_reciever) c

unfoldable pub handle_controller_request : ControllerRequest → Cycle → Outcome (Bool × Cycle)
unfolding handle_request crash_loop
handle_controller_request r c =
    handle_request (crash_loop (pending c.node.rpc_reciever + 1)) r.request r c
