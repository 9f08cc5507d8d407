-- ===== src/Leader.antt =====
-- src/runners/node/cycle/leaderCycle.hh and leaderCycle.cc: replication and commits.
pub mod Appends
pub mod Bounded
pub mod Commit
pub mod Frame
pub mod Logged
pub mod Responses
pub mod Sourced
use raft_algorep.Base.{
  ℕ, zero, suc, ◌-◌, ◌+◌, ◌/◌, ℤ, pos, negsuc, ◌+ℤ◌, ◌-ℤ◌, Bool, true, false, List, [], ◌∷◌, ◌++◌,
  Option, none, some, Outcome, ok, fault, assertion, commit_beyond_log, undefined, out_of_fuel,
  ◌>>=◌, require, or_fault, ltb_ℤ, leb_ℤ, ltb, ◌==◌, if◌then◌else◌, length, get_elem?, get_at?, set,
  drop, Text,
}
use raft_algorep.Config.{GlobalConfig, node_ranks, nb_node}
use raft_algorep.Rpc.{
  Entry, Rpc, append_entries, append_entries_response, request_leader, request_client,
  request_client_response, RpcResponse, AppendEntries, AppendEntriesResponse,
}
use raft_algorep.Node.{Node, send_rpc, save_commit}
use raft_algorep.Cycle.{Cycle, CycleClass, check_always_should_stop, client_request_leader_response}

-- `v[i] = x` and a read `v[i]`.
unfoldable pub write {ℓ} : {A : Type ℓ} → List A → ℕ → A → Outcome (List A)
write xs i x = require (ltb i (length xs)) undefined (ok (set xs i x))

-- for (i = from; i < logs.size(); i++) push_back(logs[i]): from a negative `from` it reads outside.
unfoldable pub entries_from : ℤ → List Entry → Outcome (List Entry)
entries_from (pos i) logs = ok (drop i logs)
entries_from (negsuc i) logs = fault undefined

-- The term of the entry before the first one sent, and 0 where the log has none.
unfoldable pub prev_term : Option Entry → ℤ
prev_term none = pos 0
prev_term (some e) = e.term

module _ (g : GlobalConfig) where
  -- The AppendEntries for the node `dst`: the log from its `nextIndex` on.
  unfoldable pub update_message : ℕ → Node → Outcome AppendEntries
  unfolding entries_from prev_term
  update_message dst n = do
    next ← or_fault (get_elem? n.next_index (dst - g.nb_node_min)) undefined
    let prev = next -ℤ pos 1
    entries ← entries_from (prev +ℤ pos 1) n.logs
    ok (record {
      term = n.term;
      leader_id = g.rank;
      prev_log_index = prev;
      prev_log_term = prev_term (get_at? n.logs prev);
      leader_commit = n.commit_index;
      entries = entries;
    })

  unfoldable pub send_update_to_follower : ℕ → Node → Outcome Node
  unfolding update_message send_rpc
  send_update_to_follower dst n = do
    m ← update_message dst n
    ok (send_rpc (append_entries m) dst n)

  -- The loop of `pre_cycle`.
  unfoldable pub update_followers : List ℕ → Node → Outcome Node
  unfolding send_update_to_follower
  update_followers [] n = ok n
  update_followers (dst ∷ ranks) n = do
    n' ← if dst == g.rank then ok n else send_update_to_follower dst n
    update_followers ranks n'

  unfoldable pub pre_cycle : Cycle → Outcome Cycle
  unfolding update_followers
  pre_cycle c = do
    n ← update_followers (node_ranks g) (record c.node { leader_id = some g.rank })
    ok (record c { node = n })

  -- The nodes among `ranks` known to hold the entry at `index`, this one included.
  unfoldable pub count_holders : List ℕ → ℤ → Node → Outcome ℕ
  count_holders [] index n = ok 0
  count_holders (dst ∷ ranks) index n = do
    rest ← count_holders ranks index n
    if dst == g.rank then ok (rest + 1) else do
      m ← or_fault (get_elem? n.match_index (dst - g.nb_node_min)) undefined
      ok (if leb_ℤ index m then rest + 1 else rest)

  unfoldable pub update_commit_index : Node → Outcome (Bool × Node)
  unfolding count_holders nb_node ◌+ℤ◌
  update_commit_index n =
      require (ltb_ℤ n.commit_index (pos (length n.logs))) (assertion commit_beyond_log) (do
        majority ← count_holders (node_ranks g) (n.commit_index +ℤ pos 1) n
        ok (
            if ltb (nb_node g / 2) majority
            then (true, record n { commit_index = n.commit_index +ℤ pos 1 })
            else (false, n)))

  -- The body of the commit loop: answer the client, and save the entry.
  unfoldable pub commit_entry : Node → Outcome Node
  unfolding send_rpc save_commit
  commit_entry n = do
    e ← or_fault (get_at? n.logs n.commit_index) undefined
    ok (save_commit e (send_rpc (request_client_response true) e.client_id n))

  -- while (update_commitIndex()) { ... }: each round commits one entry of the log.
  unfoldable pub commit_loop : ℕ → Node → Outcome Node
  unfolding update_commit_index commit_entry
  commit_loop zero n = fault out_of_fuel
  commit_loop (suc fuel) n = do
    (more, n') ← update_commit_index n
    elim more [ false ↦ ok n' | true ↦ do n'' ← commit_entry n'; commit_loop fuel n'' ]

  unfoldable pub handle_append_response : ℕ → AppendEntriesResponse → Node → Outcome Node
  unfolding write send_update_to_follower ◌-ℤ◌
  handle_append_response sender m n =
      let slot = sender - g.nb_node_min in
      if m.success
      then (do
        next ← write n.next_index slot m.new_index
        matched ← write n.match_index slot (m.new_index -ℤ pos 1)
        ok (record n { next_index = next; match_index = matched }))
      else (do
        old ← or_fault (get_elem? n.next_index slot) undefined
        next ← write n.next_index slot (old -ℤ pos 1)
        send_update_to_follower sender (record n { next_index = next }))

  -- What a message from a node changes before the commit loop.
  abbrev pub response : Rpc → ℕ → Node → Outcome Node
  response (append_entries_response m) sender n = handle_append_response sender m n
  response _ sender n = ok n

  -- A round commits an entry of the log; one more is for an index of -1, and one to stop.
  unfoldable pub commit_fuel : Node → ℕ
  commit_fuel n = length n.logs + 2

  unfoldable pub handle_node_request : RpcResponse → Cycle → Outcome (Bool × Cycle)
  unfolding handle_append_response commit_loop commit_fuel check_always_should_stop
  handle_node_request m c = do
    (stop, d) ← check_always_should_stop m c
    if stop then ok (true, d) else do
      n ← response m.rpc m.sender_id d.node
      n' ← commit_loop (commit_fuel n) n
      ok (false, record d { node = n' })

  -- The entry that a client's request becomes.
  unfoldable pub new_entry : Text → ℕ → Node → Entry
  new_entry message client n = record {
    index = pos (length n.logs);
    term = n.term;
    cmd = message;
    client_id = client;
  }

  unfoldable pub client_request : Rpc → RpcResponse → Cycle → Outcome Cycle
  unfolding new_entry
  client_request request_leader m c = ok (client_request_leader_response m c)
  client_request (request_client message) m c = ok (record c {
    node = record c.node { logs = c.node.logs ++ new_entry message m.sender_id c.node ∷ [] };
  })
  client_request _ m c = ok c

  unfoldable pub handle_client_request : RpcResponse → Cycle → Outcome Cycle
  unfolding client_request
  handle_client_request m c = client_request m.rpc m c

  unfoldable pub leader_cycle : CycleClass
  unfolding pre_cycle handle_node_request handle_client_request
  leader_cycle = record {
    pre_cycle = pre_cycle;
    handle_node_request = handle_node_request;
    handle_client_request = handle_client_request;
    post_cycle = λ has_timed_out c. ok c;
  }
