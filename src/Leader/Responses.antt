-- ===== src/Leader/Responses.antt =====
-- LeaderCycle::handle_node_request as a whole: a success response, from its receipt to the commits.
use raft_algorep.Base.{
  ℕ, ◌-◌, ◌≤◌, ◌<◌, pos, minus_one, ◌+ℤ◌, ◌-ℤ◌, ◌<ℤ◌, ◌≤ℤ◌, int_laws, true, false, ok, length, set,
  All-set, All-replicate, length-set, length-replicate, ◌≡◌, refl, ◌∙◌, arith, lt→ltb,
}
use raft_algorep.Config.{GlobalConfig, is_node, nb_node}
use raft_algorep.Rpc.{append_entries_response, RpcResponse, AppendEntriesResponse}
use raft_algorep.Node.{Node, init_leader}
use raft_algorep.Cycle.{Cycle, check_always_should_stop, sent_term}
use raft_algorep.Leader.{
  write, handle_append_response, commit_fuel, commit_loop, handle_node_request,
}
use raft_algorep.Leader.Commit.{Majority, commits, Committed, commit_loop-Committed}
use raft_algorep.Leader.Bounded.{Leading, Leading-Ready}

module _ (g : GlobalConfig) where
  -- What a success response records.
  abbrev pub recorded : ℕ → AppendEntriesResponse → Node → Node
  recorded sender m n = record n {
    next_index = set n.next_index (sender - g.nb_node_min) m.new_index;
    match_index = set n.match_index (sender - g.nb_node_min) (m.new_index -ℤ pos 1);
  }

  recorded-Leading :
      (sender : ℕ) (m : AppendEntriesResponse) (n : Node) (a : ℕ)
      → Leading g n a
      → m.new_index ≤ℤ pos (length n.logs)
      → Leading g (recorded sender m n) a
  recorded-Leading sender m n a l h = record {
    others = l.others;
    committed = l.committed;
    in_log = l.in_log;
    match_slots =
        length-set n.match_index (sender - g.nb_node_min) (m.new_index -ℤ pos 1) ∙ l.match_slots;
    next_slots = length-set n.next_index (sender - g.nb_node_min) m.new_index ∙ l.next_slots;
    bounded =
        All-set (λ k. k <ℤ pos (length n.logs)) n.match_index (sender - g.nb_node_min)
          (m.new_index -ℤ pos 1) (omega (int_laws, h)) l.bounded;
  }

  is_node-slot : (r : ℕ) → is_node g r ≡ true → r - g.nb_node_min < nb_node g
  unfolding is_node nb_node
  is_node-slot r h = ground arith

  handle_append_response_lem :
      (sender : ℕ) (m : AppendEntriesResponse) (n : Node) (a : ℕ)
      → Leading g n a
      → m.success ≡ true
      → sender - g.nb_node_min < nb_node g
      → handle_append_response g sender m n ≡ ok (recorded sender m n)
  unfolding handle_append_response write
  handle_append_response_lem sender m n a l s h =
      rw
        (
          s,
          lt→ltb (sender - g.nb_node_min) (length n.next_index) (rw l.next_slots h),
          lt→ltb (sender - g.nb_node_min) (length n.match_index) (rw l.match_slots h),
        )
        refl

  -- A message of no later term does not stop the cycle.
  check-goes_on :
      (m : RpcResponse) (c : Cycle)
      → sent_term m.rpc ≤ℤ c.node.term
      → check_always_should_stop m c ≡ ok (false, c)
  unfolding check_always_should_stop
  check-goes_on m c h = ground arith

  commits-Leading :
      (n : Node) (a b : ℕ) → Leading g n a → b ≤ length n.logs → Leading g (commits g n a b) b
  commits-Leading n a b l h = record {
    others = l.others;
    committed = omega int_laws;
    in_log = h;
    match_slots = l.match_slots;
    next_slots = l.next_slots;
    bounded = l.bounded;
  }

  enough_fuel : (n : Node) (a : ℕ) → length n.logs - a < commit_fuel g n
  unfolding commit_fuel
  enough_fuel n a = omega arith

  -- A leader with at least one other node, whose match indices are below the length of its log,
  -- handles a success response of no later term, from a node that claims no more than that log,
  -- without a fault: the indices of that node are recorded, and the entries that a majority holds
  -- are committed, saved and answered in order, from the first that was not, up to the first that
  -- no majority holds. Afterwards the leader is again one whose match indices are below its log.
  pub handle_node_request-commits :
      (sender : ℕ) (m : AppendEntriesResponse) (c : Cycle) (a : ℕ)
      → Leading g c.node a
      → is_node g sender ≡ true
      → m.term ≤ℤ c.node.term
      → m.success ≡ true
      → m.new_index ≤ℤ pos (length c.node.logs)
      → let n = recorded sender m c.node in
        (b : ℕ) × (handle_node_request g
            (record { rpc = append_entries_response m; sender_id = sender })
            c
          ≡ ok (false, record c { node = commits g n a b }))
        × (a ≤ b)
        × ((i : ℕ) → a ≤ i → i < b → Majority g n.match_index i)
        × (¬ Majority g n.match_index b)
        × Leading g (commits g n a b) b
  unfolding handle_node_request
  handle_node_request-commits sender m c a l is current s h =
      let (b, done) = committed_by in
      (
        b,
        rw
            (
              check,
              handle_append_response_lem sender m c.node a l s (is_node-slot sender is),
              done.0,
            )
            refl,
        done.1,
        done.3,
        done.4,
        commits-Leading n a b leading done.2,
      )
    where
      n : Node
      n = recorded sender m c.node

      leading : Leading g n a
      leading = recorded-Leading sender m c.node a l h

      check :
          check_always_should_stop
            (record { rpc = append_entries_response m; sender_id = sender })
            c
          ≡ ok (false, c)
      check =
          check-goes_on (record { rpc = append_entries_response m; sender_id = sender }) c
            (unfold sent_term in current)

      committed_by : (b : ℕ) × Committed g n a b (commit_loop g (commit_fuel g n) n)
      committed_by =
          commit_loop-Committed g (commit_fuel g n) n a (Leading-Ready g n a leading)
            (enough_fuel n a)

-- A node that has committed a entries of its log, and has an index for each node of a cluster of at
-- least two, becomes a leader whose match indices are below the length of its log.
pub init_leader-Leading :
    (g : GlobalConfig) (n : Node) (a : ℕ)
    → 2 ≤ nb_node g
    → n.commit_index +ℤ pos 1 ≡ pos a
    → a ≤ length n.logs
    → length n.match_index ≡ nb_node g
    → length n.next_index ≡ nb_node g
    → Leading g (init_leader n) a
unfolding init_leader
init_leader-Leading g n a two c h m x = record {
  others = two;
  committed = c;
  in_log = h;
  match_slots = length-replicate (length n.match_index) minus_one ∙ m;
  next_slots = length-replicate (length n.next_index) _ ∙ x;
  bounded = All-replicate _ (length n.match_index) minus_one (omega int_laws);
}
