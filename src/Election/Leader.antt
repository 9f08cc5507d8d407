-- ===== src/Election/Leader.antt =====
-- From a silent network and a majority of votes to a leader: Node::start through its three cycles.
use raft_algorep.Base.{
  ℕ, suc, ◌+◌, ◌/◌, ◌<◌, ◌≤◌, ℤ, pos, ◌+ℤ◌, ◌<ℤ◌, int_max, leb_ℤ, lt→ltb, Bool, true, false, List,
  [], ◌∷◌, ◌++◌, map, Option, none, some, Outcome, ok, ◌>>=◌, Returns, Ends-bind, length, replicate,
  length-append, ◌≡◌, refl, sym, ap, arith,
}
use raft_algorep.Config.{GlobalConfig, nb_node, node_ranks}
use raft_algorep.Rpc.{RpcResponse}
use raft_algorep.Reciever.{get_rpc_timeout, reinject_rpc, pending}
use raft_algorep.Reciever.Fifo.{upcoming, pending-upcoming}
use raft_algorep.Node.{Node, State, follower, leader, candidate, init_leader}
use raft_algorep.Cycle.{Cycle, change_next_state, value_or}
use raft_algorep.Follower
use raft_algorep.Follower.{follower_cycle}
use raft_algorep.Candidate.{increment, vote_request, pre_cycle, post_cycle, candidate_cycle}
use raft_algorep.Candidate.Campaign.{running_node, others, packet_to, broadcast_lem}
use raft_algorep.Candidate.Tally.{count_true-replicate}
use raft_algorep.Update.{on_arrival, update, update_loop, new_cycle, class_of, peek, turn, start}
use raft_algorep.Election.Wins.{
  vote_message, FreshVotes, Counting, arriving, Won, length-arriving, loop-Won,
}

add_one : (a : ℕ) → 0 + a + 1 ≡ suc a
add_one a = omega arith

module _ (g : GlobalConfig) where
  -- The node that has sent its requests.
  abbrev pub campaigning : Node → Node
  campaigning n = record (running_node g n) {
    sent =
        n.sent
        ++ map (packet_to (vote_request g (running_node g n))) (others g.rank (node_ranks g));
  }

  abbrev pub campaign : State → Node → Cycle
  campaign stale n = record (new_cycle g stale n) { node = campaigning n; vote_count = pos 1 }

  pub pre_cycle-campaign :
      (stale : State) (n : Node)
      → n.term <ℤ int_max
      → pre_cycle g (new_cycle g stale n) ≡ ok (campaign stale n)
  unfolding pre_cycle increment new_cycle ◌+ℤ◌
  pre_cycle-campaign stale n h = rw (lt→ltb _ _ h) (λ i. ok (record (new_cycle g stale n) {
    node =
        broadcast_lem (vote_request g (running_node g n)) g.rank (node_ranks g) (running_node g n)
          i;
    vote_count = pos 1;
  }))

  -- What a won election leaves.
  abbrev pub Elected : Node → Node → Type 0
  Elected n n' =
      (n'.state ≡ leader)
      × (n'.term ≡ n.term +ℤ pos 1)
      × (n'.voted_for ≡ some g.rank)
      × (n'.logs ≡ n.logs)

  -- Enough votes for the next term, in a cluster of at least two nodes.
  pub record Majority (term : ℤ) (votes : List (ℕ × ℤ)) : Type 0 where
    pub fresh : FreshVotes g (term +ℤ pos 1) (replicate (nb_node g) false) votes
    pub most : nb_node g / 2 < suc (length votes)
    pub several : 2 ≤ nb_node g
    pub small : leb_ℤ (pos (nb_node g)) int_max ≡ true
    pub next_term : term <ℤ int_max

  campaign-Counting :
      (stale : State) (n : Node) (votes : List (ℕ × ℤ))
      → Majority n.term votes
      → Counting g (campaign stale n)
  unfolding new_cycle
  campaign-Counting stale n votes m = record {
    counted = ap (λ k. pos (suc k)) (sym (count_true-replicate (nb_node g)));
    undecided = refl;
    minority = omega (arith, m.several, count_true-replicate (nb_node g));
    small = m.small;
  }

  campaign-Won :
      (stale : State) (n : Node) (votes : List (ℕ × ℤ)) (rest : List (Option RpcResponse))
      → upcoming n.rpc_reciever ≡ arriving g votes ++ rest
      → Majority n.term votes
      → Returns
          (Won g (campaign stale n))
          (update_loop g (candidate_cycle g) (pending n.rpc_reciever + 1) (campaign stale n))
  unfolding new_cycle
  campaign-Won stale n votes rest up m =
      loop-Won g votes rest (pending n.rpc_reciever + 1) (campaign stale n) up enough m.fresh
        (omega (arith, m.most, count_true-replicate (nb_node g)))
        (campaign-Counting stale n votes m)
    where
      enough : length votes < pending n.rpc_reciever + 1
      enough = omega (
        arith,
        pending-upcoming n.rpc_reciever,
        ap length up,
        length-append (arriving g votes) rest,
        length-arriving g votes,
      )

  after_won :
      (c : Cycle) (timed_out : Bool) (d : Cycle) (o : Option State)
      → d.next_state ≡ o
      → o ≡ some leader
      → d.node ≡ record c.node { rpc_reciever = d.node.rpc_reciever }
      → Returns
          (λ n'.
            (n'.state ≡ leader)
            × (n'.term ≡ c.node.term)
            × (n'.voted_for ≡ c.node.voted_for)
            × (n'.logs ≡ c.node.logs))
          (post_cycle g timed_out d >>= λ e.
            ok (record e.node { state = value_or e.next_state e.node.state }))
  unfolding post_cycle init_leader
  after_won c timed_out d o next elected same =
      rw (next, elected)
        (
          refl,
          ap (λ (n : Node). n.term) same,
          ap (λ (n : Node). n.voted_for) same,
          ap (λ (n : Node). n.logs) same,
        )

  -- A cycle of a candidate.
  update-Elected :
      (stale : State) (n : Node) (votes : List (ℕ × ℤ)) (rest : List (Option RpcResponse))
      → upcoming n.rpc_reciever ≡ arriving g votes ++ rest
      → Majority n.term votes
      → Returns (Elected n) (update g (candidate_cycle g) (new_cycle g stale n))
  unfolding update candidate_cycle
  update-Elected stale n votes rest up m = rw (pre_cycle-campaign stale n m.next_term) (
      Ends-bind (λ e. ⊥) (Won g (campaign stale n)) (Elected n)
        (update_loop g (candidate_cycle g) (pending n.rpc_reciever + 1) (campaign stale n)) ending
        (campaign-Won stale n votes rest up m)
        (λ r won. after_won (campaign stale n) r.0 r.1 r.1.next_state refl won.1 won.2))
    where
      ending : Bool × Cycle → Outcome Node
      ending r = do
        d ← post_cycle g r.0 r.1
        ok (record d.node { state = value_or d.next_state d.node.state })

  -- A node at which nothing was put back, to which `net` arrives.
  abbrev pub expecting : State → List (Option RpcResponse) → Node → Node
  expecting state net n = record n {
    state = state;
    rpc_reciever = record { reinjected_messages = []; network = net };
  }

  idle-candidate :
      (stale : State) (net : List (Option RpcResponse)) (n : Node)
      → turn g stale (expecting follower (none ∷ none ∷ net) n) ≡ ok (expecting candidate net n)
  unfolding turn peek update update_loop on_arrival new_cycle class_of follower_cycle
      Follower.post_cycle change_next_state get_rpc_timeout
  idle-candidate stale net n = rw (add_one (suc (length net))) refl

  candidate-Elected :
      (stale : State) (n : Node) (votes : List (ℕ × ℤ)) (rest : List (Option RpcResponse))
      → Majority n.term votes
      → Returns (Elected n) (turn g stale (expecting candidate (arriving g votes ++ rest) n))
  candidate-Elected stale n [] rest m = absurd (omega (arith, m.most, m.several))
  candidate-Elected stale n (v ∷ votes) rest m =
      unfold turn peek class_of get_rpc_timeout reinject_rpc in
      update-Elected stale (put_back v votes rest) (v ∷ votes) rest refl m
    where
      put_back : ℕ × ℤ → List (ℕ × ℤ) → List (Option RpcResponse) → Node
      put_back v votes rest = record n {
        state = candidate;
        rpc_reciever = record {
          reinjected_messages = vote_message v ∷ [];
          network = arriving g votes ++ rest;
        };
      }

  -- A follower in a cluster of at least two nodes, to which nothing arrives until both receives of
  -- a turn have timed out, and then votes of its next term or of earlier ones, each from another
  -- node, that make a majority with its own: after its second turn it is a leader, in the next
  -- term, with its own vote and the log that it had.
  pub start-Elected :
      (first second : State) (n : Node) (votes : List (ℕ × ℤ)) (rest : List (Option RpcResponse))
      → Majority n.term votes
      → Returns (Elected n) (
          start g
            (first ∷ second ∷ [])
            (expecting follower (none ∷ none ∷ (arriving g votes ++ rest)) n))
  unfolding start
  start-Elected first second n votes rest m =
      rw (idle-candidate first (arriving g votes ++ rest) n) (
        Ends-bind (λ e. ⊥) (Elected n) (Elected n)
          (turn g second (expecting candidate (arriving g votes ++ rest) n)) ok
          (candidate-Elected second n votes rest m) (λ n' h. h))
