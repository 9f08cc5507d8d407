-- ===== src/Candidate/Campaign.antt =====
-- CandidateCycle::pre_cycle: the start of an election.
use raft_algorep.Base.{
  ℕ, suc, pos, ◌+ℤ◌, ◌<ℤ◌, int_max, lt→ltb, Bool, true, false, List, [], ◌∷◌, ◌++◌, map, append-nil,
  append_assoc, none, some, Returns, if◌then◌else◌, ◌==◌, ◌≡◌, refl, sym, ap, ◌∙◌,
}
use raft_algorep.Config.{GlobalConfig, node_ranks, nb_node}
use raft_algorep.Rpc.{Rpc, Packet}
use raft_algorep.Node.{Node, State, send_rpc}
use raft_algorep.Candidate.{increment, broadcast, vote_request, pre_cycle}
use raft_algorep.Candidate.Tally.{Tally, count_true-replicate}
use raft_algorep.Update.{new_cycle}

abbrev pub others : ℕ → List ℕ → List ℕ
others own [] = []
others own (dst ∷ ranks) = if dst == own then others own ranks else dst ∷ others own ranks

abbrev pub packet_to : Rpc → ℕ → Packet
packet_to rpc dst = record { rpc = rpc; dest = dst }

pub broadcast_lem :
    (rpc : Rpc) (own : ℕ) (ranks : List ℕ) (n : Node)
    → broadcast rpc own ranks n
      ≡ record n { sent = n.sent ++ map (packet_to rpc) (others own ranks) }
unfolding broadcast send_rpc
broadcast_lem rpc own [] n = λ i. record n { sent = sym (append-nil n.sent) i }
broadcast_lem rpc own (dst ∷ ranks) n = by_own (broadcast_lem rpc own ranks) (dst == own)
  where
    by_own :
        ((n' : Node)
          → broadcast rpc own ranks n'
            ≡ record n' { sent = n'.sent ++ map (packet_to rpc) (others own ranks) })
        → (b : Bool)
        → broadcast rpc own ranks (if b then n else send_rpc rpc dst n) ≡ record n {
          sent =
              n.sent
              ++ map (packet_to rpc) (if b then others own ranks else dst ∷ others own ranks);
        }
    by_own ih true = ih n
    by_own ih false = ih (send_rpc rpc dst n) ∙ λ i. record n {
      sent =
          append_assoc n.sent (packet_to rpc dst ∷ []) (map (packet_to rpc) (others own ranks)) i;
    }

module _ (g : GlobalConfig) where
  -- The node that runs for the next term.
  abbrev pub running_node : Node → Node
  running_node n = record n { term = n.term +ℤ pos 1; voted_for = some g.rank }

  -- A node whose term is not the largest int starts an election without a fault: its term goes up
  -- by one, its vote is its own and counted, it sends its request to every other node once and to
  -- none else, and nothing else of it changes.
  pub pre_cycle-campaigns :
      (stale : State) (n : Node)
      → n.term <ℤ int_max
      → Returns
          (λ c.
            (c.node ≡ record (running_node n) {
              sent =
                  n.sent
                  ++ map
                      (packet_to (vote_request g (running_node n)))
                      (others g.rank (node_ranks g));
            })
            × Tally g c
            × (c.next_state ≡ none))
          (pre_cycle g (new_cycle g stale n))
  unfolding pre_cycle increment new_cycle ◌+ℤ◌
  pre_cycle-campaigns stale n h = rw (lt→ltb _ _ h) (
    broadcast_lem (vote_request g (running_node n)) g.rank (node_ranks g) (running_node n),
    record {
      counted = ap (λ k. pos (suc k)) (sym (count_true-replicate (nb_node g)));
      elected = λ e. cc;
    },
    refl,
  )
