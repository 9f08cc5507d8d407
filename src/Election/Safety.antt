-- ===== src/Election/Safety.antt =====
-- At most one leader in a term, if the votes that the candidates count are of their terms.
use raft_algorep.Base.{
  ℕ, ◌/◌, ◌<◌, ◌==◌, ==_iff, Bool, true, Bool-cases, List, Option, some, ok, Ends-ok, get_elem?,
  length, set, length-set, get_elem?-set_ne, ◌≡◌, sym, subst, ◌∙◌, inl, inr, arith,
}
use raft_algorep.Config.{GlobalConfig, nb_node}
use raft_algorep.Rpc.{RpcResponse}
use raft_algorep.Node.{Node, State, follower, leader, new_node}
use raft_algorep.Node.Votes.{OneVote}
use raft_algorep.Cycle.{Cycle}
use raft_algorep.Update.{start}
use raft_algorep.Update.Votes.{start-OneVote}
use raft_algorep.Candidate.Tally.{count_true, count_true-set}
use raft_algorep.Election.Voted.{VotedFor, VotedFor-unique}
use raft_algorep.Election.Polls.{Polled, Campaign, Campaign-Polled, Campaign-Tally}
use raft_algorep.Election.Quorum.{majorities_overlap}

-- A state that a server reaches after some turns from its fresh start.
abbrev pub Reached : Node → Type 0
Reached n =
    (g : GlobalConfig) × (net : List (Option RpcResponse)) × (stales : List State) × (start g stales
        (new_node g net)
      ≡ ok n)

Reached-OneVote : (n : Node) → Reached n → OneVote n
Reached-OneVote n (g, net, stales, run) = Ends-ok _ OneVote _ (start-OneVote g net stales) run

-- The candidate in the slot `own` has won its election, on votes that the servers have sent; its
-- own server is still in that term, and has voted for itself.
pub record Wins (g : GlobalConfig) (servers : ℕ → Node) (own : ℕ) (c : Cycle) : Type 0 where
  pub left : Bool
  pub campaign : Campaign g servers own left c
  pub won : c.next_state ≡ some leader
  pub in_range : own < nb_node g
  pub same_term : (servers own).term ≡ c.node.term
  pub own_vote : (servers own).voted_for ≡ some g.rank

module _ (g : GlobalConfig) (servers : ℕ → Node) (own : ℕ) (c : Cycle)
    (w : Wins g servers own c) where
  polled : Polled g servers own c
  polled = elim (Campaign-Polled g servers own w.in_range w.campaign) [
    | inl (stopped, down) ↦ absurd (apart (sym w.won ∙ down))
    | inr p ↦ p
  ]
    where
      apart : (some leader ≡ some follower) → ⊥
      apart e = cc

  -- All who voted for the candidate.
  abbrev voters : List Bool
  voters = set c.has_voted_for_me own true

  voters-length : length voters ≡ nb_node g
  voters-length = length-set c.has_voted_for_me own true ∙ polled.slots

  voters-majority : nb_node g / 2 < count_true voters
  voters-majority =
      rw (count_true-set c.has_voted_for_me own polled.own_slot)
        ((Campaign-Tally g servers own w.campaign).elected w.won)

  voters_voted : (i : ℕ) → get_elem? voters i ≡ some true → VotedFor (servers i) c.node.term g.rank
  voters_voted i h = elim (Bool-cases (own == i)) [
    | inl self ↦
        subst (λ k. VotedFor (servers k) c.node.term g.rank) ((==_iff own i).0 self)
          (inr (w.same_term, w.own_vote))
    | inr other ↦
        polled.backed i
          (sym (get_elem?-set_ne c.has_voted_for_me true (λ s. ground (arith, other, s))) ∙ h)
  ]

-- Of servers that each run from a fresh start, at most one wins the election of a term: two
-- candidates with the same number of nodes, that have won elections of the same term, each still
-- in that term with its own vote, have the same rank. Each election counts votes that the servers
-- have sent to the candidate, not its own server among them, and only votes of its own term.
pub Wins-unique :
    (servers : ℕ → Node)
    → ((i : ℕ) → Reached (servers i))
    → (g h : GlobalConfig) (i j : ℕ) (c d : Cycle) → nb_node g ≡ nb_node h
    → Wins g servers i c
    → Wins h servers j d
    → c.node.term ≡ d.node.term
    → g.rank ≡ h.rank
Wins-unique servers reached g h i j c d same c_wins d_wins term =
    let (k, c_voter, d_voter) =
      majorities_overlap (nb_node g) (voters g servers i c c_wins) (voters h servers j d d_wins)
        (voters-length g servers i c c_wins) (voters-length h servers j d d_wins ∙ sym same)
        (voters-majority g servers i c c_wins)
        (subst (λ n. n / 2 < count_true (voters h servers j d d_wins)) (sym same)
          (voters-majority h servers j d d_wins)) in
    VotedFor-unique (servers k) c.node.term g.rank h.rank (Reached-OneVote (servers k) (reached k))
      (voters_voted g servers i c c_wins k c_voter)
      (subst (λ t. VotedFor (servers k) t h.rank) (sym term)
        (voters_voted h servers j d d_wins k d_voter))
