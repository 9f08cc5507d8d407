-- ===== src/Election/Polls.antt =====
-- The votes that a candidate has counted, and the servers that sent them: the candidate's cycle on
-- messages that servers have sent, in which each granted vote is of the candidate's term.
use raft_algorep.Base.{
  ℕ, suc, zero, ℤ, ◌<◌, ◌<ℤ◌, ◌==◌, ==_iff, int_max, Bool, true, false, Bool-cases, some, ok,
  or_fault, undefined, IfReturns, IfReturns-bind, IfReturns-if, IfReturns-mono, Ends-ok, length,
  replicate, length-replicate, get_elem?, set, length-set, get_elem?-set_ne, if◌then◌else◌, ◌≡◌,
  ◌≢◌, refl, sym, subst, ap, ◌∙◌, ◌⊎◌, inl, inr, arith,
}
use raft_algorep.Config.{GlobalConfig, nb_node}
use raft_algorep.Rpc.{
  Rpc, request_vote_response, append_entries, RpcResponse, RequestVoteResponse, AppendEntries,
  Packet,
}
use raft_algorep.Node.{Node, State, follower, candidate}
use raft_algorep.Node.Quiet.{grant_term}
use raft_algorep.Cycle.{Cycle, change_next_state, check_always_should_stop}
use raft_algorep.Cycle.Checks.{check-stops}
use raft_algorep.Candidate.{
  increment, pre_cycle, count_vote, handle_vote, yield_to, dispatch, handle_node_request,
}
use raft_algorep.Update.{new_cycle}
use raft_algorep.Candidate.Campaign.{pre_cycle-campaigns}
use raft_algorep.Candidate.Tally.{Tally, handle_node_request-Tally}
use raft_algorep.Election.Leader.{campaign, pre_cycle-campaign}
use raft_algorep.Election.Wins.{slot_of}
use raft_algorep.Election.Voted.{VotedFor}

get_elem?-replicate {ℓ} :
    {A : Type ℓ} (k i : ℕ) (a : A) → i < k → get_elem? (replicate k a) i ≡ some a
get_elem?-replicate zero i a h = elim h [ ]
get_elem?-replicate (suc k) zero a h = refl
get_elem?-replicate (suc k) (suc i) a h = get_elem?-replicate k i a (omega arith)

unmarked : (k i : ℕ) → get_elem? (replicate k false) i ≢ some true
unmarked zero i e = cc
unmarked (suc k) zero e = cc
unmarked (suc k) (suc i) e = unmarked k i e

module _ (g : GlobalConfig) (servers : ℕ → Node) (own : ℕ) where
  -- The message is a packet that the server in its sender's slot has sent to this candidate.
  abbrev pub Delivered : RpcResponse → Type 0
  Delivered m =
      (i : ℕ) × (p : Packet) × (get_elem? (servers (slot_of g m.sender_id)).sent i ≡ some p)
      × (p.rpc ≡ m.rpc)
      × (p.dest ≡ g.rank)

  -- What the candidate's counts rest on.
  pub record Polled (c : Cycle) : Type 0 where
    pub running : c.node.state ≡ candidate
    pub slots : length c.has_voted_for_me ≡ nb_node g
    pub own_slot : get_elem? c.has_voted_for_me own ≡ some false
    pub backed :
        (i : ℕ)
        → get_elem? c.has_voted_for_me i ≡ some true
        → VotedFor (servers i) c.node.term g.rank

  -- The cycle has been left by a candidate that gives up.
  abbrev Stopped : Bool × Cycle → Type 0
  Stopped r = (r.0 ≡ true) × (r.1.next_state ≡ some follower)

  abbrev pub Heard : Bool × Cycle → Type 0
  Heard r = Stopped r ⊎ Polled r.1

  -- The votes that are of the candidate's term.
  abbrev pub Current : Rpc → Cycle → Type 0
  Current rpc c = (t : ℤ) → grant_term rpc ≡ some t → t ≡ c.node.term

  count_vote-parts :
      (slot : ℕ) (c : Cycle)
      → IfReturns
          (λ r. (r.1.has_voted_for_me ≡ set c.has_voted_for_me slot true) × (r.1.node ≡ c.node))
          (count_vote g slot c)
  unfolding count_vote increment change_next_state nb_node
  count_vote-parts slot c = ground arith

  set-Polled :
      (slot : ℕ) (c d : Cycle)
      → slot ≢ own
      → VotedFor (servers slot) c.node.term g.rank
      → d.has_voted_for_me ≡ set c.has_voted_for_me slot true
      → d.node ≡ c.node
      → Polled c
      → Polled d
  set-Polled slot c d other voted marks same p = record {
    running = ap (λ (n : Node). n.state) same ∙ p.running;
    slots = ap length marks ∙ length-set c.has_voted_for_me slot true ∙ p.slots;
    own_slot =
        ap (λ xs. get_elem? xs own) marks
        ∙ get_elem?-set_ne c.has_voted_for_me true other
        ∙ p.own_slot;
    backed = λ i h.
        subst (λ t. VotedFor (servers i) t g.rank) (sym (ap (λ (n : Node). n.term) same))
          (by_slot i (ap (λ xs. get_elem? xs i) (sym marks) ∙ h));
  }
    where
      by_slot :
          (i : ℕ)
          → get_elem? (set c.has_voted_for_me slot true) i ≡ some true
          → VotedFor (servers i) c.node.term g.rank
      by_slot i h = elim (Bool-cases (slot == i)) [
        | inl self ↦
            subst (λ k. VotedFor (servers k) c.node.term g.rank) ((==_iff slot i).0 self) voted
        | inr apart ↦
            p.backed i
              (sym (get_elem?-set_ne c.has_voted_for_me true (λ s. ground (arith, apart, s))) ∙ h)
      ]

  -- The cycle but for its next state, its count and its queue.
  keep-Polled :
      (c d : Cycle)
      → d.has_voted_for_me ≡ c.has_voted_for_me
      → d.node.state ≡ c.node.state
      → d.node.term ≡ c.node.term
      → Polled c
      → Polled d
  keep-Polled c d marks state term p = record {
    running = state ∙ p.running;
    slots = ap length marks ∙ p.slots;
    own_slot = ap (λ xs. get_elem? xs own) marks ∙ p.own_slot;
    backed = λ i h.
        subst (λ t. VotedFor (servers i) t g.rank) (sym term)
          (p.backed i (ap (λ xs. get_elem? xs i) (sym marks) ∙ h));
  }

  handle_vote-Polled :
      (v : RequestVoteResponse) (sender : ℕ) (c : Cycle)
      → slot_of g sender ≢ own
      → Delivered (record { rpc = request_vote_response v; sender_id = sender })
      → Current (request_vote_response v) c
      → Polled c
      → IfReturns Heard (handle_vote g sender v c)
  unfolding handle_vote
  handle_vote-Polled v sender c other (i, p, at, sent, dest) current polled =
      IfReturns-if Heard v.vote_granted _ _
        (λ granted.
          IfReturns-bind Heard
            (or_fault (get_elem? c.has_voted_for_me (slot_of g sender)) undefined) _
            λ b _.
              IfReturns-if Heard b (ok (false, c)) (count_vote g (slot_of g sender) c)
                (λ _. inr polled)
                (λ _. IfReturns-mono _ Heard _ (count_vote-parts (slot_of g sender) c) (λ r parts.
                  inr (
                    set-Polled (slot_of g sender) c r.1 other (voted granted) parts.0 parts.1
                      polled))))
        (λ _. inr polled)
    where
      voted : v.vote_granted ≡ true → VotedFor (servers (slot_of g sender)) c.node.term g.rank
      voted granted =
          let grants : grant_term (request_vote_response v) ≡ some v.term = rw granted refl in
          inl (i, p, at, ap grant_term sent ∙ grants ∙ ap some (current v.term grants), dest)

  yield_to-Polled :
      (m : RpcResponse) (a : AppendEntries) (c : Cycle)
      → Polled c
      → IfReturns Heard (yield_to g m a c)
  unfolding yield_to change_next_state
  yield_to-Polled m a c p = ground arith

  dispatch-Polled :
      (rpc : Rpc) (m : RpcResponse) (c : Cycle)
      → slot_of g m.sender_id ≢ own
      → Delivered (record { rpc = rpc; sender_id = m.sender_id })
      → Current rpc c
      → Polled c
      → IfReturns Heard (dispatch g rpc m c)
  unfolding dispatch
  dispatch-Polled (request_vote_response v) m c other sent current p =
      handle_vote-Polled v m.sender_id c other sent current p
  dispatch-Polled (append_entries a) m c other sent current p = yield_to-Polled m a c p
  dispatch-Polled _ m c other sent current p = inr p

  handle_node_request-Polled :
      (m : RpcResponse) (c : Cycle)
      → slot_of g m.sender_id ≢ own
      → Delivered m
      → Current m.rpc c
      → Polled c
      → IfReturns Heard (handle_node_request g m c)
  unfolding handle_node_request
  handle_node_request-Polled m c other sent current p =
      IfReturns-bind Heard (check_always_should_stop m c) _
        λ r e. go_on r (Ends-ok _ (λ x. Stopped x ⊎ (x ≡ (false, c))) _ (check-stops m c active) e)
    where
      active : c.node.state ≢ follower
      active e = cc

      go_on :
          (r : Bool × Cycle)
          → Stopped r ⊎ (r ≡ (false, c))
          → IfReturns Heard (if r.0 then ok (true, r.1) else dispatch g m.rpc m r.1)
      go_on r (inl (stop, down)) = rw stop (inl (refl, down))
      go_on r (inr same) = rw same (dispatch-Polled m.rpc m c other sent current p)

  campaign-Polled :
      (stale : State) (n : Node)
      → n.state ≡ candidate
      → own < nb_node g
      → Polled (campaign g stale n)
  unfolding new_cycle
  campaign-Polled stale n role small = record {
    running = role;
    slots = length-replicate (nb_node g) false;
    own_slot = get_elem?-replicate (nb_node g) own false small;
    backed = λ i h. absurd (unmarked (nb_node g) i h);
  }

  -- The cycles of the candidate, from the start of its election; the first part tells whether the
  -- last handler has left the cycle.
  pub data Campaign : Bool → Cycle → Type 0 where
    begins :
        {c : Cycle} (stale : State) (n : Node)
        → n.state ≡ candidate
        → n.term <ℤ int_max
        → pre_cycle g (new_cycle g stale n) ≡ ok c
        → Campaign false c
    hears :
        {c d : Cycle} {left : Bool} (m : RpcResponse)
        → Campaign false c
        → slot_of g m.sender_id ≢ own
        → Delivered m
        → Current m.rpc c
        → handle_node_request g m c ≡ ok (left, d)
        → Campaign left d

  pub Campaign-Polled :
      {left : Bool} {c : Cycle} → own < nb_node g → Campaign left c → Heard (left, c)
  Campaign-Polled small (begins {c} stale n role next begun) =
      let start_of : c ≡ campaign g stale n = cc (begun, pre_cycle-campaign g stale n next) in
      inr (rw start_of (campaign-Polled stale n role small))
  Campaign-Polled small (hears {c} {d} {left} m earlier other sent current handled) =
      elim (Campaign-Polled small earlier) [
        | inl (left_before, down) ↦ cc
        | inr polled ↦
            Ends-ok _ Heard _ (handle_node_request-Polled m c other sent current polled) handled
      ]

  pub Campaign-Tally : {left : Bool} {c : Cycle} → Campaign left c → Tally g c
  Campaign-Tally (begins {c} stale n role next begun) =
      (Ends-ok _ _ _ (pre_cycle-campaigns g stale n next) begun).1
  Campaign-Tally (hears {c} {d} {left} m earlier other sent current handled) =
      Ends-ok _ (λ r. Tally g r.1) _ (handle_node_request-Tally g m c (Campaign-Tally earlier))
        handled
