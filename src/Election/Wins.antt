-- ===== src/Election/Wins.antt =====
-- An election that the majority votes for: the receive loop of a candidate.
use raft_algorep.Base.{
  ℕ, zero, suc, ◌+◌, ◌-◌, ◌/◌, ◌<◌, ◌≤◌, ℤ, pos, ◌+ℤ◌, ◌≤ℤ◌, ◌<ℤ◌, int_max, leb_ℤ, ltb_ℤ, Bool,
  true, false, List, [], ◌∷◌, ◌++◌, map, Option, none, some, Outcome, ok, ◌>>=◌, Returns, length,
  get_elem?, set, if◌then◌else◌, ltb, not_ltb→le, ◌≡◌, refl, sym, ap, arith,
}
use raft_algorep.Config.{GlobalConfig, is_node, nb_node}
use raft_algorep.Rpc.{request_vote_response, RpcResponse}
use raft_algorep.Reciever.{RpcRecieverReinjecter, get_rpc_timeout}
use raft_algorep.Reciever.Fifo.{upcoming, read-upcoming}
use raft_algorep.Node.{leader}
use raft_algorep.Cycle.{Cycle, change_next_state}
use raft_algorep.Cycle.Checks.{check-same}
use raft_algorep.Candidate.{
  increment, count_vote, handle_vote, handle_node_request, dispatch, candidate_cycle,
}
use raft_algorep.Candidate.Tally.{count_true, count_true-set}
use raft_algorep.Update.{by_sender, handle_message, proceed, on_arrival, update_loop}

abbrev pub vote_message : ℕ × ℤ → RpcResponse
vote_message (sender, t) = record {
  rpc = request_vote_response (record { term = t; vote_granted = true });
  sender_id = sender;
}

increment-pos : (k : ℕ) → pos k <ℤ int_max → increment (pos k) ≡ ok (pos (suc k))
unfolding increment ◌+ℤ◌
increment-pos k small = ground (arith, small)

ltb_ℤ-pos : (a b : ℕ) → ltb_ℤ (pos a) (pos b) ≡ ltb a b
ltb_ℤ-pos a b = ground arith

abbrev elected : Cycle → Outcome (Bool × Cycle)
elected c = do d ← change_next_state leader c; ok (true, d)

elect_if :
    (b : Bool) (c : Cycle)
    → c.next_state ≡ none
    → (if b then elected c else ok (false, c))
      ≡ (if b then ok (true, record c { next_state = some leader }) else ok (false, c))
unfolding change_next_state
elect_if true c undecided = rw undecided refl
elect_if false c undecided = refl

module _ (g : GlobalConfig) where
  abbrev pub slot_of : ℕ → ℕ
  slot_of sender = sender - g.nb_node_min

  -- Votes from nodes that have not voted yet, each of them once; none of a later term.
  abbrev pub FreshVotes : ℤ → List Bool → List (ℕ × ℤ) → Type 0
  FreshVotes term marked [] = Unit
  FreshVotes term marked ((sender, t) ∷ votes) =
      (is_node g sender ≡ true)
      × (t ≤ℤ term)
      × (get_elem? marked (slot_of sender) ≡ some false)
      × FreshVotes term (set marked (slot_of sender) true) votes

  -- A candidate that counts, and has no majority yet.
  pub record Counting (c : Cycle) : Type 0 where
    pub counted : c.vote_count ≡ pos (suc (count_true c.has_voted_for_me))
    pub undecided : c.next_state ≡ none
    pub minority : suc (count_true c.has_voted_for_me) ≤ nb_node g / 2
    pub small : leb_ℤ (pos (nb_node g)) int_max ≡ true

  abbrev marked : ℕ → Cycle → Cycle
  marked sender c = record c {
    has_voted_for_me = set c.has_voted_for_me (slot_of sender) true;
    vote_count = pos (suc (suc (count_true c.has_voted_for_me)));
  }

  count_vote_lem :
      (sender : ℕ) (c : Cycle)
      → Counting c
      → count_vote g (slot_of sender) c ≡ (
          if ltb (nb_node g / 2) (suc (suc (count_true c.has_voted_for_me)))
          then ok (true, record (marked sender c) { next_state = some leader })
          else ok (false, marked sender c))
  unfolding count_vote
  count_vote_lem sender c k =
      let n = count_true c.has_voted_for_me in
      rw
        (
          k.counted,
          increment-pos (suc n) (ground (arith, k.minority, k.small)),
          ltb_ℤ-pos (nb_node g / 2) (suc (suc n)),
        )
        (elect_if (ltb (nb_node g / 2) (suc (suc n))) (marked sender c) k.undecided)

  handle_lem :
      (sender : ℕ) (t : ℤ) (c : Cycle)
      → t ≤ℤ c.node.term
      → get_elem? c.has_voted_for_me (slot_of sender) ≡ some false
      → handle_node_request g (vote_message (sender, t)) c ≡ count_vote g (slot_of sender) c
  unfolding handle_node_request dispatch handle_vote
  handle_lem sender t c old free = rw (check-same (vote_message (sender, t)) c old, free) refl

  -- The messages of the votes.
  abbrev pub arriving : List (ℕ × ℤ) → List (Option RpcResponse)
  arriving votes = map (λ v. some (vote_message v)) votes

  -- One more vote does not decide.
  marked-Counting :
      (sender : ℕ) (c : Cycle)
      → get_elem? c.has_voted_for_me (slot_of sender) ≡ some false
      → ltb (nb_node g / 2) (suc (suc (count_true c.has_voted_for_me))) ≡ false
      → Counting c
      → Counting (marked sender c)
  marked-Counting sender c free few k =
      let counts = count_true-set c.has_voted_for_me (slot_of sender) free in
      record {
        counted = ap (λ n. pos (suc n)) (sym counts);
        undecided = k.undecided;
        minority = omega (arith, counts, not_ltb→le _ _ few);
        small = k.small;
      }

  -- What the receive takes off.
  received : RpcRecieverReinjecter → Cycle → Cycle
  received r c = record c { node = record c.node { rpc_reciever = r } }

  -- The loop is left with the cycle of a leader to be.
  abbrev pub Won : Cycle → Bool × Cycle → Type 0
  Won c (timed_out, d) =
      (timed_out ≡ false)
      × (d.next_state ≡ some leader)
      × (d.node ≡ record c.node { rpc_reciever = d.node.rpc_reciever })

  -- A vote that arrives is handled by the candidate.
  vote_handled :
      (fuel : ℕ) (sender : ℕ) (t : ℤ) (c : Cycle) (r : RpcRecieverReinjecter)
      → get_rpc_timeout c.node.rpc_reciever ≡ (some (vote_message (sender, t)), r)
      → is_node g sender ≡ true
      → t ≤ℤ c.node.term
      → get_elem? c.has_voted_for_me (slot_of sender) ≡ some false
      → update_loop g (candidate_cycle g) (suc fuel) c ≡ (
          count_vote g (slot_of sender) (received r c)
          >>= proceed g (update_loop g (candidate_cycle g) fuel))
  unfolding update_loop on_arrival handle_message by_sender candidate_cycle received
  vote_handled fuel sender t c r read node old free =
      rw (read, node, handle_lem sender t (received r c) old free) refl

  after_vote :
      (c d : Cycle) (b : Bool) (loop : Cycle → Outcome (Bool × Cycle))
      → d.node ≡ record c.node { rpc_reciever = d.node.rpc_reciever }
      → (b ≡ false → Returns (Won c) (loop d))
      → Returns (Won c) (
          (if b then ok (true, record d { next_state = some leader }) else ok (false, d))
          >>= proceed g loop)
  unfolding proceed
  after_vote c d true loop same go_on = (refl, refl, same)
  after_vote c d false loop same go_on = go_on refl

  received-Counting : (r : RpcRecieverReinjecter) (c : Cycle) → Counting c → Counting (received r c)
  unfolding received
  received-Counting r c k = record {
    counted = k.counted;
    undecided = k.undecided;
    minority = k.minority;
    small = k.small;
  }

  pub length-arriving : (votes : List (ℕ × ℤ)) → length (arriving votes) ≡ length votes
  length-arriving [] = refl
  length-arriving (v ∷ votes) = ap suc (length-arriving votes)

  -- A candidate that counts, and to which enough fresh votes come, wins.
  pub loop-Won :
      (votes : List (ℕ × ℤ)) (rest : List (Option RpcResponse)) (fuel : ℕ) (c : Cycle)
      → upcoming c.node.rpc_reciever ≡ arriving votes ++ rest
      → length votes < fuel
      → FreshVotes c.node.term c.has_voted_for_me votes
      → nb_node g / 2 < suc (count_true c.has_voted_for_me) + length votes
      → Counting c
      → Returns (Won c) (update_loop g (candidate_cycle g) fuel c)
  unfolding received
  loop-Won [] rest fuel c up enough fresh most k = absurd (omega (arith, k.minority))
  loop-Won (v ∷ votes) rest zero c up enough fresh most k = elim enough [ ]
  loop-Won ((sender, t) ∷ votes) rest (suc fuel) c up enough (node, old, free, fresh) most k =
      let (r, read, up') =
        read-upcoming c.node.rpc_reciever (some (vote_message (sender, t))) (arriving votes ++ rest)
          up in
      let n = count_true c.has_voted_for_me in
      let k' = received-Counting r c k in
      rw
        (vote_handled fuel sender t c r read node old free, count_vote_lem sender (received r c) k')
        (after_vote c (marked sender (received r c)) (ltb (nb_node g / 2) (suc (suc n)))
          (update_loop g (candidate_cycle g) fuel) refl
          (λ few.
            loop-Won votes rest fuel (marked sender (received r c)) up' (omega (arith, enough))
              fresh (omega (arith, most, count_true-set c.has_voted_for_me (slot_of sender) free))
              (marked-Counting sender (received r c) free few k')))
