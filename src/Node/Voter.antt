-- ===== src/Node/Voter.antt =====
-- A server as a voter: its term, its vote and what it has sent, and the steps that these may take.
use raft_algorep.Base.{
  ℕ, ℤ, ◌<ℤ◌, ◌≤ℤ◌, pos_part, neg_part, eq_of_parts, ◌∙◌, List, [], ◌∷◌, ◌++◌, append-nil,
  append_assoc, Option, none, some, All, ◌≡◌, refl, sym, ap, ◌⊎◌, inl, inr, arith,
}
use raft_algorep.Rpc.{Packet}
use raft_algorep.Node.{Node}
use raft_algorep.Node.Quiet.{grant_term, GrantsNothing, Quiet}
use raft_algorep.Node.Votes.{Votes, Votes-later, Votes-cast, push-Votes}

pub record Voter : Type 0 where
  pub term : ℤ
  pub voted_for : Option ℕ
  pub sent : List Packet

-- The steps of the voter that is `own`.
pub data Step (own : ℕ) : Voter → Voter → Type 0 where
  -- a packet that grants nothing
  tells :
      {v : Voter} (p : Packet) → GrantsNothing p → Step own v (record v { sent = v.sent ++ p ∷ [] })
  -- a later term, in which it has not voted
  learns : {v : Voter} (t : ℤ) → v.term <ℤ t → Step own v (record v { term = t; voted_for = none })
  -- a later term, in which it votes for itself
  runs :
      {v : Voter} (t : ℤ) → v.term <ℤ t → Step own v (record v { term = t; voted_for = some own })
  -- the vote of its term, which is free or is that node's already
  grants :
      {v : Voter} (p : Packet)
      → (v.voted_for ≡ none) ⊎ (v.voted_for ≡ some p.dest)
      → grant_term p.rpc ≡ some v.term
      → Step own v (record v { voted_for = some p.dest; sent = v.sent ++ p ∷ [] })

pub data Steps (own : ℕ) : Voter → Voter → Type 0 where
  rests : {v : Voter} → Steps own v v
  then_steps : {v w x : Voter} → Steps own v w → Step own w x → Steps own v x

abbrev pub voter : Node → Voter
voter n = record { term = n.term; voted_for = n.voted_for; sent = n.sent }

-- Time goes on: the term does not fall, and a vote stands as long as its term lasts.
pub record Onward (v w : Voter) : Type 0 where
  pub term_up : v.term ≤ℤ w.term
  pub vote_stands : (d : ℕ) → w.term ≡ v.term → v.voted_for ≡ some d → w.voted_for ≡ some d

module _ (own : ℕ) where
  pub Steps-trans : {v w x : Voter} → Steps own v w → Steps own w x → Steps own v x
  Steps-trans r rests = r
  Steps-trans r (then_steps s last) = then_steps (Steps-trans r s) last

  tells_all :
      (t : ℤ) (voted : Option ℕ) (sent more : List Packet)
      → All GrantsNothing more
      → Steps own
          (record { term = t; voted_for = voted; sent = sent })
          (record { term = t; voted_for = voted; sent = sent ++ more })
  tells_all t voted sent [] h = rw (append-nil sent) rests
  tells_all t voted sent (p ∷ ps) h =
      rw (← append_assoc sent (p ∷ []) ps)
        (Steps-trans (then_steps rests (tells p h.0)) (tells_all t voted (sent ++ p ∷ []) ps h.1))

  pub Quiet-Steps : {n n' : Node} → Quiet n n' → Steps own (voter n) (voter n')
  Quiet-Steps {n} {n'} q =
      rw (q.same_term, q.same_vote, q.sent_more)
        (tells_all n.term n.voted_for n.sent q.new_sent q.no_grants)

  abbrev VoterVotes : Voter → Type 0
  VoterVotes v = Votes v.term v.voted_for v.sent

  Step-Votes : {v w : Voter} → Step own v w → VoterVotes v → VoterVotes w
  Step-Votes {v} (tells p h) i = push-Votes p (λ t e. cc (h, e)) i
  Step-Votes {v} (learns t lt) i = Votes-later t none lt i
  Step-Votes {v} (runs t lt) i = Votes-later t (some own) lt i
  Step-Votes {v} (grants p free e) i =
      push-Votes p (λ t e'. (cc (e, e'), refl))
        (elim free [
          | inl unused ↦ Votes-cast (some p.dest) (rw unused at i)
          | inr again ↦ rw again at i
        ])

  -- One vote for each term is kept by steps.
  pub Steps-OneVote : {v w : Voter} → Steps own v w → VoterVotes v → VoterVotes w
  Steps-OneVote rests i = i
  Steps-OneVote (then_steps s last) i = Step-Votes last (Steps-OneVote s i)

  Step-Onward : {v w : Voter} → Step own v w → Onward v w
  Step-Onward {v} (tells p h) = record { term_up = omega arith; vote_stands = λ d e k. k }
  Step-Onward {v} (learns t lt) = record {
    term_up = omega arith;
    vote_stands = λ d e k. absurd (omega (arith, lt, ap pos_part e, ap neg_part e));
  }
  Step-Onward {v} (runs t lt) = record {
    term_up = omega arith;
    vote_stands = λ d e k. absurd (omega (arith, lt, ap pos_part e, ap neg_part e));
  }
  Step-Onward {v} (grants p free h) = record {
    term_up = omega arith;
    vote_stands = λ d e k. elim free [ inl unused ↦ cc | inr again ↦ cc ];
  }

  Onward-trans : {v w x : Voter} → Onward v w → Onward w x → Onward v x
  Onward-trans {v} {w} {x} p q = record {
    term_up = omega (arith, p.term_up, q.term_up);
    vote_stands = λ d e k.
        let between : w.term ≡ v.term =
          eq_of_parts _ _ (omega (arith, p.term_up, q.term_up, ap pos_part e, ap neg_part e)) in
        q.vote_stands d (e ∙ sym between) (p.vote_stands d between k);
  }

  pub Steps-Onward : {v w : Voter} → Steps own v w → Onward v w
  Steps-Onward {v} rests = record { term_up = omega arith; vote_stands = λ d e k. k }
  Steps-Onward (then_steps s last) = Onward-trans (Steps-Onward s) (Step-Onward last)
