-- ===== src/Follower/Votes.antt =====
-- A follower's vote, as a step of a voter.
use raft_algorep.Base.{ℕ, Bool, true, false, none, some, ◌⊎◌, inl, inr, ◌≡◌, refl}
use raft_algorep.Rpc.{RequestVote}
use raft_algorep.Node.{Node}
use raft_algorep.Node.Voter.{Steps, rests, then_steps, tells, grants, voter}
use raft_algorep.Follower.{handle_request_vote}
use raft_algorep.Follower.Grant.{Deserves, vote_reply, answered, handle_request_vote-Answers}

answered-Steps :
    (own sender : ℕ) (granted : Bool) (m : RequestVote) (n : Node)
    → (granted ≡ true → Deserves sender m n)
    → Steps own (voter n) (voter (answered sender granted n))
answered-Steps own sender false m n h = then_steps rests (tells (vote_reply sender false n) refl)
answered-Steps own sender true m n h =
    then_steps rests (grants (vote_reply sender true n) free refl)
  where
    free : (n.voted_for ≡ none) ⊎ (n.voted_for ≡ some sender)
    free = elim (h refl).1 [ inl again ↦ inr again | inr (unused, fresh) ↦ inl unused ]

pub handle_request_vote-Steps :
    (own sender : ℕ) (m : RequestVote) (n : Node)
    → Steps own (voter n) (voter (handle_request_vote sender m n))
handle_request_vote-Steps own sender m n =
    let (granted, answer, deserved) = handle_request_vote-Answers sender m n in
    rw answer (answered-Steps own sender granted m n deserved.0)
