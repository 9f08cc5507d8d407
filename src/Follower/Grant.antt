-- ===== src/Follower/Grant.antt =====
-- When a follower grants its vote.
use raft_algorep.Base.{
  ℕ, pos, ◌+ℤ◌, ◌<ℤ◌, ◌≤ℤ◌, ltb_ℤ, ◌==◌, ==_iff, eq_ℤ_iff, +ℤ_parts, -ℤ_parts, Bool, true, false,
  Bool-cases, [], ◌∷◌, ◌++◌, Option, none, some, get_last?, length, if◌then◌else◌, ◌≡◌, ◌↔◌, ◌⊎◌,
  refl, inl, inr, arith, not_ltb→le,
}
use raft_algorep.Rpc.{Entry, request_vote_response, RequestVote, Packet}
use raft_algorep.Node.{Node, send_rpc}
use raft_algorep.Follower.{reply_vote, is_up_to_date, vote, handle_request_vote}

-- The candidate's log, given by the term and the index of its last entry, is at least as recent as
-- a log of `size` entries that ends in `last`: a later last term, or the same and no shorter.
abbrev pub UpToDate : Option Entry → ℕ → RequestVote → Type 0
UpToDate none size m = Unit
UpToDate (some last) size m =
    (last.term <ℤ m.last_log_term)
    ⊎ ((last.term ≡ m.last_log_term) × (pos size ≤ℤ m.last_log_index +ℤ pos 1))

is_up_to_date_lem :
    (o : Option Entry) (size : ℕ) (m : RequestVote)
    → (is_up_to_date o size m ≡ true) ↔ UpToDate o size m
unfolding is_up_to_date
is_up_to_date_lem none size m = ((λ e. tt), (λ u. refl))
is_up_to_date_lem (some last) size m = ground (
  arith,
  eq_ℤ_iff last.term m.last_log_term,
  -ℤ_parts (pos size) (pos 1),
  +ℤ_parts m.last_log_index (pos 1),
)

-- The rules of a vote.
abbrev pub Deserves : ℕ → RequestVote → Node → Type 0
Deserves sender m n =
    (n.term ≤ℤ m.term)
    × ((n.voted_for ≡ some sender)
        ⊎ ((n.voted_for ≡ none) × UpToDate (get_last? n.logs) (length n.logs) m))

abbrev pub vote_reply : ℕ → Bool → Node → Packet
vote_reply sender granted n = record {
  rpc = request_vote_response (record { term = n.term; vote_granted = granted });
  dest = sender;
}

-- The node after its answer.
abbrev pub answered : ℕ → Bool → Node → Node
answered sender granted n = record n {
  voted_for = if granted then some sender else n.voted_for;
  sent = n.sent ++ vote_reply sender granted n ∷ [];
}

abbrev Answers : ℕ → RequestVote → Node → Node → Type 0
Answers sender m n n' =
    (granted : Bool) × (n' ≡ answered sender granted n) × ((granted ≡ true) ↔ Deserves sender m n)

vote-Answers :
    (o : Option ℕ) (sender : ℕ) (m : RequestVote) (n : Node)
    → n.voted_for ≡ o
    → n.term ≤ℤ m.term
    → Answers sender m n (vote o sender m n)
unfolding vote reply_vote send_rpc
vote-Answers (some earlier) sender m n e h = elim (Bool-cases (earlier == sender)) [
  | inl again ↦ (true, ground (arith, ==_iff earlier sender), ground (arith, ==_iff earlier sender))
  | inr other ↦ (false, ground arith, ground (arith, ==_iff earlier sender))
]
vote-Answers none sender m n e h =
    elim (Bool-cases (is_up_to_date (get_last? n.logs) (length n.logs) m)) [
      | inl fresh ↦ (
        true,
        rw fresh refl,
        (
          (λ _. (h, inr (e, (is_up_to_date_lem (get_last? n.logs) (length n.logs) m).0 fresh))),
          (λ _. refl),
        ),
      )
      | inr stale ↦ (
        false,
        rw stale refl,
        ground (arith, is_up_to_date_lem (get_last? n.logs) (length n.logs) m),
      )
    ]

-- A vote request of any kind gets exactly one answer, with the follower's term. It is a grant
-- exactly if the request is of no earlier term and the vote is already the sender's, or is free
-- and the candidate's log is at least as up to date. A grant records the sender; otherwise
-- the vote stays. Nothing else changes.
pub handle_request_vote-Answers :
    (sender : ℕ) (m : RequestVote) (n : Node)
    → (granted : Bool) × (handle_request_vote sender m n ≡ answered sender granted n)
      × ((granted ≡ true) ↔ Deserves sender m n)
unfolding handle_request_vote reply_vote send_rpc
handle_request_vote-Answers sender m n = elim (Bool-cases (ltb_ℤ m.term n.term)) [
  | inl old ↦ (false, rw old refl, ground arith)
  | inr current ↦ rw current (vote-Answers n.voted_for sender m n refl (not_ltb→le _ _ current))
]
