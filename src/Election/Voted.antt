-- ===== src/Election/Voted.antt =====
-- The vote of a server for one candidate of a term.
use raft_algorep.Base.{
  ℕ, zero, suc, ℤ, List, [], ◌∷◌, some, All-get, get_elem?, ◌≡◌, sym, ◌∙◌, ◌⊎◌, inl, inr, arith, ap,
}
use raft_algorep.Rpc.{Packet}
use raft_algorep.Node.{Node}
use raft_algorep.Node.Quiet.{grant_term}
use raft_algorep.Node.Votes.{OneVote, SameVote, VotesAgree, Recorded}

-- The server has given its vote of the term to `dest`: it has sent the grant, or has recorded the
-- vote.
abbrev pub VotedFor : Node → ℤ → ℕ → Type 0
VotedFor n t dest =
    ((i : ℕ) × (p : Packet) × (get_elem? n.sent i ≡ some p)
      × (grant_term p.rpc ≡ some t)
      × (p.dest ≡ dest))
    ⊎ ((n.term ≡ t) × (n.voted_for ≡ some dest))

agree_at :
    (ps : List Packet) (i j : ℕ) (p q : Packet) (t : ℤ)
    → VotesAgree ps
    → get_elem? ps i ≡ some p
    → get_elem? ps j ≡ some q
    → grant_term p.rpc ≡ some t
    → grant_term q.rpc ≡ some t
    → p.dest ≡ q.dest
agree_at [] i j p q t h p_at q_at p_grants q_grants = cc
agree_at (x ∷ ps) zero zero p q t h p_at q_at p_grants q_grants = cc
agree_at (x ∷ ps) zero (suc j) p q t h p_at q_at p_grants q_grants =
    let x_p : x ≡ p = cc in All-get (SameVote p) ps j q (rw (← x_p) h.0) q_at t p_grants q_grants
agree_at (x ∷ ps) (suc i) zero p q t h p_at q_at p_grants q_grants =
    let x_q : x ≡ q = cc in
    sym (All-get (SameVote q) ps i p (rw (← x_q) h.0) p_at t q_grants p_grants)
agree_at (x ∷ ps) (suc i) (suc j) p q t h p_at q_at p_grants q_grants =
    agree_at ps i j p q t h.1 p_at q_at p_grants q_grants

recorded_at :
    (n : Node) (i : ℕ) (p : Packet) (dest : ℕ)
    → OneVote n
    → get_elem? n.sent i ≡ some p
    → grant_term p.rpc ≡ some n.term
    → n.voted_for ≡ some dest
    → p.dest ≡ dest
recorded_at n i p dest v at grants voted =
    elim (All-get (Recorded n.term n.voted_for) n.sent i p v.recorded at n.term grants) [
      | inl earlier ↦ absurd (omega (arith, earlier))
      | inr (same, kept) ↦ cc
    ]

-- A server gives the vote of a term to one candidate.
pub VotedFor-unique :
    (n : Node) (t : ℤ) (d e : ℕ) → OneVote n → VotedFor n t d → VotedFor n t e → d ≡ e
VotedFor-unique n t d e v (inl (i, p, p_at, p_grants, p_to)) (inl (j, q, q_at, q_grants, q_to)) =
    sym p_to ∙ agree_at n.sent i j p q t v.agree p_at q_at p_grants q_grants ∙ q_to
VotedFor-unique n t d e v (inl (i, p, p_at, p_grants, p_to)) (inr (now, voted)) =
    sym p_to ∙ recorded_at n i p e v p_at (p_grants ∙ ap some (sym now)) voted
VotedFor-unique n t d e v (inr (now, voted)) (inl (j, q, q_at, q_grants, q_to)) =
    sym (recorded_at n j q d v q_at (q_grants ∙ ap some (sym now)) voted) ∙ q_to
VotedFor-unique n t d e v (inr (now, voted)) (inr (now', voted')) = cc
