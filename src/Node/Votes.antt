-- ===== src/Node/Votes.antt =====
-- One vote for each term, as an invariant of the packets that a server has sent.
use raft_algorep.Base.{
  ℕ, ℤ, ◌<ℤ◌, pos_part, neg_part, List, [], ◌∷◌, ◌++◌, append-nil, append_assoc, Option, none, some,
  All, All-append, ◌≡◌, ap, ◌⊎◌, inl, inr, arith,
}
use raft_algorep.Rpc.{Rpc, Packet}
use raft_algorep.Node.{Node, send_rpc}
use raft_algorep.Node.Quiet.{grant_term, GrantsNothing, Quiet}

-- Each vote sent is for an earlier term, or for this term and the one to whom it is recorded.
abbrev pub Recorded : ℤ → Option ℕ → Packet → Type 0
Recorded term voted p =
    (t : ℤ) → grant_term p.rpc ≡ some t → (t <ℤ term) ⊎ ((t ≡ term) × (voted ≡ some p.dest))

-- Two packets do not give the vote of one term to two nodes.
abbrev pub SameVote : Packet → Packet → Type 0
SameVote p q = (t : ℤ) → grant_term p.rpc ≡ some t → grant_term q.rpc ≡ some t → p.dest ≡ q.dest

abbrev pub VotesAgree : List Packet → Type 0
VotesAgree [] = Unit
VotesAgree (p ∷ ps) = All (SameVote p) ps × VotesAgree ps

pub record Votes (term : ℤ) (voted : Option ℕ) (sent : List Packet) : Type 0 where
  pub recorded : All (Recorded term voted) sent
  pub agree : VotesAgree sent

abbrev pub OneVote : Node → Type 0
OneVote n = Votes n.term n.voted_for n.sent

All-mono {ℓ} :
    {A : Type ℓ} (P Q : A → Type 0) (xs : List A) → ((x : A) → P x → Q x) → All P xs → All Q xs
All-mono P Q [] h a = tt
All-mono P Q (x ∷ xs) h a = (h x a.0, All-mono P Q xs h a.1)

VotesAgree-append :
    (ps : List Packet) (q : Packet)
    → VotesAgree ps
    → All (λ p. SameVote p q) ps
    → VotesAgree (ps ++ q ∷ [])
VotesAgree-append [] q a s = (tt, tt)
VotesAgree-append (p ∷ ps) q a s =
    (All-append (SameVote p) ps (q ∷ []) a.0 (s.0, tt), VotesAgree-append ps q a.1 s.1)

-- A later term starts with every recorded vote in the past.
pub Votes-later :
    {term : ℤ} {voted : Option ℕ} {sent : List Packet} (later : ℤ) (voted' : Option ℕ)
    → term <ℤ later
    → Votes term voted sent
    → Votes later voted' sent
Votes-later {term} {voted} {sent} later voted' lt v = record {
  recorded =
      All-mono (Recorded term voted) (Recorded later voted') sent
        (λ p h t e. elim (h t e) [ inl b ↦ inl (omega arith) | inr (s, w) ↦ inl (rw s lt) ])
        v.recorded;
  agree = v.agree;
}

-- The first vote of a term.
pub Votes-cast :
    {term : ℤ} {sent : List Packet} (voted' : Option ℕ)
    → Votes term none sent
    → Votes term voted' sent
Votes-cast {term} {sent} voted' v = record {
  recorded =
      All-mono (Recorded term none) (Recorded term voted') sent
        (λ p h t e. elim (h t e) [ inl b ↦ inl b | inr (s, w) ↦ cc ]) v.recorded;
  agree = v.agree;
}

same_vote :
    {term : ℤ} {voted : Option ℕ} (p q : Packet)
    → Recorded term voted p
    → ((t : ℤ) → grant_term q.rpc ≡ some t → (t ≡ term) × (voted ≡ some q.dest))
    → SameVote p q
same_vote p q h k t e e' = elim (h t e) [
  | inl b ↦ let (s, w) = k t e' in absurd (omega (arith, ap pos_part s, ap neg_part s))
  | inr (s, w) ↦ let (s', w') = k t e' in cc
]

-- One more packet that grants nothing, or the vote that is recorded for this term.
pub push-Votes :
    {term : ℤ} {voted : Option ℕ} {sent : List Packet} (q : Packet)
    → ((t : ℤ) → grant_term q.rpc ≡ some t → (t ≡ term) × (voted ≡ some q.dest))
    → Votes term voted sent
    → Votes term voted (sent ++ q ∷ [])
push-Votes {term} {voted} {sent} q k v = record {
  recorded = All-append (Recorded term voted) sent (q ∷ []) v.recorded ((λ t e. inr (k t e)), tt);
  agree = VotesAgree-append sent q v.agree (
      All-mono (Recorded term voted) (λ p. SameVote p q) sent (λ p h. same_vote p q h k)
        v.recorded);
}

pub send_rpc-OneVote :
    (rpc : Rpc) (dest : ℕ) (n : Node)
    → ((t : ℤ) → grant_term rpc ≡ some t → (t ≡ n.term) × (n.voted_for ≡ some dest))
    → OneVote n
    → OneVote (send_rpc rpc dest n)
unfolding send_rpc
send_rpc-OneVote rpc dest n k v = push-Votes (record { rpc = rpc; dest = dest }) k v

append-Votes :
    (term : ℤ) (voted : Option ℕ) (sent more : List Packet)
    → All GrantsNothing more
    → Votes term voted sent
    → Votes term voted (sent ++ more)
append-Votes term voted sent [] a v = rw (append-nil sent) v
append-Votes term voted sent (p ∷ ps) a v =
    rw (← append_assoc sent (p ∷ []) ps)
      (append-Votes term voted (sent ++ p ∷ []) ps a.1 (push-Votes p (λ t e. cc (a.0, e)) v))

pub Quiet-OneVote : {n n' : Node} → Quiet n n' → OneVote n → OneVote n'
Quiet-OneVote {n} {n'} q v =
    rw (q.same_term, q.same_vote, q.sent_more)
      (append-Votes n.term n.voted_for n.sent q.new_sent q.no_grants v)
