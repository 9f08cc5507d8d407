-- ===== src/Node/Quiet.antt =====
-- A step of a server that casts no vote: the term, the vote and the read-again queue stay, and what
-- is sent grants nothing. Most handlers are such steps.
use raft_algorep.Base.{
  ℤ, List, [], ◌∷◌, ◌++◌, append-nil, append_assoc, Option, none, some, if◌then◌else◌, All,
  All-append, ◌≡◌, refl, sym, ◌∙◌, ap, ℕ,
}
use raft_algorep.Rpc.{
  Rpc, request_vote, request_vote_response, append_entries, append_entries_response, request_leader,
  request_leader_response, request_client, request_client_response, controller_request, Packet,
}
use raft_algorep.Node.{Node, send_rpc}

-- The term in which a message grants a vote, if it grants one.
abbrev pub grant_term : Rpc → Option ℤ
grant_term (request_vote_response m) = if m.vote_granted then some m.term else none
grant_term (request_vote m) = none
grant_term (append_entries m) = none
grant_term (append_entries_response m) = none
grant_term request_leader = none
grant_term (request_leader_response m) = none
grant_term (request_client m) = none
grant_term (request_client_response m) = none
grant_term (controller_request m) = none

abbrev pub GrantsNothing : Packet → Type 0
GrantsNothing p = grant_term p.rpc ≡ none

pub record Quiet (n n' : Node) : Type 0 where
  pub same_term : n'.term ≡ n.term
  pub same_vote : n'.voted_for ≡ n.voted_for
  pub same_reciever : n'.rpc_reciever ≡ n.rpc_reciever
  pub new_sent : List Packet
  pub sent_more : n'.sent ≡ n.sent ++ new_sent
  pub no_grants : All GrantsNothing new_sent

pub Quiet-refl :
    (n n' : Node)
    → n'.term ≡ n.term
    → n'.voted_for ≡ n.voted_for
    → n'.rpc_reciever ≡ n.rpc_reciever
    → n'.sent ≡ n.sent
    → Quiet n n'
Quiet-refl n n' t v r s = record {
  same_term = t;
  same_vote = v;
  same_reciever = r;
  new_sent = [];
  sent_more = s ∙ sym (append-nil n.sent);
  no_grants = tt;
}

pub Quiet-trans : {n n' n'' : Node} → Quiet n n' → Quiet n' n'' → Quiet n n''
Quiet-trans {n} {n'} {n''} q r = record {
  same_term = r.same_term ∙ q.same_term;
  same_vote = r.same_vote ∙ q.same_vote;
  same_reciever = r.same_reciever ∙ q.same_reciever;
  new_sent = q.new_sent ++ r.new_sent;
  sent_more =
      r.sent_more
      ∙ ap (λ l. l ++ r.new_sent) q.sent_more
      ∙ append_assoc n.sent q.new_sent r.new_sent;
  no_grants = All-append GrantsNothing q.new_sent r.new_sent q.no_grants r.no_grants;
}

pub send_rpc-Quiet :
    (rpc : Rpc) (dest : ℕ) (n : Node) → grant_term rpc ≡ none → Quiet n (send_rpc rpc dest n)
unfolding send_rpc
send_rpc-Quiet rpc dest n h = record {
  same_term = refl;
  same_vote = refl;
  same_reciever = refl;
  new_sent = record { rpc = rpc; dest = dest } ∷ [];
  sent_more = refl;
  no_grants = (h, tt);
}
