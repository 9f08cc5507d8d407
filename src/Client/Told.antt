-- ===== src/Client/Told.antt =====
-- The leader that a client is told: the first that an answer names.
use raft_algorep.Base.{
  ℕ, Bool, true, false, List, [], ◌∷◌, Option, none, some, if◌then◌else◌, ◌≡◌, ◌≢◌, refl, sym, ap,
  ◌∙◌, subst,
}
use raft_algorep.Rpc.{Rpc, request_leader_response, RpcResponse, RequestLeaderResponse}
use raft_algorep.Reciever.{recv}
use raft_algorep.Client.{leader_of}

-- A node's answer that names a leader.
abbrev pub answer : ℕ → ℕ → Option RpcResponse
answer leader sender = some (record {
  rpc = request_leader_response (record { leader_id = leader; success = true });
  sender_id = sender;
})

-- `leader` is named by the first answer that names one, among what arrives.
pub data Told (leader : ℕ) : List (Option RpcResponse) → Type 0 where
  told : (sender : ℕ) (rest : List (Option RpcResponse)) → Told leader (answer leader sender ∷ rest)
  other :
      (a : Option RpcResponse) (rest : List (Option RpcResponse))
      → ((l sender : ℕ) → a ≢ answer l sender)
      → Told leader rest
      → Told leader (a ∷ rest)

named-Told :
    (r : RequestLeaderResponse) (sender l : ℕ) (rest : List (Option RpcResponse))
    → (if r.success then some r.leader_id else none) ≡ some l
    → Told l (some (record { rpc = request_leader_response r; sender_id = sender }) ∷ rest)
named-Told r sender l rest e =
    subst
      (λ x. Told l (some (record { rpc = request_leader_response x; sender_id = sender }) ∷ rest))
      (same r.success refl e) (told sender rest)
  where
    same :
        (b : Bool)
        → r.success ≡ b
        → (if b then some r.leader_id else none) ≡ some l
        → record { leader_id = l; success = true } ≡ r
    same true q e =
        let id : r.leader_id ≡ l = cc in λ i. record { leader_id = sym id i; success = sym q i }
    same false q e = cc

answered-Told :
    (rpc : Rpc) (sender l : ℕ) (rest : List (Option RpcResponse))
    → leader_of (some (record { rpc = rpc; sender_id = sender })) ≡ some l
    → Told l (some (record { rpc = rpc; sender_id = sender }) ∷ rest)
unfolding leader_of
answered-Told (request_leader_response r) sender l rest e = named-Told r sender l rest e
answered-Told _ sender l rest e = cc

pub Told-now :
    (net : List (Option RpcResponse)) (l : ℕ) → leader_of (recv net).0 ≡ some l → Told l net
unfolding leader_of
Told-now [] l e = cc
Told-now (none ∷ rest) l e = cc
Told-now (some m ∷ rest) l e = answered-Told m.rpc m.sender_id l rest e

not_named : (a : Option RpcResponse) → leader_of a ≡ none → (l sender : ℕ) → a ≢ answer l sender
unfolding leader_of
not_named a e l sender same = let x : none ≡ some l = sym e ∙ ap leader_of same in cc

pub Told-later :
    (net : List (Option RpcResponse)) (l : ℕ)
    → leader_of (recv net).0 ≡ none
    → Told l (recv net).1
    → Told l net
Told-later [] l e t = t
Told-later (a ∷ rest) l e t = other a rest (not_named a e) t
