-- ===== src/Node/Logged.antt =====
-- The shape of a server's log, as an invariant: where each entry stands, and how far the commit
-- index reaches.
use raft_algorep.Base.{
  ℕ, zero, suc, ◌+◌, ℤ, pos, ◌<ℤ◌, List, [], ◌∷◌, ◌++◌, length, take, ◌≡◌, arith, subst,
}
use raft_algorep.Config.{GlobalConfig, nb_node}
use raft_algorep.Rpc.{Entry}
use raft_algorep.Node.{Node}
use raft_algorep.Follower.Append.{IsIndexedFrom}

pub record Logged (slots : ℕ) (logs : List Entry) (commit : ℤ) (matched next : List ℤ)
    : Type 0 where
  pub indexed : IsIndexedFrom 0 logs
  pub in_log : commit <ℤ pos (length logs)
  pub match_slots : length matched ≡ slots
  pub next_slots : length next ≡ slots

-- Each entry stands at its index, the commit index is below the length of the log, and there is a
-- match index and a next index for each node.
abbrev pub WellLogged : GlobalConfig → Node → Type 0
WellLogged g n = Logged (nb_node g) n.logs n.commit_index n.match_index n.next_index

pub IsIndexed-append :
    (i : ℕ) (xs ys : List Entry)
    → IsIndexedFrom i xs
    → IsIndexedFrom (i + length xs) ys
    → IsIndexedFrom i (xs ++ ys)
IsIndexed-append i [] ys h k = subst (λ j. IsIndexedFrom j ys) (omega arith) k
IsIndexed-append i (x ∷ xs) ys h k =
    (h.0, IsIndexed-append (suc i) xs ys h.1 (subst (λ j. IsIndexedFrom j ys) (omega arith) k))

pub IsIndexed-take : (k i : ℕ) (xs : List Entry) → IsIndexedFrom i xs → IsIndexedFrom i (take k xs)
IsIndexed-take zero i xs h = tt
IsIndexed-take (suc k) i [] h = tt
IsIndexed-take (suc k) i (x ∷ xs) h = (h.0, IsIndexed-take k (suc i) xs h.1)
