-- ===== src/Update/Keeps.antt =====
-- The proof rule for an invariant of the node alone: each of the three cycles keeps it, and so does
-- the look at the queue, so Node::start keeps it.
use raft_algorep.Base.{Bool, true, false, List, Fault, Outcome, Ends, IfReturns, IfReturns-mono}
use raft_algorep.Config.{GlobalConfig}
use raft_algorep.Rpc.{RpcResponse}
use raft_algorep.Node.{Node, State, follower, leader, candidate}
use raft_algorep.Cycle.{Cycle, CycleClass}
use raft_algorep.Follower.{follower_cycle}
use raft_algorep.Candidate.{candidate_cycle}
use raft_algorep.Leader.{leader_cycle}
use raft_algorep.Update.{update, class_of, new_cycle, peek, turn, start}
use raft_algorep.Update.Rule.{Rule, Split, update-Ends, start-Ends}

-- Every fault is allowed.
abbrev pub Any : Fault → Type 0
Any e = Unit {0}

module _ (Inv : Node → Type 0) where
  abbrev pub Holds : Cycle → Type 0
  Holds c = Inv c.node

  abbrev pub After : Bool × Cycle → Type 0
  After r = Holds r.1

  -- A handler that keeps the invariant keeps it whether it leaves the cycle or not.
  pub both : (m : Outcome (Bool × Cycle)) → IfReturns After m → Ends Any (Split Holds Holds) m
  both m h = IfReturns-mono After (Split Holds Holds) m h either
    where
      either : (r : Bool × Cycle) → After r → Split Holds Holds r
      either (true, c) w = w
      either (false, c) w = w

  abbrev pub KeepsRule : GlobalConfig → (RpcResponse → Type 0) → CycleClass → Type 0
  KeepsRule g M cls = Rule g Any M cls Holds Holds Holds Holds Inv

  module _ (g : GlobalConfig) (M : RpcResponse → Type 0)
      (looks : (n : Node) → Inv n → Inv (peek g n)) (follows : KeepsRule g M follower_cycle)
      (leads : KeepsRule g M (leader_cycle g)) (runs : KeepsRule g M (candidate_cycle g)) where
    turn-Keeps : (stale : State) (n : Node) → Inv n → Ends Any Inv (turn g stale n)
    unfolding turn new_cycle
    turn-Keeps stale n h = by_state (peek g n).state
      where
        c : Cycle
        c = new_cycle g stale (peek g n)

        by_state : (s : State) → Ends Any Inv (update g (class_of g s) c)
        by_state follower = unfold class_of in update-Ends g Any M follows tt c (looks n h)
        by_state leader = unfold class_of in update-Ends g Any M leads tt c (looks n h)
        by_state candidate = unfold class_of in update-Ends g Any M runs tt c (looks n h)

    pub start-Keeps : (stales : List State) (n : Node) → Inv n → IfReturns Inv (start g stales n)
    start-Keeps = start-Ends g Any Inv turn-Keeps
