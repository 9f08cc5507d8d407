-- ===== src/Node.antt =====
-- src/runners/node.hh and node.cc: the state of a server, without the loop that drives it.
pub mod Logged
pub mod Quiet
pub mod Sourced
pub mod Votes
pub mod Voter
use raft_algorep.Base.{
  ℕ, ℤ, pos, minus_one, Bool, false, List, [], ◌∷◌, ◌++◌, Option, none, length, replicate,
}
use raft_algorep.Config.{GlobalConfig, nb_node}
use raft_algorep.Rpc.{Entry, Rpc, RpcResponse, Packet}
use raft_algorep.Reciever.{RpcRecieverReinjecter}
use raft_algorep.Clock.{SpeedType, high}

pub data State : Type 0 where
  follower leader candidate : State

-- The last two fields are the outside world: the packets given to MPI so far, and the lines of
-- the file node_<rank>.log.
pub record Node : Type 0 where
  pub state : State
  pub logs : List Entry
  pub rpc_reciever : RpcRecieverReinjecter
  pub term : ℤ
  pub voted_for : Option ℕ
  pub leader_id : Option ℕ
  pub match_index : List ℤ
  pub next_index : List ℤ
  pub commit_index : ℤ
  pub crash : Bool
  pub clock : SpeedType
  pub sent : List Packet
  pub saved : List Entry

-- The constructor, which also removes an old node_<rank>.log; `net` is what MPI will deliver.
unfoldable pub new_node : GlobalConfig → List (Option RpcResponse) → Node
unfolding nb_node
new_node g net = record {
  state = follower;
  logs = [];
  rpc_reciever = record { reinjected_messages = []; network = net };
  term = pos 0;
  voted_for = none;
  leader_id = none;
  match_index = replicate (nb_node g) minus_one;
  next_index = replicate (nb_node g) (pos 0);
  commit_index = minus_one;
  crash = false;
  clock = high;
  sent = [];
  saved = [];
}

unfoldable pub save_commit : Entry → Node → Node
save_commit e n = record n { saved = n.saved ++ e ∷ [] }

unfoldable pub send_rpc : Rpc → ℕ → Node → Node
send_rpc rpc dest n = record n { sent = n.sent ++ record { rpc = rpc; dest = dest } ∷ [] }

unfoldable pub init_leader : Node → Node
init_leader n = record n {
  match_index = replicate (length n.match_index) minus_one;
  next_index = replicate (length n.next_index) (pos (length n.logs));
}
