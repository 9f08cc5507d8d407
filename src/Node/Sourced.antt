-- ===== src/Node/Sourced.antt =====
-- The commands that a server holds, and the clients that they are from: in its log, in its file, in
-- the packets that it has sent and in the messages that it will read.
use raft_algorep.Base.{ℕ, List, [], ◌∷◌, Option, none, some, Text, All, All-append}
use raft_algorep.Rpc.{Entry, Rpc, append_entries, request_client, RpcResponse, Packet}
use raft_algorep.Reciever.{RpcRecieverReinjecter}
use raft_algorep.Reciever.Fifo.{ToCome}
use raft_algorep.Node.{Node, save_commit, send_rpc}

module _ (P : Text → ℕ → Type 0) where
  abbrev pub HasCommand : Entry → Type 0
  HasCommand e = P e.cmd e.client_id

  abbrev pub Commands : List Entry → Type 0
  Commands es = All HasCommand es

  -- Each command that a message of that sender carries.
  abbrev pub MessageOf : Rpc → ℕ → Type 0
  MessageOf (append_entries m) sender = Commands m.entries
  MessageOf (request_client message) sender = P message sender
  MessageOf _ sender = Unit

  abbrev pub PacketOf : Packet → Type 0
  PacketOf p = (sender : ℕ) → MessageOf p.rpc sender

  abbrev pub ArrivalOf : Option RpcResponse → Type 0
  ArrivalOf none = Unit
  ArrivalOf (some m) = MessageOf m.rpc m.sender_id

  pub record Carries (logs saved : List Entry) (sent : List Packet) (r : RpcRecieverReinjecter)
      : Type 0 where
    pub in_log : Commands logs
    pub in_file : Commands saved
    pub in_sent : All PacketOf sent
    pub to_come : ToCome ArrivalOf r

  abbrev pub Sourced : Node → Type 0
  Sourced n = Carries n.logs n.saved n.sent n.rpc_reciever

  pub send_rpc-Sourced :
      (rpc : Rpc) (dst : ℕ) (n : Node)
      → ((sender : ℕ) → MessageOf rpc sender)
      → Sourced n
      → Sourced (send_rpc rpc dst n)
  unfolding send_rpc
  send_rpc-Sourced rpc dst n h s = record {
    in_log = s.in_log;
    in_file = s.in_file;
    in_sent = All-append PacketOf n.sent (record { rpc = rpc; dest = dst } ∷ []) s.in_sent (h, tt);
    to_come = s.to_come;
  }

  pub save_commit-Sourced :
      (e : Entry) (n : Node) → HasCommand e → Sourced n → Sourced (save_commit e n)
  unfolding save_commit
  save_commit-Sourced e n h s = record {
    in_log = s.in_log;
    in_file = All-append HasCommand n.saved (e ∷ []) s.in_file (h, tt);
    in_sent = s.in_sent;
    to_come = s.to_come;
  }

  -- The server with another log.
  pub logs-Sourced :
      (logs : List Entry) (n : Node)
      → Commands logs
      → Sourced n
      → Sourced (record n { logs = logs })
  logs-Sourced logs n h s = record {
    in_log = h;
    in_file = s.in_file;
    in_sent = s.in_sent;
    to_come = s.to_come;
  }

  -- The server with another queue.
  pub reciever-Sourced :
      (r : RpcRecieverReinjecter) (n : Node)
      → ToCome ArrivalOf r
      → Sourced n
      → Sourced (record n { rpc_reciever = r })
  reciever-Sourced r n h s = record {
    in_log = s.in_log;
    in_file = s.in_file;
    in_sent = s.in_sent;
    to_come = h;
  }
