-- ===== src/Lib.antt =====
-- A verification library for Raft_Algorep, a Raft cluster of MPI processes.
--
-- The program runs one process for each rank: a controller (rank 0), the nodes (the servers) and
-- the clients. A node is a loop, Node::start, that runs one cycle after another: the cycle of a
-- follower, of a candidate or of a leader, by the node's state. A cycle sends its messages, then
-- handles what arrives until a handler leaves it or a receive times out, and may choose the next
-- state. Nodes exchange RequestVote and AppendEntries; clients ask for the leader and send it
-- entries; the controller crashes, recovers and slows processes.
--
-- Files and code:
--   Base         shared names, Boolean tests, `int` as integers, lists, and the outcomes of calls
--   Config       src/config/globalConfig
--   Rpc          src/rpc/*.hh and src/runners/node/entry: the messages and the log entry; its
--                children Codec and Reader write them to JSON and construct them from it
--   Reciever     src/wrappers/mpi/rpcRecieverReinjecter: messages to be read again
--   Clock        src/utils/clock: the speeds
--   Json         the parameter that stands for nlohmann::json, with its laws
--   Mpi          src/wrappers/mpi_include: sending and receiving the text of a message
--   Node         src/runners/node.hh and the small functions of node.cc: the state of a server; its
--                child Voter is the abstract voter that a server refines
--   Cycle        src/runners/node/cycle/cycle: check_always_should_stop, the controller's
--                requests and the crash loop
--   Follower     src/runners/node/cycle/followerCycle
--   Candidate    src/runners/node/cycle/candidateCycle
--   Leader       src/runners/node/cycle/leaderCycle
--   Update       Node::update and Node::start of src/runners/node.cc; its children Rule
--                and Keeps are the proof rules for the invariants of a server
--   Election     several servers: majorities, the votes behind a candidate's count, and the run of
--                a server from silence to leader
--   Cluster      which messages can arrive at a server, as an inductive type over the runs of all
--                servers, with loss, delay and repetition
--   Replication  a leader and a follower together
--   Entries      operator<< of src/runners/node/entry.cc and the file of Node::save_commit: the
--                text of a saved entry
--   Client       src/runners/client/client: the commands of a client and its search for the leader
--   Controller   src/runners/controller/controller and src/utils/string: the typed commands, as the
--                packets that each sends, and the reading of ranks
--   Control      a command from the controller's line to the process that gets it
--   Main         src/main.cc: the counts of processes, the checks on them, the roles, and the
--                command file
--   Tests        the theorems at concrete inputs and runs: one from election to commit, one in
--                which a late vote makes two leaders of one term, and one of two servers together
--
-- How the code is rendered. A class is a record and a method a function to the new record; a call
-- that can stop the process returns an Outcome, whose faults are the assertions, the exceptions
-- of the containers, of nlohmann::json and of MPI::Recv_Rpc, undefined behaviour and a wait
-- without end. An assertion stops the process, as in a build without NDEBUG. The three cycle
-- classes are values of the record CycleClass, through which Node::update calls them. What a
-- process sends and the lines of its node_<rank>.log are lists in the record Node. MPI and the
-- clock are the list `network`: the results of the receive calls to come, each a message or a
-- time-out. Signed `int` values are integers of any size; the increments of a term and of a vote
-- count are checked for overflow, while log indices are bounded by the length of a log in memory.
-- Ranks are natural numbers. The results of std::rand and the lines typed are lists. What the
-- storage of an empty std::optional or of an uninitialised field happens to hold is a parameter.
--
-- Loops with fuel: the receive loops and the crash loop take off a message in each round, and are
-- given one round more than there are messages to come; the commit loop commits an entry in each
-- round, and is given two rounds more than the log has entries.
--
-- Two views of receiving: Mpi renders MPI::Recv_Rpc and MPI::Recv_Rpc_Timeout on bytes, over what
-- each probe finds and the time that the clock shows; the processes read the list `network` of
-- what such calls return. A rank in a text that is negative has no place in the model, where ranks
-- are natural numbers: reading it ends in a fault of its own. main works on the counts as `int`s.
--
-- Not modelled: console output and spdlog lines, how long a process sleeps or waits where nothing
-- depends on it, MPI itself, the operator<< of a vector of entries, which only the console
-- uses, and the includes and stack traces of src/wrappers/debug.
pub mod Base
pub mod Config
pub mod Rpc
pub mod Reciever
pub mod Clock
pub mod Json
pub mod Mpi
pub mod Node
pub mod Cycle
pub mod Follower
pub mod Candidate
pub mod Leader
pub mod Update
pub mod Replication
pub mod Client
pub mod Controller
pub mod Control
pub mod Election
pub mod Entries
pub mod Cluster
pub mod Main
mod Tests
