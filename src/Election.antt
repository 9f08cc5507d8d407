-- ===== src/Election.antt =====
-- Elections over several servers: node.cc, followerCycle.cc and candidateCycle.cc together.
pub mod Leader
pub mod Polls
pub mod Quorum
pub mod Safety
pub mod Voted
pub mod Wins
