-- ===== src/Raft.antt =====
-- src/coordinator/raft_node.rs: the consensus of the coordinators.
pub mod Node
pub mod Handlers
pub mod Rounds
pub mod Voting
pub mod Commit
pub mod Quorum
pub mod Faults
pub mod Service
pub mod Election
mod Tests
