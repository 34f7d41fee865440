-- ===== src/Raft.antt =====
-- internal/raft: the consensus node. Its state and constructor are in Raft/Node.antt, the clock in
-- Raft/Timer.antt; each other module is a group of the node's methods, with its proofs below it.
pub mod Node
pub mod Timer
pub mod Kept
pub mod Apply
pub mod Commit
pub mod Send
pub mod Term
pub mod Election
pub mod Vote
pub mod Append
pub mod Propose
pub mod Run
pub mod Steps
pub mod Advance
pub mod Durable
pub mod Office
pub mod Proceeds
pub mod Tenure
pub mod Records
