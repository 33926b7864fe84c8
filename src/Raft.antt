-- ===== src/Raft.antt =====
-- The Raft server of src/raft: its state and messages, one module per group of handlers, and the
-- proofs about them.
pub mod Defs
pub mod Persist
pub mod Log
pub mod Vote
pub mod Election
pub mod Heartbeat
pub mod Append
pub mod Commit
pub mod Replicate
pub mod Client
pub mod Valid
pub mod Durable
pub mod Apply
pub mod Server
pub mod Cluster
pub mod Replicas
mod Samples
