-- ===== src/Gossip.antt =====
-- The gossip node of project/gossip: messages, the store, the node's handlers, and the proofs.
pub mod Defs
pub mod Store
pub mod Node
pub mod Network
pub mod Requests
pub mod Transport
pub mod Daemon
pub mod Samples
