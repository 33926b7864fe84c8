-- ===== src/Raft/Samples.antt =====
-- Concrete servers of src/raft, and the theorems about them at these.
pub mod Values
mod Witnesses
mod Clusters
mod Logs
