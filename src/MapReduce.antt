-- ===== src/MapReduce.antt =====
-- src/mapreduce: the map and reduce tasks and the merge of their results, and the proofs.
pub mod Defs
pub mod Names
pub mod Map
pub mod Reduce
pub mod Phase
pub mod Master
pub mod Worker
pub mod Schedule
pub mod Samples
