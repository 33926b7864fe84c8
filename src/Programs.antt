-- ===== src/Programs.antt =====
-- src/main/wc.go and src/main/ii.go: the map and reduce functions, and whole sequential jobs of them.
pub mod Words
pub mod WordCount
pub mod InvertedIndex
pub mod Main
pub mod Totals
pub mod Samples
