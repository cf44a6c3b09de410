-- ===== src/Indexer.antt =====
-- internal/indexer: the indexing engine of one network.
pub mod CommitOrder
pub mod Reorg
pub mod Walker
pub mod Resume
pub mod Workers
pub mod Candidates
pub mod Startup
pub mod Schedule
mod Tests
