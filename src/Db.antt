-- ===== src/Db.antt =====
-- internal/db: the queries on `indexed_blocks` whose answers the indexer acts on.
pub mod Blocks
pub mod FirstGap
pub mod Missing
pub mod Schedule
mod Tests
