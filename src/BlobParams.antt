-- ===== src/BlobParams.antt =====
-- internal/blobparams/blobparams.go: which blob parameters are active at a block's time.
-- The chain configurations and the fork tests of go-ethereum are the parameter `Chain.Geth`.
pub mod Chain
pub mod Build
pub mod Resolve
pub mod Boundaries
pub mod Slots
pub mod Active
pub mod Newest
pub mod Tests
