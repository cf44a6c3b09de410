-- ===== src/Lib.antt =====
-- A model of the blob indexer: a service that walks the blocks of an Ethereum network, stores the
-- blobs, metrics and builders of each block in PostgreSQL, and serves them over HTTP and WebSocket.
-- Each network has one indexing engine. Its main loop queues block numbers; workers fetch a block,
-- compare its parent with the stored one, and commit it; a gap scanner queues failed blocks again.
-- A worker that sees another parent rewinds the database to the fork point and signals the main
-- loop, which queues the invalidated range again. The engine asks the table of indexed blocks where
-- it is incomplete, and the blob parameters which fork is active at a time. The WebSocket hub admits
-- clients up to its limits and passes on what the indexer stored.
--
-- Common: Boolean tests, lists, maps and signed integers that the parts share. A Go map is an
--   association list; what is proved for every list holds for every order of iteration.
-- BlobParams: internal/blobparams/blobparams.go. Chain has the data of go-ethereum and its fork
--   tests, which are a parameter, and `IsTimed`, what go-ethereum documents of those tests. Build is
--   `BuildChainConfig` with its helpers, Resolve is `getActiveBlobConfig`, `ForkName` and
--   `GetBlobParams`; Boundaries, Slots, Active and Newest are the proofs.
-- Db: internal/db/db.go. Blocks has the queries `GetFirstUnindexedBlock` and
--   `GetUnindexedBlocksInRange`, with each part of their SQL as a function on the list of the block
--   numbers that have a row; FirstGap and Missing compare them with their descriptions. Schedule is
--   `ReconcileFutureBlobSchedule` and `GetBlobSchedule` of internal/db/blob_schedule.go.
-- Indexer: internal/indexer.
--   CommitOrder: commit_order.go, with `candidateLivenessWindow` of builders.go. A wait is a list of
--     rounds, each with what the ticker shows and the time since the deadline was set, or the end
--     of the context; that a ticker fires no earlier than its interval is a hypothesis. InFlight and Committed are the proofs.
--   Reorg: `checkForReorg`, `handleReorg` and the signal, and in Reorg/Marker the persisted marker,
--     of indexer.go. The node, the readability of the database and the course of the transaction are
--     arguments. The walk back is recursion on the configured depth, which is also its bound in
--     the code. ForkPoint, Rewind and Recovery are the proofs.
--   Walker: one round of the loop of `runBlockIndexer`, with `backfillRangeFullyIndexed`, of an
--     indexer that has a database.
--   Resume: `determineStartBlock` and what it calls; Starts is the proof.
--   Startup: `seedStartupGapRecovery`.
--   Schedule: blob_schedule.go, the entries learned from a node, and in Schedule/Refresh the refresh
--     that stores them and rebuilds the chain configuration with BlobParams. Advertised describes
--     the entries apart from the code that reads them.
--   Workers: a task of `blockProcessingWorker`, `trackFailedBlock` and `retryFailedBlocks`. The
--     retries of a task are recursion on the configured number. An attempt is the reading of the
--     block and its check for a reorg; what the transaction of the block stores is an argument. Tasks and Retries are the proofs.
--   Candidates: `classifyCandidates` and `candidateAggregates` of builders.go. LowestNonce, Reasons
--     and Totals are the proofs.
-- Api: internal/api. Hub is ws_hub.go, with `wantsEvent` of ws_client.go and the slots that the
--   upgrade handler of ws_handler.go holds; Slots, Balance and Reachable are the proofs, by
--   induction on the steps of the handlers and of `Run` in any order.
--   Wildcard is `wildcardMatch` and Cors the rest of cors.go; Search, Matching, Origins, Pinned,
--   Single, Requests, Permitted and Constant are the proofs. A header is the text of its value. RateLimit is ratelimit.go without the
--   reading of addresses: tokens are counted in a fraction chosen so that the rate is a whole number,
--   and the clock is an argument; Table, Bounded and Bucket are the proofs. StatsWindow is the
--   parsing of windows of rolling_stats.go, with int64 durations; RoundTrip and Lists are the proofs.
-- Attribution: internal/attribution. The claims of the registry, their order and validity and the maps
--   of the service are in Attribution.antt; Changes is `changedClaimAddresses`, Sync the statements
--   of `syncBlobListClaims`, Refresh `RefreshBlobList` with the download as its argument, Users
--   `AddKnownUser`. Order, Groups, Lookup, Winner, Reapply, Consistent, Preserved and Projection are the
--   proofs. Letters are those of ASCII.
-- Ethereum: `RoundTrip` and `parseRetryAfter` of internal/ethereum/ratelimit.go. The attempts that are
--   left are the argument of the recursion; the body of the request is taken as read. Retries is
--   the proof.
-- The runs at concrete inputs are in the Tests module of each part.
--
-- Block numbers, counts and times are natural numbers without an upper bound, since a network comes
-- nowhere near the range of 64 bits; the epoch of reorgs and the conversions of blob counts keep
-- their wrap-around. Where the code reads a clock, the time is an argument. What a worker does under
-- a lock is one step.
--
-- Not modelled: RPC, HTTP and SQL text beyond the queries above; the contents of a block
-- (`processBlock` behind its check for a reorg, `insertBlockData`), the mempool scanners, rollups and records; the handlers, the
-- charts and the poller of the API; the MCP server, the RPC calls to nodes, configuration and
-- migrations.
pub mod Common
pub mod BlobParams
pub mod Db
pub mod Indexer
pub mod Api
pub mod Attribution
pub mod Ethereum
