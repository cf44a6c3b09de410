-- ===== src/Indexer/Reorg.antt =====
-- Chain reorganizations, internal/indexer/indexer.go: detection, the search for the fork point, the
-- deletion of what it invalidates, the signal to the main loop and the persisted recovery marker.
-- The database of one chain and the indexer's own fields are one state. A read or a transaction
-- that can fail takes the outcome as an argument.
pub mod Marker
pub mod ForkPoint
pub mod Rewind
pub mod Recovery
mod Tests
use blob_indexer_api.Common.{
  ℕ, zero, suc, ◌+◌, ◌-◌, ◌%◌, ◌^◌, ◌≡◌, Bool, true, false, ◌&&◌, not, if◌then◌else◌, ltb, leb,
  ◌==◌, Option, none, some, List, [], ◌∷◌, ◌++◌, ite, String, string_discrete, ℕ_discrete,
}
use blob_indexer_api.Common.Maps.{lookup}
use blob_indexer_api.Db.Blocks.{get_first_unindexed_block}

-- A metadata value read as a block number: absent, not a number, or a number.
pub data Meta : Type 0 where
  absent unparseable : Meta
  number : ℕ → Meta

-- `indexed_blocks` with its hashes, the block numbers of the rows of the other tables, and the
-- metadata of the chain.
pub record Store : Type 0 where
  pub indexed : List (ℕ × String)
  pub blobs : List ℕ
  pub block_metrics : List ℕ
  pub block_builders : List ℕ
  pub candidates : List ℕ
  pub last_indexed_block : Meta
  pub reorg_rewind_from : Meta
  pub reorg_invalidated_through : Meta

-- The fields of `Indexer` that take part, beside the database.
pub record Indexer : Type 0 where
  pub store : Store
  pub last_indexed : ℕ
  pub reorg_detected : Bool
  pub rewind_from : ℕ
  pub invalidated_through : ℕ
  pub reorg_epoch : ℕ
  pub recovery_signaled : Bool

unfoldable pub block_numbers : List (ℕ × String) → List ℕ
block_numbers [] = []
block_numbers ((n, h) ∷ rows) = n ∷ block_numbers rows

-- `updateLastIndexedBlock`, its compare-and-swap without a competing writer.
unfoldable pub update_last_indexed_block : Indexer → ℕ → Indexer
update_last_indexed_block i n =
    if leb n i.last_indexed
    then i
    else record i { last_indexed = n; store = record i.store { last_indexed_block = number n } }

-- `signalReorgReset`.
unfoldable pub signal_reorg_reset : Indexer → ℕ → ℕ → Indexer
signal_reorg_reset i from through =
    if i.reorg_detected
    then record i {
      rewind_from = if ltb from i.rewind_from then from else i.rewind_from;
      invalidated_through =
          if ltb i.invalidated_through through then through else i.invalidated_through;
    }
    else record i { reorg_detected = true; rewind_from = from; invalidated_through = through }

-- `consumeReorgReset`.
unfoldable pub consume_reorg_reset : Indexer → ℕ × ℕ × Indexer
consume_reorg_reset i = (i.rewind_from, i.invalidated_through, record i { reorg_detected = false })

-- `mergeReorgRecoveryMarker`, where its statements succeed.
unfoldable pub merge_from : Meta → ℕ → ℕ
merge_from (number previous) from = if ltb previous from then previous else from
merge_from _ from = from

unfoldable pub merge_through : Meta → ℕ → ℕ
merge_through (number previous) through = if ltb through previous then previous else through
merge_through _ through = through

unfoldable pub merge_reorg_recovery_marker : Store → ℕ → ℕ → Store
merge_reorg_recovery_marker d from through = record d {
  reorg_rewind_from = number (merge_from d.reorg_rewind_from from);
  reorg_invalidated_through = number (merge_through d.reorg_invalidated_through through);
}

-- The answer of `GetIndexedBlockHash`; `readable` is false where the query fails.
pub data HashRead : Type 0 where
  hash : String → HashRead
  no_rows query_failed : HashRead

unfoldable pub get_indexed_block_hash : (ℕ → Bool) → Store → ℕ → HashRead
get_indexed_block_hash readable d n =
    if readable n
    then elim (lookup ℕ_discrete n d.indexed) [ none ↦ no_rows | some h ↦ hash h ]
    else query_failed

-- The walk of `handleReorg`: it failed, or stopped at a block, which is a verified fork or not.
pub data Scan : Type 0 where
  scan_failed : Scan
  stopped_at : ℕ → Bool → Scan

-- The loop of `handleReorg`, with the rounds left to `maxReorgDepth`. `node` gives the hash of the
-- canonical block at a height, `none` where the call fails.
unfoldable pub find_fork : (ℕ → Option String) → (ℕ → Bool) → Store → ℕ → ℕ → Scan
find_fork node readable d zero fork = stopped_at fork false
find_fork node readable d (suc depth) fork =
    let next = find_fork node readable d depth (fork - 1) in
    if fork == 0 then stopped_at fork false else elim (node fork) [
      | none ↦ scan_failed
      | some canonical ↦ elim (get_indexed_block_hash readable d fork) [
        | no_rows ↦ stopped_at fork true
        | query_failed ↦ scan_failed
        | hash h ↦ ite (string_discrete h canonical) (stopped_at fork true) next
      ]
    ]

-- `DELETE ... WHERE block_number >= n`.
unfoldable pub delete_from : ℕ → List ℕ → List ℕ
delete_from n [] = []
delete_from n (x ∷ xs) = let rest = delete_from n xs in if leb n x then rest else x ∷ rest

unfoldable pub delete_indexed_from : ℕ → List (ℕ × String) → List (ℕ × String)
delete_indexed_from n [] = []
delete_indexed_from n ((x, h) ∷ rows) =
    let rest = delete_indexed_from n rows in if leb n x then rest else (x, h) ∷ rest

-- `SELECT MAX(block_number)`.
unfoldable pub max_indexed : List (ℕ × String) → Option ℕ
max_indexed [] = none
max_indexed ((n, h) ∷ rows) = elim (max_indexed rows) [
  | none ↦ some n
  | some m ↦ some (if ltb m n then n else m)
]

-- The end of the range that a reorg found at `from` with fork point `fork` invalidates.
unfoldable pub invalidated_end : Store → ℕ → ℕ → ℕ
invalidated_end d fork from =
    let newest : ℕ = elim (max_indexed d.indexed) [
      | none ↦ fork
      | some m ↦ if ltb fork m then m else fork
    ] in
    if ltb newest from then from else newest

-- The deletions of the reorg transaction.
unfoldable pub delete_invalidated : Store → ℕ → Store
delete_invalidated d fork = record d {
  indexed = delete_indexed_from (fork + 1) d.indexed;
  blobs = delete_from (fork + 1) d.blobs;
  block_metrics = delete_from (fork + 1) d.block_metrics;
  block_builders = delete_from (fork + 1) d.block_builders;
  candidates = delete_from (fork + 1) d.candidates;
}

-- How the reorg transaction goes: a statement up to the marker fails, the commit fails, or neither.
pub data Transaction : Type 0 where
  statement_fails commit_fails commits : Transaction

pub data Outcome : Type 0 where
  no_reorg failed : Outcome
  handled : ℕ → Outcome

-- The part of `handleReorg` from the transaction on. A failed commit leaves the rows as they were,
-- with `lastIndexedBlock` already reset in memory.
unfoldable pub rewind_to : Indexer → ℕ → ℕ → Transaction → Indexer × Outcome
rewind_to i from fork statement_fails = (i, failed)
rewind_to i from fork commit_fails = (record i { last_indexed = fork }, failed)
rewind_to i from fork commits =
    let through = invalidated_end i.store fork from in
    let merged = merge_reorg_recovery_marker (delete_invalidated i.store fork) (fork + 1) through in
    let done = record i {
      store = record merged { last_indexed_block = number fork };
      last_indexed = fork;
      reorg_epoch = (i.reorg_epoch + 1) % 2 ^ 64;
      recovery_signaled = true;
    } in
    let first = not i.recovery_signaled in
    let signal_from = if first then merge_from i.store.reorg_rewind_from (fork + 1) else fork + 1 in
    let signal_through =
      if first then merge_through i.store.reorg_invalidated_through through else through in
    (signal_reorg_reset done signal_from signal_through, handled fork)

-- `handleReorg`.
unfoldable pub handle_reorg :
    (ℕ → Option String) → (ℕ → Bool) → ℕ → Indexer → ℕ → Transaction → Indexer × Outcome
handle_reorg node readable max_depth i from tx =
    elim (find_fork node readable i.store max_depth (from - 1)) [
      | scan_failed ↦ (i, failed)
      | stopped_at fork found ↦ rewind_to i from fork tx
    ]

-- `checkForReorg`, of a block with this parent hash.
unfoldable pub check_for_reorg :
    (ℕ → Option String) → (ℕ → Bool) → ℕ → Indexer → ℕ → String → Transaction → Indexer × Outcome
check_for_reorg node readable max_depth i n parent tx =
    if n == 0 then (i, no_reorg) else elim (get_indexed_block_hash readable i.store (n - 1)) [
      | no_rows ↦ (i, no_reorg)
      | query_failed ↦ (i, failed)
      | hash h ↦
          ite (string_discrete h parent) (i, no_reorg) (handle_reorg node readable max_depth i n tx)
    ]
