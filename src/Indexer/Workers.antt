-- ===== src/Indexer/Workers.antt =====
-- The block workers and the gap scanner, internal/indexer/indexer.go: `blockProcessingWorker`,
-- `trackFailedBlock` and `retryFailedBlocks`. Times are nanoseconds.
pub mod Tasks
pub mod Retries
mod Tests
use blob_indexer_api.Common.{
  ap, ◌∙◌, subst, ℕ, zero, suc, ◌+◌, ◌-◌, ◌*◌, ◌≤◌, ◌<◌, ◌≡◌, ◌≢◌, refl, ◌⊎◌, inl, inr, Bool, true,
  false, ◌&&◌, ◌||◌, not, if◌then◌else◌, ltb, leb, ◌==◌, Option, none, some, List, [], ◌∷◌, ◌++◌,
  arith, Bool-cases, Option-cases, ℕ_discrete, ite, String,
}
use blob_indexer_api.Common.Maps.{lookup, insert, delete, lookup-insert, lookup-delete}
use blob_indexer_api.Db.Blocks.{contains}
use blob_indexer_api.Indexer.CommitOrder.{Queue, count_of, finish_block}
use blob_indexer_api.Indexer.CommitOrder.InFlight.{finish_block-counts}
use blob_indexer_api.Indexer.Reorg.{
  Indexer, Store, Transaction, Outcome, no_reorg, failed, handled, check_for_reorg,
  update_last_indexed_block,
}

-- What `checkForReorg` meets: the canonical hashes, which stored hashes can be read, the depth of
-- the walk, the parent's hash in the block, and how the reorg's transaction goes.
pub record Check : Type 0 where
  pub node : ℕ → Option String
  pub readable : ℕ → Bool
  pub max_depth : ℕ
  pub parent : String
  pub tx : Transaction

-- What an attempt of `processBlock`, or the wait before it, meets: the context ends, a panic, a block
-- that cannot be read, or one that is checked, with what its transaction stores if that succeeds.
pub data Attempt : Type 0 where
  cancelled panics unread : Attempt
  read : Check → Option (Store → Store) → Attempt

pub data BlockEnd : Type 0 where
  stored reorged errored panicked stopped : BlockEnd

unfoldable pub store_block : Indexer → Option (Store → Store) → Indexer × BlockEnd
store_block i none = (i, errored)
store_block i (some f) = (record i { store = f i.store }, stored)

-- The errors of `checkForReorg` end `processBlock`; what is stored then is a parameter.
unfoldable pub after_check : Indexer × Outcome → Option (Store → Store) → Indexer × BlockEnd
after_check (i, no_reorg) changes = store_block i changes
after_check (i, failed) changes = (i, errored)
after_check (i, handled fork) changes = (i, reorged)

-- `processBlock`, as far as the indexer's state and the check for a reorg go.
unfoldable pub process_block : Indexer → ℕ → Attempt → Indexer × BlockEnd
process_block i n cancelled = (i, stopped)
process_block i n panics = (i, panicked)
process_block i n unread = (i, errored)
process_block i n (read c changes) =
    after_check (check_for_reorg c.node c.readable c.max_depth i n c.parent c.tx) changes

pub data TaskEnd : Type 0 where
  committed rewound abandoned gave_up : TaskEnd

-- The retry loop of a task, with the attempts left; `attempt` tells what each meets.
unfoldable pub run_attempts : (ℕ → Attempt) → ℕ → ℕ → Indexer → ℕ → Indexer × TaskEnd
run_attempts attempt n zero i k = (i, gave_up)
run_attempts attempt n (suc left) i k =
    let (j, outcome) = process_block i n (attempt k) in
    let rest = run_attempts attempt n left j (k + 1) in
    elim outcome [
      | stored ↦ (j, committed)
      | reorged ↦ (j, rewound)
      | errored ↦ rest
      | panicked ↦ (j, gave_up)
      | stopped ↦ (j, abandoned)
    ]

pub record Work : Type 0 where
  pub indexer : Indexer
  pub queue : Queue
  pub failed_blocks : List (ℕ × ℕ)
  pub next_retry : List (ℕ × ℕ)

-- `trackFailedBlock`.
unfoldable pub track_failed_block : Work → ℕ → Work
track_failed_block w n = record w {
  failed_blocks = insert ℕ_discrete n (count_of w.failed_blocks n + 1) w.failed_blocks;
}

unfoldable pub end_task : Work → ℕ → TaskEnd → Work
end_task w n committed = record w {
  failed_blocks = delete ℕ_discrete n w.failed_blocks;
  next_retry = delete ℕ_discrete n w.next_retry;
  indexer = update_last_indexed_block w.indexer n;
}
end_task w n rewound = w
end_task w n abandoned = w
end_task w n gave_up = track_failed_block w n

-- One task of `blockProcessingWorker`, with its deferred `finishBlock`.
unfoldable pub process_task : (ℕ → Attempt) → ℕ → Work → ℕ → Work
process_task attempt max_retries w n =
    let (i, t) = run_attempts attempt n (max_retries + 1) w.indexer 0 in
    let v = end_task (record w { indexer = i }) n t in record v { queue = finish_block v.queue n }

abbrev pub max_gap_scan_retries : ℕ
max_gap_scan_retries = 10

-- `failedBlockSafetyRetryInterval`, one hour.
abbrev pub safety_retry_interval : ℕ
safety_retry_interval = 3600 * 1_000_000_000

-- What `retryFailedBlocks` does with one failed block: whether it is queued, and the schedule.
unfoldable pub retry_one : ℕ → ℕ → ℕ → List (ℕ × ℕ) → Bool × List (ℕ × ℕ)
retry_one now block count schedule =
    if leb count max_gap_scan_retries
    then (true, schedule)
    else elim (lookup ℕ_discrete block schedule) [
      | none ↦ (false, insert ℕ_discrete block (now + safety_retry_interval) schedule)
      | some due ↦
          if ltb now due
          then (false, schedule)
          else (true, insert ℕ_discrete block (now + safety_retry_interval) schedule)
    ]

-- The loop of `retryFailedBlocks` over the failed blocks, in any order: the blocks to queue.
unfoldable pub retry_all : ℕ → List (ℕ × ℕ) → List (ℕ × ℕ) → List ℕ × List (ℕ × ℕ)
retry_all now [] schedule = ([], schedule)
retry_all now ((block, count) ∷ blocks) schedule =
    let (queued, next) = retry_one now block count schedule in
    let (rest, last) = retry_all now blocks next in ((if queued then block ∷ rest else rest), last)

unfoldable pub retry_failed_blocks : ℕ → Work → List ℕ × Work
retry_failed_blocks now w =
    let (queued, schedule) = retry_all now w.failed_blocks w.next_retry in
    (queued, record w { next_retry = schedule })
