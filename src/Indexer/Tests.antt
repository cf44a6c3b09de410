-- ===== src/Indexer/Tests.antt =====
-- The main loop on a table with a gap, and a start with a backfill to resume.
use blob_indexer_api.Common.{
  List, ◌+◌, ℕ, ◌≡◌, ◌≤◌, ◌<◌, ◌⊎◌, refl, inr, true, false, none, some, [], ◌∷◌, sort, arith,
}
use blob_indexer_api.Db.Blocks.{
  contains, get_first_unindexed_block, between, gap_starts, last_row, minimum, coalesce, after_last,
  gap_candidates,
}
use blob_indexer_api.Indexer.Reorg.{Indexer, Store, absent, consume_reorg_reset}
use blob_indexer_api.Indexer.CommitOrder.{count_of}
use blob_indexer_api.Indexer.Workers.{Work}
use blob_indexer_api.Indexer.Startup.{
  IsLost, seed_startup_gap_recovery, seed_startup_gap_recovery-counts,
}
use blob_indexer_api.Common.{All}
use blob_indexer_api.Common.Int.{pos}
use blob_indexer_api.Db.Schedule.{entry_at, has_duplicate}
use blob_indexer_api.Indexer.Schedule.{EthConfig, schedule_entries_from_eth_config, forks_of}
use blob_indexer_api.Indexer.Schedule.Advertised.{
  IsValid, LastAdvertised, schedule_entries_from_eth_config-IsValid,
}
use blob_indexer_api.Indexer.Walker.{
  Walker, Tick, walk_round, take_reset, advance, caught_up, backfill_range_fully_indexed,
  walk_round_keeps, walk_round_completes,
}
use blob_indexer_api.Indexer.Resume.{
  latest, World, fixed, backfill_active, backfill_target_block, ok, get_backfill_cursor_state,
  read_row, read_rows, first_unindexed, resolve_configured_start_block, resume_below_target,
  known_target, resume_active, backfill_resume_block, next_block, resume_from,
  determine_start_block,
}
use blob_indexer_api.Indexer.Resume.Starts.{Covered, IsBackfilling, determine_start_block-Covered}

abbrev store : Store
store = record {
  indexed = [];
  blobs = [];
  block_metrics = [];
  block_builders = [];
  candidates = [];
  last_indexed_block = absent;
  reorg_rewind_from = absent;
  reorg_invalidated_through = absent;
}

-- A reorg from block 12 to block 15 is pending.
abbrev indexer : Indexer
indexer = record {
  store = store;
  last_indexed = 2;
  reorg_detected = true;
  rewind_from = 12;
  invalidated_through = 15;
  reorg_epoch = 0;
  recovery_signaled = false;
}

abbrev walker : Walker
walker = record {
  current_block = 5;
  backfill_start_block = 3;
  backfill_active = true;
  next_completion_check = 10;
}

abbrev tick : Tick
tick = record {
  latest_block = some 4;
  batch_size = 10;
  observed_at = 20;
  gap_scan_interval = 60;
  scannable = true;
  rows = 4 ∷ 3 ∷ [];
}

walk_round_keeps_example :
    let (j, v, queued) = walk_round indexer walker tick in
    (contains queued 13 ≡ true) ⊎ (v.current_block ≤ 13)
walk_round_keeps_example =
    walk_round_keeps indexer walker tick 13 (omega arith) (inr (refl, omega arith, omega arith))

completes : (walk_round indexer walker tick).1.backfill_active ≡ false
unfolding walk_round take_reset consume_reorg_reset advance caught_up backfill_range_fully_indexed
    get_first_unindexed_block between gap_starts last_row minimum coalesce after_last gap_candidates
    contains sort
completes = refl

walk_round_completes_example :
    (latest : ℕ) × (tick.latest_block ≡ some latest)
    × ((3 < walker.backfill_start_block) ⊎ (latest < 3) ⊎ (contains tick.rows 3 ≡ true))
walk_round_completes_example = walk_round_completes indexer walker tick 3 refl completes

-- A backfill to block 8 was under way, and block 5 is missing.
abbrev world : World
world = record {
  head = some 20;
  connected = true;
  metadata = some (backfill_active (some true) ∷ backfill_target_block (some 8) ∷ []);
  scannable = true;
  rows = 4 ∷ 3 ∷ 6 ∷ [];
}

resumes : backfill_resume_block world 3 none ≡ ok (some 5)
unfolding backfill_resume_block get_backfill_cursor_state read_rows read_row resume_active
    resume_below_target known_target first_unindexed get_first_unindexed_block between gap_starts
    last_row minimum coalesce after_last gap_candidates contains sort
resumes = refl

determined : determine_start_block world (fixed (some 3)) 6 ≡ ok 5
unfolding determine_start_block resolve_configured_start_block resume_from next_block
    backfill_resume_block get_backfill_cursor_state read_rows read_row resume_active
    resume_below_target known_target first_unindexed get_first_unindexed_block between gap_starts
    last_row minimum coalesce after_last gap_candidates contains sort
determined = refl

determine_start_block-Covered_example : Covered world 3 5 4 ⊎ ((¬ IsBackfilling world) × (4 ≤ 6))
determine_start_block-Covered_example =
    determine_start_block-Covered world (fixed (some 3)) 6 3 5 4 refl determined

-- Blocks 5 and 8 have no row below the watermark 8.
abbrev crashed : Work
crashed = record {
  indexer = indexer;
  queue = record { in_flight = []; tasks = [] };
  failed_blocks = (5, 2) ∷ [];
  next_retry = [];
}

abbrev crashed_rows : List ℕ
crashed_rows = 4 ∷ 3 ∷ 6 ∷ 7 ∷ []

seed_startup_gap_recovery-counts_example :
    let v = seed_startup_gap_recovery true crashed_rows latest 4 crashed 8 in
    (IsLost latest crashed_rows 4 8 5
      × (count_of v.failed_blocks 5 ≡ count_of crashed.failed_blocks 5 + 1))
    ⊎ ((¬ IsLost latest crashed_rows 4 8 5)
        × (count_of v.failed_blocks 5 ≡ count_of crashed.failed_blocks 5))
seed_startup_gap_recovery-counts_example =
    seed_startup_gap_recovery-counts crashed_rows latest 4 crashed 8 5 (omega arith)

abbrev advertised : EthConfig
advertised = record {
  current = some (record {
    activation_time = 200;
    blob_schedule = some (record { target = pos 6; max = pos 9; update_fraction = 5007716 });
  });
  last = none;
  next = some (record {
    activation_time = 400;
    blob_schedule = some (record { target = pos 9; max = pos 12; update_fraction = 0 });
  });
}

schedule_entries_from_eth_config-IsValid_example :
    let entries = schedule_entries_from_eth_config (some advertised) in
    All IsValid entries
    × (has_duplicate entries ≡ false)
    × LastAdvertised (forks_of advertised) 400 (entry_at entries 400)
schedule_entries_from_eth_config-IsValid_example =
    schedule_entries_from_eth_config-IsValid advertised 400
