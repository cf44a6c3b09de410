-- ===== src/Db/Tests.antt =====
-- The gap query on a small table.
use blob_indexer_api.Common.{ℕ, ◌≡◌, refl, List, [], ◌∷◌, sort, arith}
use blob_indexer_api.Db.Blocks.{
  contains, get_first_unindexed_block, between, gap_starts, last_row, minimum, coalesce, after_last,
  gap_candidates,
}
use blob_indexer_api.Common.{true, ◌&&◌, not, if◌then◌else◌}
use blob_indexer_api.Db.Blocks.{get_unindexed_blocks_in_range}
use blob_indexer_api.Common.{occurs}
use blob_indexer_api.Db.Missing.{within, first_reported, occurs-get_unindexed_blocks_in_range}
use blob_indexer_api.Common.{◌*◌, ℕ_discrete, none, some, false}
use blob_indexer_api.Common.Int.{pos}
use blob_indexer_api.Common.Maps.{lookup, insert}
use blob_indexer_api.BlobParams.Chain.{ScheduleEntry}
use blob_indexer_api.Db.Schedule.{
  entry_at, has_duplicate, delete_stale, upsert_entries, reconcile_future_blob_schedule,
  reconcile_future_blob_schedule-lookup,
}
use blob_indexer_api.Db.FirstGap.{IsFirstGap, get_first_unindexed_block-IsFirstGap}

abbrev rows : List ℕ
rows = 7 ∷ 3 ∷ 4 ∷ 9 ∷ []

first_gap : get_first_unindexed_block rows 3 9 ≡ 5
unfolding get_first_unindexed_block between gap_starts last_row minimum coalesce after_last
    gap_candidates contains sort
first_gap = refl

get_first_unindexed_block-IsFirstGap_example :
    IsFirstGap rows 3 9 (get_first_unindexed_block rows 3 9)
get_first_unindexed_block-IsFirstGap_example =
    get_first_unindexed_block-IsFirstGap rows 3 9 (omega arith)

occurs-get_unindexed_blocks_in_range_example :
    occurs (get_unindexed_blocks_in_range rows 2 9 8 true) 5
    ≡ (if within (first_reported rows 2 true) 5 && (true && not (contains rows 5)) then 1 else 0)
occurs-get_unindexed_blocks_in_range_example =
    occurs-get_unindexed_blocks_in_range rows 2 9 8 5 true (omega arith)

abbrev entry : ℕ → ℕ → ScheduleEntry
entry t n = record {
  activation_time = t;
  target = pos n;
  max = pos (2 * n);
  update_fraction = 3338477;
}

-- The fork at 300 has been moved to 400.
abbrev stored : List (ℕ × ScheduleEntry)
stored = (100, entry 100 3) ∷ (200, entry 200 6) ∷ (400, entry 400 9) ∷ []

moved :
    reconcile_future_blob_schedule true
      ((100, entry 100 3) ∷ (300, entry 300 9) ∷ [])
      (entry 200 6 ∷ entry 400 9 ∷ [])
      250
    ≡ some stored
unfolding reconcile_future_blob_schedule upsert_entries delete_stale has_duplicate entry_at insert
    ℕ_discrete
moved = refl

reconcile_future_blob_schedule-lookup_example :
    (has_duplicate (entry 200 6 ∷ entry 400 9 ∷ []) ≡ false)
    × (lookup ℕ_discrete 300 stored ≡ elim (entry_at (entry 200 6 ∷ entry 400 9 ∷ []) 300) [
      | some advertised ↦ some advertised
      | none ↦ if false then some (entry 300 9) else none
    ])
unfolding lookup ℕ_discrete
reconcile_future_blob_schedule-lookup_example =
    reconcile_future_blob_schedule-lookup true ((100, entry 100 3) ∷ (300, entry 300 9) ∷ []) stored
      (entry 200 6) (entry 400 9 ∷ []) 250 300 moved
