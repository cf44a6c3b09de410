-- ===== src/Indexer/Reorg/Marker.antt =====
-- The persisted reorg recovery marker, internal/indexer/indexer.go: it is read at the start, and
-- deleted when its range is indexed again.
use blob_indexer_api.Common.{ℕ, Bool, true, ◌&&◌, if◌then◌else◌, ltb, leb, ◌==◌}
use blob_indexer_api.Db.Blocks.{get_first_unindexed_block}
use blob_indexer_api.Indexer.Reorg.{
  Store, Indexer, Meta, absent, unparseable, number, block_numbers, signal_reorg_reset,
}

-- `getReorgRecoveryMarker`, where the query succeeds.
pub data Marker : Type 0 where
  no_marker bad_marker : Marker
  marker : ℕ → ℕ → Marker

unfoldable pub get_reorg_recovery_marker : Meta → Meta → Marker
get_reorg_recovery_marker absent absent = no_marker
get_reorg_recovery_marker absent (number through) = bad_marker
get_reorg_recovery_marker absent unparseable = bad_marker
get_reorg_recovery_marker unparseable _ = bad_marker
get_reorg_recovery_marker (number from) absent = bad_marker
get_reorg_recovery_marker (number from) unparseable = bad_marker
get_reorg_recovery_marker (number from) (number through) =
    if ltb through from then bad_marker else marker from through

abbrev pub read_marker : Store → Marker
read_marker d = get_reorg_recovery_marker d.reorg_rewind_from d.reorg_invalidated_through

-- `seedReorgRecoveryFromMarker`; `readable` is false where the query fails.
unfoldable pub seed_reorg_recovery_from_marker : Bool → Indexer → Indexer
seed_reorg_recovery_from_marker readable i =
    if readable
    then elim (read_marker i.store) [
      | no_marker ↦ i
      | bad_marker ↦ i
      | marker from through ↦ record (signal_reorg_reset i from through) {
        recovery_signaled = true;
      }
    ]
    else i

-- The first half of `completeReorgRecoveryIfCovered`: what the marker and the coverage scan say.
pub data Verdict : Type 0 where
  keep : Verdict
  uncovered covered : ℕ → ℕ → Verdict

unfoldable pub verify_recovery : Store → Bool → Bool → Verdict
verify_recovery d marker_readable scannable =
    if marker_readable
    then elim (read_marker d) [
      | no_marker ↦ keep
      | bad_marker ↦ keep
      | marker from through ↦
          if scannable
          then if leb (get_first_unindexed_block (block_numbers d.indexed) from through) through
            then uncovered from through
            else covered from through
          else keep
    ]
    else keep

-- The second half, on the state it finds: re-raise the signal once, or delete the marker under the
-- write lock if no cleanup has committed since `fetch_epoch` was read.
unfoldable pub finish_recovery : Verdict → ℕ → Bool → Indexer → Indexer
finish_recovery keep fetch_epoch deletes i = i
finish_recovery (uncovered from through) fetch_epoch deletes i =
    if i.recovery_signaled
    then i
    else signal_reorg_reset (record i { recovery_signaled = true }) from through
finish_recovery (covered from through) fetch_epoch deletes i =
    if i.reorg_epoch == fetch_epoch && deletes
    then record i {
      store = record i.store { reorg_rewind_from = absent; reorg_invalidated_through = absent };
    }
    else i

-- `completeReorgRecoveryIfCovered`: `before` is the state that is read, `now` the one at the lock.
unfoldable pub complete_reorg_recovery : Indexer → Indexer → ℕ → Bool → Bool → Bool → Indexer
complete_reorg_recovery before now fetch_epoch marker_readable scannable deletes =
    finish_recovery (verify_recovery before.store marker_readable scannable) fetch_epoch deletes now
