-- ===== src/Indexer/Walker.antt =====
-- `runBlockIndexer` of internal/indexer/indexer.go: one round of the loop that queues blocks, with
-- the queueing never interrupted by a shutdown. A batch is at least one block.
use blob_indexer_api.Common.{
  ℕ, zero, suc, ◌+◌, ◌-◌, ◌≤◌, ◌<◌, ◌≡◌, refl, ◌⊎◌, inl, inr, Bool, true, false, ◌&&◌, ◌||◌,
  if◌then◌else◌, ltb, leb, Option, none, some, List, [], ◌∷◌, ◌++◌, arith, Option-cases, dec_le,
}
use blob_indexer_api.Db.Blocks.{contains, get_first_unindexed_block}
use blob_indexer_api.Db.FirstGap.{get_first_unindexed_block-IsFirstGap}
use blob_indexer_api.Indexer.Reorg.{Indexer, consume_reorg_reset}

-- The variables of the loop.
pub record Walker : Type 0 where
  pub current_block : ℕ
  pub backfill_start_block : ℕ
  pub backfill_active : Bool
  pub next_completion_check : ℕ

-- `for b := from; b < from+count; b++`.
unfoldable pub block_range : ℕ → ℕ → List ℕ
block_range from zero = []
block_range from (suc count) = from ∷ block_range (from + 1) count

-- The reaction to a reorg: step back, or queue the invalidated blocks above the position.
unfoldable pub take_reset : Indexer → Walker → Indexer × Walker × List ℕ
take_reset i w =
    if i.reorg_detected
    then (let (rewind_from, through, j) = consume_reorg_reset i in
        if leb rewind_from w.current_block
        then (j, record w { current_block = rewind_from }, [])
        else (j, w, block_range rewind_from (through + 1 - rewind_from)))
    else (i, w, [])

-- `backfillRangeFullyIndexed` with a database; `scannable` is false where the query fails.
unfoldable pub backfill_range_fully_indexed : Bool → List ℕ → ℕ → ℕ → Bool
backfill_range_fully_indexed scannable rows a b =
    if scannable then ltb b (get_first_unindexed_block rows a b) else false

-- What a round is given besides the state: the head of the chain if the call succeeds, the batch
-- size, the time, the gap scan interval, and `indexed_blocks`.
pub record Tick : Type 0 where
  pub latest_block : Option ℕ
  pub batch_size : ℕ
  pub observed_at : ℕ
  pub gap_scan_interval : ℕ
  pub scannable : Bool
  pub rows : List ℕ

unfoldable pub caught_up : Walker → Tick → ℕ → Walker
caught_up w t latest =
    if w.backfill_active && ltb w.next_completion_check t.observed_at
    then if backfill_range_fully_indexed t.scannable t.rows w.backfill_start_block latest
      then record w { backfill_active = false }
      else record w { next_completion_check = t.observed_at + t.gap_scan_interval }
    else w

unfoldable pub advance : Walker → Tick → ℕ → Walker × List ℕ
advance w t latest =
    let end_block =
      if ltb latest (w.current_block + t.batch_size - 1)
      then latest
      else w.current_block + t.batch_size - 1 in
    if ltb latest w.current_block then (caught_up w t latest, []) else (
      record w {
        current_block = end_block + 1;
        backfill_start_block =
            if w.backfill_active then w.backfill_start_block else w.current_block;
        backfill_active = true;
      },
      block_range w.current_block (end_block + 1 - w.current_block),
    )

-- One round of the loop: the state after it, and the blocks that it queued, in order.
unfoldable pub walk_round : Indexer → Walker → Tick → Indexer × Walker × List ℕ
walk_round i w t =
    let (j, v, requeued) = take_reset i w in
    elim t.latest_block [
      | none ↦ (j, v, requeued)
      | some latest ↦ let (u, queued) = advance v t latest in (j, u, requeued ++ queued)
    ]

contains-block_range :
    (from count n : ℕ) → contains (block_range from count) n ≡ (leb from n && ltb n (from + count))
unfolding contains block_range
contains-block_range from zero n = ground arith
contains-block_range from (suc count) n = ground (arith, contains-block_range (from + 1) count n)

contains-append :
    (xs ys : List ℕ) (n : ℕ) → contains (xs ++ ys) n ≡ (contains xs n || contains ys n)
unfolding contains
contains-append [] ys n = refl
contains-append (x ∷ xs) ys n = ground (arith, contains-append xs ys n)

take_reset_keeps :
    (i : Indexer) (w : Walker) (n : ℕ)
    → ((w.current_block ≤ n)
        ⊎ ((i.reorg_detected ≡ true) × (i.rewind_from ≤ n) × (n ≤ i.invalidated_through)))
    → let (j, v, requeued) = take_reset i w in (contains requeued n ≡ true) ⊎ (v.current_block ≤ n)
unfolding take_reset consume_reorg_reset
take_reset_keeps i w n h =
    ground (arith, contains-block_range i.rewind_from (i.invalidated_through + 1 - i.rewind_from) n)

advance_keeps :
    (w : Walker) (t : Tick) (latest n : ℕ)
    → 1 ≤ t.batch_size
    → w.current_block ≤ n
    → let (v, queued) = advance w t latest in (contains queued n ≡ true) ⊎ (v.current_block ≤ n)
unfolding advance caught_up
advance_keeps w t latest n pos h = ground (
  arith,
  contains-block_range w.current_block (latest + 1 - w.current_block) n,
  contains-block_range w.current_block (w.current_block + t.batch_size - 1 + 1 - w.current_block) n,
)

-- With a batch size of at least one, no round skips a block: one at or above the position, or in the
-- range of a pending reorg, is queued in the round, or still lies at or above the position after it.
pub walk_round_keeps :
    (i : Indexer) (w : Walker) (t : Tick) (n : ℕ)
    → 1 ≤ t.batch_size
    → ((w.current_block ≤ n)
        ⊎ ((i.reorg_detected ≡ true) × (i.rewind_from ≤ n) × (n ≤ i.invalidated_through)))
    → let (j, v, queued) = walk_round i w t in (contains queued n ≡ true) ⊎ (v.current_block ≤ n)
unfolding walk_round
walk_round_keeps i w t n pos h =
    let (j, v, requeued) = take_reset i w in
    elim (Option-cases t.latest_block) [
      | inl e ↦ ground (arith, take_reset_keeps i w n h)
      | inr (latest, e) ↦ ground (
        arith,
        take_reset_keeps i w n h,
        advance_keeps v t latest n pos,
        contains-append requeued (advance v t latest).1 n,
      )
    ]

backfill_active-take_reset :
    (i : Indexer) (w : Walker)
    → let v = (take_reset i w).1 in
      (v.backfill_active ≡ w.backfill_active) × (v.backfill_start_block ≡ w.backfill_start_block)
unfolding take_reset consume_reorg_reset
backfill_active-take_reset i w = ground arith

backfill_range_covered :
    (scannable : Bool) (rows : List ℕ) (a b n : ℕ)
    → backfill_range_fully_indexed scannable rows a b ≡ true
    → (n < a) ⊎ (b < n) ⊎ (contains rows n ≡ true)
unfolding backfill_range_fully_indexed
backfill_range_covered scannable rows a b n h = elim (dec_le a b) [
  | yes le ↦
      let gap = get_first_unindexed_block-IsFirstGap rows a b le in ground (arith, gap.covered n)
  | no gt ↦ omega arith
]

advance_completes :
    (w : Walker) (t : Tick) (latest n : ℕ)
    → w.backfill_active ≡ true
    → (advance w t latest).0.backfill_active ≡ false
    → (n < w.backfill_start_block) ⊎ (latest < n) ⊎ (contains t.rows n ≡ true)
unfolding advance caught_up
advance_completes w t latest n active done =
    ground (arith, backfill_range_covered t.scannable t.rows w.backfill_start_block latest n)

-- The backfill is recorded as complete only when every block from its start to the head has a row.
pub walk_round_completes :
    (i : Indexer) (w : Walker) (t : Tick) (n : ℕ)
    → w.backfill_active ≡ true
    → (walk_round i w t).1.backfill_active ≡ false
    → (latest : ℕ) × (t.latest_block ≡ some latest)
      × ((n < w.backfill_start_block) ⊎ (latest < n) ⊎ (contains t.rows n ≡ true))
unfolding walk_round
walk_round_completes i w t n active done =
    let (j, v, requeued) = take_reset i w in
    elim (Option-cases t.latest_block) [
      | inl e ↦ absurd (ground (arith, backfill_active-take_reset i w))
      | inr (latest, e) ↦ (
        latest,
        e,
        ground (arith, backfill_active-take_reset i w, advance_completes v t latest n),
      )
    ]
