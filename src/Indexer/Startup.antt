-- ===== src/Indexer/Startup.antt =====
-- `seedStartupGapRecovery` of internal/indexer/indexer.go: blocks that a crash left without a row
-- below the watermark are handed to the gap scanner.
use blob_indexer_api.Common.{
  ◌↔◌, ◌⊎◌, inl, inr, Option-cases, Bool-cases, refl, ℕ, ◌+◌, ◌-◌, ◌≤◌, ◌<◌, ◌≡◌, Bool, true, false,
  ◌&&◌, ◌||◌, not, if◌then◌else◌, ltb, leb, ◌==◌, none, some, List, [], ◌∷◌, arith, ℕ_discrete,
}
use blob_indexer_api.Common.Maps.{lookup-insert}
use blob_indexer_api.Db.Blocks.{contains, minimum, get_unindexed_blocks_in_range}
use blob_indexer_api.Common.{occurs}
use blob_indexer_api.Db.Missing.{within, first_reported, occurs-get_unindexed_blocks_in_range}
use blob_indexer_api.Indexer.CommitOrder.{count_of}
use blob_indexer_api.Indexer.Resume.{StartBlock, unset, latest, latest_minus, fixed}
use blob_indexer_api.Indexer.Workers.{Work, track_failed_block}

-- Whether the scan is floored at the earliest row, and the configured start where it is a number.
-- A text that is neither parses as no number.
unfoldable pub floor_of : StartBlock → Bool × ℕ
floor_of unset = (false, 0)
floor_of latest = (true, 0)
floor_of (latest_minus offset) = (true, 0)
floor_of (fixed none) = (true, 0)
floor_of (fixed (some n)) = (false, n)

-- `windowStart` before the configured start is looked at.
unfoldable pub recent_window : ℕ → ℕ → ℕ
recent_window last_block scan_blocks =
    if leb scan_blocks last_block then last_block - scan_blocks + 1 else 0

unfoldable pub window_start : StartBlock → ℕ → ℕ → ℕ
window_start configured last_block scan_blocks =
    let (floored, start) = floor_of configured in
    let window = recent_window last_block scan_blocks in if ltb window start then start else window

unfoldable pub track_all : Work → List ℕ → Work
track_all w [] = w
track_all w (n ∷ ns) = track_all (track_failed_block w n) ns

-- `seedStartupGapRecovery`; `scannable` is false where the query fails. A number of blocks to scan
-- that is not positive is 0.
unfoldable pub seed_startup_gap_recovery : Bool → List ℕ → StartBlock → ℕ → Work → ℕ → Work
seed_startup_gap_recovery scannable rows configured scan_blocks w last_block =
    if scan_blocks == 0 || not scannable
    then w
    else track_all w (
        get_unindexed_blocks_in_range rows (window_start configured last_block scan_blocks)
          last_block scan_blocks (floor_of configured).0)

count_of-track_all :
    (w : Work) (ns : List ℕ) (n : ℕ)
    → count_of (track_all w ns).failed_blocks n ≡ count_of w.failed_blocks n + occurs ns n
unfolding track_all track_failed_block count_of
count_of-track_all w [] n = omega arith
count_of-track_all w (m ∷ ns) n = ground (
  arith,
  count_of-track_all (track_failed_block w m) ns n,
  lookup-insert ℕ_discrete m n (count_of w.failed_blocks m + 1) w.failed_blocks,
)

window_fits :
    (configured : StartBlock) (last_block scan_blocks : ℕ)
    → 1 ≤ scan_blocks
    → last_block + 1 - window_start configured last_block scan_blocks ≤ scan_blocks
unfolding window_start recent_window
window_fits configured last_block scan_blocks pos = ground arith

no_minimum : (rows : List ℕ) (m : ℕ) → minimum rows ≡ none → contains rows m ≡ false
unfolding minimum contains
no_minimum [] m h = refl
no_minimum (x ∷ rows) m h = absurd (ground (arith, Option-cases (minimum rows)))

has_minimum : (rows : List ℕ) (e : ℕ) → minimum rows ≡ some e → contains rows e ≡ true
unfolding minimum contains
has_minimum [] e h = cc
has_minimum (x ∷ rows) e h = elim (Option-cases (minimum rows)) [
  | inl empty ↦ ground (arith, empty)
  | inr (d, least) ↦ ground (arith, least, has_minimum rows d least)
]

minimum_least : (rows : List ℕ) (m e : ℕ) → minimum rows ≡ some e → contains rows m ≡ true → e ≤ m
unfolding minimum contains
minimum_least [] m e h c = cc
minimum_least (x ∷ rows) m e h c = elim (Option-cases (minimum rows)) [
  | inl empty ↦ ground (arith, empty, no_minimum rows m empty)
  | inr (d, least) ↦ ground (arith, least, minimum_least rows m d least)
]

-- The block is not below where the coverage is meant to start: any block, the blocks from a
-- configured number on, or those from some row on where the start is relative to the head.
abbrev pub InScope : StartBlock → List ℕ → ℕ → Type 0
InScope unset rows n = Unit
InScope latest rows n = (m : ℕ) × (contains rows m ≡ true) × (m ≤ n)
InScope (latest_minus offset) rows n = (m : ℕ) × (contains rows m ≡ true) × (m ≤ n)
InScope (fixed none) rows n = (m : ℕ) × (contains rows m ≡ true) × (m ≤ n)
InScope (fixed (some start)) rows n = start ≤ n

-- The block is in the recent window up to the watermark, and has no row.
abbrev pub IsLost : StartBlock → List ℕ → ℕ → ℕ → ℕ → Type 0
IsLost configured rows scan_blocks last_block n =
    InScope configured rows n
    × (n ≤ last_block)
    × (last_block < n + scan_blocks)
    × (contains rows n ≡ false)

-- The test that the code makes of a block.
abbrev is_reported : StartBlock → List ℕ → ℕ → ℕ → ℕ → Bool
is_reported configured rows scan_blocks last_block n =
    within
      (first_reported rows (window_start configured last_block scan_blocks) (floor_of configured).0)
      n
    && (leb n last_block && not (contains rows n))

module _ (rows : List ℕ) (scan_blocks last_block n : ℕ) (some_blocks : 1 ≤ scan_blocks) where
  floored_iff :
      (within (first_reported rows (recent_window last_block scan_blocks) true) n ≡ true)
      ↔ (((m : ℕ) × (contains rows m ≡ true) × (m ≤ n)) × (last_block < n + scan_blocks))
  unfolding recent_window
  floored_iff = elim (Option-cases (minimum rows)) [
    | inl empty ↦ (
      λ h. absurd (ground (arith, empty)),
      λ ((m, there, le), recent). absurd (ground (arith, there, no_minimum rows m empty)),
    )
    | inr (e, least) ↦ (
      λ h. (
        (e, has_minimum rows e least, ground (arith, least, h)),
        ground (arith, least, h, some_blocks),
      ),
      λ ((m, there, le), recent).
          ground (arith, least, recent, le, minimum_least rows m e least there, some_blocks),
    )
  ]

  is_reported_iff :
      (configured : StartBlock)
      → (is_reported configured rows scan_blocks last_block n ≡ true)
        ↔ IsLost configured rows scan_blocks last_block n
  unfolding window_start floor_of recent_window
  is_reported_iff unset = ground (arith, some_blocks)
  is_reported_iff (fixed (some start)) = ground (arith, some_blocks)
  is_reported_iff latest = ground (arith, floored_iff)
  is_reported_iff (latest_minus offset) = ground (arith, floored_iff)
  is_reported_iff (fixed none) = ground (arith, floored_iff)

-- At startup a block is tracked as failed once more exactly if it is at or below the watermark, among
-- as many last blocks as configured, has no row and is not below where coverage is meant to start;
-- every other block's count stays.
pub seed_startup_gap_recovery-counts :
    (rows : List ℕ) (configured : StartBlock) (scan_blocks : ℕ) (w : Work) (last_block n : ℕ)
    → 1 ≤ scan_blocks
    → let v = seed_startup_gap_recovery true rows configured scan_blocks w last_block in
      (IsLost configured rows scan_blocks last_block n
        × (count_of v.failed_blocks n ≡ count_of w.failed_blocks n + 1))
      ⊎ ((¬ IsLost configured rows scan_blocks last_block n)
          × (count_of v.failed_blocks n ≡ count_of w.failed_blocks n))
unfolding seed_startup_gap_recovery
seed_startup_gap_recovery-counts rows configured scan_blocks w last_block n pos =
    let from = window_start configured last_block scan_blocks in
    let missing =
      get_unindexed_blocks_in_range rows from last_block scan_blocks (floor_of configured).0 in
    let counted = count_of-track_all w missing n in
    let reported =
      occurs-get_unindexed_blocks_in_range rows from last_block scan_blocks n
        (floor_of configured).0 (window_fits configured last_block scan_blocks pos) in
    let (lost, reports) = is_reported_iff rows scan_blocks last_block n pos configured in
    elim (Bool-cases (is_reported configured rows scan_blocks last_block n)) [
      | inl yes_it_is ↦ inl (lost yes_it_is, ground (arith, counted, reported, yes_it_is))
      | inr it_is_not ↦ inr (
        λ is_lost. absurd (ground (arith, it_is_not, reports is_lost)),
        ground (arith, counted, reported, it_is_not),
      )
    ]
