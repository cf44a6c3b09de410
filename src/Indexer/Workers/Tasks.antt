-- ===== src/Indexer/Workers/Tasks.antt =====
-- What one task of `blockProcessingWorker` leaves, internal/indexer/indexer.go.
use blob_indexer_api.Common.{ℕ, ◌+◌, ◌≤◌, ◌<◌, ◌≡◌, ◌⊎◌, none, ℕ_discrete}
use blob_indexer_api.Common.Maps.{lookup}
use blob_indexer_api.Indexer.CommitOrder.{count_of}
use blob_indexer_api.Indexer.Reorg.{Indexer}
use blob_indexer_api.Indexer.Reorg.Rewind.{Rewound}
use blob_indexer_api.Indexer.Workers.{
  Attempt, BlockEnd, stored, reorged, errored, panicked, stopped, process_block, TaskEnd, committed,
  rewound, abandoned, gave_up, Work,
}

-- The failed attempts of a task from one number to another, with the indexer before and after.
pub data Fails (attempt : ℕ → Attempt) (n : ℕ) : ℕ → Indexer → ℕ → Indexer → Type 0 where
  none_yet : {k : ℕ} {i : Indexer} → Fails attempt n k i k i
  one_more :
      {k m : ℕ} {i j l : Indexer}
      → process_block i n (attempt k) ≡ (j, errored)
      → Fails attempt n (k + 1) j m l
      → Fails attempt n k i m l

-- The attempt after some failed ones, fewer than `m`, ends like this.
abbrev pub EndsBy : (ℕ → Attempt) → ℕ → ℕ → Indexer → ℕ → Indexer → BlockEnd → Type 0
EndsBy attempt n k i m l outcome =
    (j : ℕ) × (h : Indexer) × Fails attempt n k i j h
    × (j < m)
    × (process_block h n (attempt j) ≡ (l, outcome))

-- How the attempts of a task end, of which there are `m`, from the attempt `k` on.
abbrev pub RunEnds : (ℕ → Attempt) → ℕ → ℕ → Indexer → ℕ → Indexer → TaskEnd → Type 0
RunEnds attempt n k i m l committed = EndsBy attempt n k i m l stored
RunEnds attempt n k i m l rewound =
    EndsBy attempt n k i m l reorged
    × ((h : Indexer) × (j fork : ℕ) × Fails attempt n k i j h × Rewound h n fork l)
RunEnds attempt n k i m l abandoned = EndsBy attempt n k i m l stopped
RunEnds attempt n k i m l gave_up = EndsBy attempt n k i m l panicked ⊎ Fails attempt n k i m l

-- What the task does to the tracked blocks and the watermark, from the indexer that its attempts left.
abbrev pub After : Work → ℕ → Indexer → Work → TaskEnd → Type 0
After w n l v committed =
    (lookup ℕ_discrete n v.failed_blocks ≡ none)
    × (lookup ℕ_discrete n v.next_retry ≡ none)
    × (l.last_indexed ≤ v.indexer.last_indexed)
    × (n ≤ v.indexer.last_indexed)
After w n l v rewound =
    (v.failed_blocks ≡ w.failed_blocks) × (v.next_retry ≡ w.next_retry) × (v.indexer ≡ l)
After w n l v abandoned =
    (v.failed_blocks ≡ w.failed_blocks) × (v.next_retry ≡ w.next_retry) × (v.indexer ≡ l)
After w n l v gave_up =
    (count_of v.failed_blocks n ≡ count_of w.failed_blocks n + 1)
    × (v.next_retry ≡ w.next_retry)
    × (v.indexer ≡ l)
