-- ===== src/Indexer/Workers/Tests.antt =====
-- A task that fails once, and failed blocks in and beyond their budget.
use blob_indexer_api.Common.{
  ℕ, zero, suc, ◌+◌, ◌≡◌, ◌≤◌, ◌<◌, refl, true, false, some, none, arith, [], ◌∷◌, ℕ_discrete,
}
use blob_indexer_api.Common.Maps.{lookup}
use blob_indexer_api.Db.Blocks.{contains}
use blob_indexer_api.Indexer.Reorg.{Store, Indexer, absent, commits}
use blob_indexer_api.Indexer.Workers.{
  Attempt, unread, read, retry_all, retry_one, Work, safety_retry_interval, retry_failed_blocks,
}
use blob_indexer_api.Indexer.Workers.Retries.{DistinctKeys, stays, retry_failed_blocks-queues}

abbrev empty_store : Store
empty_store = record {
  indexed = [];
  blobs = [];
  block_metrics = [];
  block_builders = [];
  candidates = [];
  last_indexed_block = absent;
  reorg_rewind_from = absent;
  reorg_invalidated_through = absent;
}

abbrev work : Work
work = record {
  indexer = record {
    store = empty_store;
    last_indexed = 2;
    reorg_detected = false;
    rewind_from = 0;
    invalidated_through = 0;
    reorg_epoch = 0;
    recovery_signaled = false;
  };
  queue = record { in_flight = (5, 1) ∷ []; tasks = 5 ∷ [] };
  failed_blocks = (5, 3) ∷ (4, 11) ∷ [];
  next_retry = (4, 100) ∷ [];
}

-- The first attempt finds no block; the second stores it, with no parent to compare.
abbrev second_try : ℕ → Attempt
second_try zero = unread
second_try (suc k) =
    read
      (record {
        node = λ n. none;
        readable = λ n. true;
        max_depth = 64;
        parent = "p";
        tx = commits;
      })
      (some (λ d. record d { indexed = (5, "h") ∷ d.indexed }))

distinct : DistinctKeys ((5, 3) ∷ (4, 11) ∷ [])
unfolding contains
distinct = (refl, (refl, tt))

found : lookup ℕ_discrete 4 work.failed_blocks ≡ some 11
unfolding lookup ℕ_discrete
found = refl

left_out : contains (retry_failed_blocks 50 work).0 4 ≡ false
unfolding retry_failed_blocks retry_all retry_one contains lookup ℕ_discrete
left_out = refl

set_before :
    (due : ℕ) → lookup ℕ_discrete 4 work.next_retry ≡ some due → due ≤ 50 + safety_retry_interval
unfolding lookup ℕ_discrete
set_before due e = ground (arith, e)

retry_failed_blocks-queues_example :
    (10 < 11)
    × (contains
          (retry_failed_blocks (50 + safety_retry_interval) (retry_failed_blocks 50 work).1).0
          4
        ≡ true)
retry_failed_blocks-queues_example =
    retry_failed_blocks-queues 50 (50 + safety_retry_interval) 4 11 work
      (retry_failed_blocks 50 work).1 distinct found set_before left_out stays (omega arith)
