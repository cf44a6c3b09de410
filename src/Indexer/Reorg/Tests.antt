-- ===== src/Indexer/Reorg/Tests.antt =====
-- Runs of the reorg handling on three indexed blocks.
use blob_indexer_api.Common.{
  ◌≢◌, sort, All, ℕ, ◌≤◌, ◌≡◌, refl, Bool, true, false, leb, if◌then◌else◌, Option, none, some,
  List, [], ◌∷◌, String, ℕ_discrete, string_discrete, arith,
}
use blob_indexer_api.Common.Maps.{lookup}
use blob_indexer_api.Db.Blocks.{
  contains, get_first_unindexed_block, between, gap_starts, last_row, minimum, coalesce, after_last,
  gap_candidates,
}
use blob_indexer_api.Indexer.Reorg.{
  Indexer, Store, absent, number, handled, handle_reorg, find_fork, get_indexed_block_hash,
  rewind_to, commits, stopped_at, failed, consume_reorg_reset, block_numbers,
}
use blob_indexer_api.Indexer.Reorg.Marker.{
  read_marker, marker, get_reorg_recovery_marker, complete_reorg_recovery, verify_recovery,
  finish_recovery,
}
use blob_indexer_api.Indexer.Reorg.ForkPoint.{IsFork, find_fork-IsFork}
use blob_indexer_api.Indexer.Reorg.Rewind.{Rewound, handle_reorg-Rewound}
use blob_indexer_api.Indexer.Reorg.Recovery.{
  Indexed, signal_all, consume-signal_all, complete_reorg_recovery-Indexed,
  complete_reorg_recovery_fenced,
}

abbrev store : Store
store = record {
  indexed = (3, "c") ∷ (2, "b") ∷ (1, "a") ∷ [];
  blobs = 3 ∷ 1 ∷ [];
  block_metrics = 3 ∷ 2 ∷ 1 ∷ [];
  block_builders = 3 ∷ 2 ∷ 1 ∷ [];
  candidates = 3 ∷ [];
  last_indexed_block = number 3;
  reorg_rewind_from = absent;
  reorg_invalidated_through = absent;
}

abbrev indexer : Indexer
indexer = record {
  store = store;
  last_indexed = 3;
  reorg_detected = false;
  rewind_from = 0;
  invalidated_through = 0;
  reorg_epoch = 7;
  recovery_signaled = false;
}

-- Block 1 is canonical, what was stored above it is not.
abbrev node : ℕ → Option String
node n = if leb n 1 then some "a" else some "x"

abbrev readable : ℕ → Bool
readable n = true

fork_at_1 : find_fork node readable store 64 3 ≡ stopped_at 1 true
unfolding find_fork get_indexed_block_hash lookup ℕ_discrete string_discrete
fork_at_1 = refl

find_fork-IsFork_example : IsFork node store 64 3 1 true
find_fork-IsFork_example = find_fork-IsFork node readable store 64 3 1 true fork_at_1

handled_at_1 : (handle_reorg node readable 64 indexer 4 commits).1 ≡ handled 1
unfolding handle_reorg rewind_to find_fork get_indexed_block_hash lookup ℕ_discrete string_discrete
handled_at_1 = refl

handle_reorg-Rewound_example :
    ((found : Bool) × IsFork node store 64 3 1 found)
    × Rewound indexer 4 1 (handle_reorg node readable 64 indexer 4 commits).0
handle_reorg-Rewound_example =
    handle_reorg-Rewound node readable 64 indexer 4 commits 1 handled_at_1

-- A node that does not answer.
abbrev silent : ℕ → Option String
silent n = none

fails : (handle_reorg silent readable 64 indexer 4 commits).1 ≡ failed
unfolding handle_reorg rewind_to find_fork get_indexed_block_hash lookup ℕ_discrete string_discrete
fails = refl

abbrev constant : ℕ → Option String
constant n = some "x"

constant-ne-none : (n : ℕ) → constant n ≢ none
constant-ne-none n e = cc

abbrev signals : List (ℕ × ℕ)
signals = (5, 9) ∷ (3, 4) ∷ (6, 12) ∷ []

consume-signal_all_example :
    let (from, through, j) = consume_reorg_reset (signal_all indexer signals) in
    All (λ p. (from ≤ p.0) × (p.1 ≤ through)) signals × (j.reorg_detected ≡ false)
consume-signal_all_example = consume-signal_all indexer signals

-- The blocks 2 and 3 were to be indexed again, and are.
abbrev recovered : Indexer
recovered = record indexer {
  store = record store { reorg_rewind_from = number 2; reorg_invalidated_through = number 3 };
}

marker_gone :
    (complete_reorg_recovery recovered recovered 7 true true true).store.reorg_rewind_from ≡ absent
unfolding complete_reorg_recovery verify_recovery finish_recovery get_reorg_recovery_marker
    get_first_unindexed_block between gap_starts last_row minimum coalesce after_last gap_candidates
    block_numbers contains sort
marker_gone = refl

complete_reorg_recovery-Indexed_example :
    (recovered.reorg_epoch ≡ 7)
    × ((from through : ℕ) × (read_marker recovered.store ≡ marker from through)
        × Indexed recovered.store from through)
complete_reorg_recovery-Indexed_example =
    complete_reorg_recovery-Indexed recovered recovered 7 2 true true true refl marker_gone

recovered_handled : (handle_reorg node readable 64 recovered 4 commits).1 ≡ handled 1
unfolding handle_reorg rewind_to find_fork get_indexed_block_hash lookup ℕ_discrete string_discrete
recovered_handled = refl

complete_reorg_recovery_fenced_example :
    let j = (handle_reorg node readable 64 recovered 4 commits).0 in
    let k = complete_reorg_recovery recovered j 7 true true true in
    (k.store ≡ j.store) × (k.reorg_detected ≡ true) × (k.rewind_from ≤ 2)
complete_reorg_recovery_fenced_example =
    complete_reorg_recovery_fenced node readable 64 recovered 4 commits 1 true true true
      (omega arith) recovered_handled
