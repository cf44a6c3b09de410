-- ===== src/Indexer/Reorg/Rewind.antt =====
-- What `handleReorg` leaves behind, on success and on failure.
use blob_indexer_api.Common.{
  ℕ, ◌+◌, ◌-◌, ◌%◌, ◌^◌, ◌≤◌, ◌≡◌, refl, ◌⊎◌, inl, inr, Bool, true, false, ◌&&◌, if◌then◌else◌, ltb,
  leb, Option, none, some, List, [], ◌∷◌, String, ℕ_discrete, arith, Option-cases,
}
use blob_indexer_api.Common.Maps.{lookup}
use blob_indexer_api.Db.Blocks.{contains}
use blob_indexer_api.Indexer.Reorg.{
  Store, Indexer, Meta, absent, unparseable, number, Scan, scan_failed, stopped_at, find_fork,
  delete_from, delete_indexed_from, max_indexed, invalidated_end, delete_invalidated, Transaction,
  commits, commit_fails, statement_fails, handled, rewind_to, handle_reorg, merge_from,
  merge_through, merge_reorg_recovery_marker, signal_reorg_reset,
}
use blob_indexer_api.Indexer.Reorg.ForkPoint.{IsFork, find_fork-IsFork}

contains-delete_from :
    (n k : ℕ) (rows : List ℕ) → contains (delete_from n rows) k ≡ (ltb k n && contains rows k)
unfolding contains delete_from
contains-delete_from n k [] = ground arith
contains-delete_from n k (x ∷ rows) = ground (arith, contains-delete_from n k rows)

lookup-delete_indexed_from :
    (n k : ℕ) (rows : List (ℕ × String))
    → lookup ℕ_discrete k (delete_indexed_from n rows)
      ≡ (if ltb k n then lookup ℕ_discrete k rows else none)
unfolding lookup delete_indexed_from
lookup-delete_indexed_from n k [] = ground arith
lookup-delete_indexed_from n k ((x, h) ∷ rows) = ground (arith, lookup-delete_indexed_from n k rows)

max_indexed_bound :
    (k : ℕ) (rows : List (ℕ × String))
    → (lookup ℕ_discrete k rows ≡ none) ⊎ ((m : ℕ) × (max_indexed rows ≡ some m) × (k ≤ m))
unfolding lookup max_indexed
max_indexed_bound k [] = inl refl
max_indexed_bound k ((x, g) ∷ rows) = elim (max_indexed_bound k rows) [
  | inl missing ↦ elim (ℕ_discrete x k) [
    | no other ↦ inl (ground arith)
    | yes same ↦ elim (Option-cases (max_indexed rows)) [
      | inl e ↦ inr (x, ground arith, omega arith)
      | inr (m, e) ↦ inr ((if ltb m x then x else m), ground arith, ground arith)
    ]
  ]
  | inr (m, e, le) ↦ inr ((if ltb m x then x else m), ground arith, ground arith)
]

invalidated_end_bounds :
    (d : Store) (fork from k : ℕ)
    → (from ≤ invalidated_end d fork from)
      × ((lookup ℕ_discrete k d.indexed ≡ none) ⊎ (k ≤ invalidated_end d fork from))
unfolding invalidated_end
invalidated_end_bounds d fork from k = ground (arith, max_indexed_bound k d.indexed)

-- The rows of one table after the deletion.
abbrev pub Pruned : ℕ → List ℕ → List ℕ → Type 0
Pruned fork rows rows' = (k : ℕ) → contains rows' k ≡ (leb k fork && contains rows k)

-- The number is no larger, or no smaller, than a number recorded before.
abbrev pub NotAbove : ℕ → Meta → Type 0
NotAbove a absent = Unit
NotAbove a unparseable = Unit
NotAbove a (number p) = a ≤ p

abbrev pub NotBelow : ℕ → Meta → Type 0
NotBelow b absent = Unit
NotBelow b unparseable = Unit
NotBelow b (number p) = p ≤ b

pub record Rewound (i : Indexer) (from fork : ℕ) (j : Indexer) : Type 0 where
  pub indexed :
      (k : ℕ)
      → lookup ℕ_discrete k j.store.indexed
        ≡ (if leb k fork then lookup ℕ_discrete k i.store.indexed else none)
  pub blobs : Pruned fork i.store.blobs j.store.blobs
  pub block_metrics : Pruned fork i.store.block_metrics j.store.block_metrics
  pub block_builders : Pruned fork i.store.block_builders j.store.block_builders
  pub candidates : Pruned fork i.store.candidates j.store.candidates
  pub position : (j.last_indexed ≡ fork) × (j.store.last_indexed_block ≡ number fork)
  pub signaled :
      (j.reorg_detected ≡ true) × (j.rewind_from ≤ fork + 1) × (from ≤ j.invalidated_through)
  pub signal_covers :
      (k : ℕ) → (lookup ℕ_discrete k i.store.indexed ≡ none) ⊎ (k ≤ j.invalidated_through)
  pub signal_widens :
      (i.reorg_detected ≡ false)
      ⊎ ((j.rewind_from ≤ i.rewind_from) × (i.invalidated_through ≤ j.invalidated_through))
  pub marked :
      (a b : ℕ) × (j.store.reorg_rewind_from ≡ number a)
      × (j.store.reorg_invalidated_through ≡ number b)
      × (a ≤ fork + 1)
      × (from ≤ b)
      × ((k : ℕ) → (lookup ℕ_discrete k i.store.indexed ≡ none) ⊎ (k ≤ b))
      × NotAbove a i.store.reorg_rewind_from
      × NotBelow b i.store.reorg_invalidated_through
      × ((i.recovery_signaled ≡ true) ⊎ ((j.rewind_from ≤ a) × (b ≤ j.invalidated_through)))
  pub fenced : j.reorg_epoch ≡ (i.reorg_epoch + 1) % 2 ^ 64

merge_from_bounds : (m : Meta) (n : ℕ) → (merge_from m n ≤ n) × NotAbove (merge_from m n) m
unfolding merge_from
merge_from_bounds absent n = (omega arith, tt)
merge_from_bounds unparseable n = (omega arith, tt)
merge_from_bounds (number p) n = ground arith

merge_through_bounds : (m : Meta) (n : ℕ) → (n ≤ merge_through m n) × NotBelow (merge_through m n) m
unfolding merge_through
merge_through_bounds absent n = (omega arith, tt)
merge_through_bounds unparseable n = (omega arith, tt)
merge_through_bounds (number p) n = ground arith

rewind_to-Rewound :
    (i : Indexer) (from fork : ℕ) → Rewound i from fork (rewind_to i from fork commits).0
unfolding rewind_to signal_reorg_reset delete_invalidated merge_reorg_recovery_marker
rewind_to-Rewound i from fork =
    let through = invalidated_end i.store fork from in
    let low = merge_from_bounds i.store.reorg_rewind_from (fork + 1) in
    let high = merge_through_bounds i.store.reorg_invalidated_through through in
    record {
      indexed = λ k. ground (arith, lookup-delete_indexed_from (fork + 1) k i.store.indexed);
      blobs = λ k. ground (arith, contains-delete_from (fork + 1) k i.store.blobs);
      block_metrics = λ k. ground (arith, contains-delete_from (fork + 1) k i.store.block_metrics);
      block_builders =
          λ k. ground (arith, contains-delete_from (fork + 1) k i.store.block_builders);
      candidates = λ k. ground (arith, contains-delete_from (fork + 1) k i.store.candidates);
      position = ground arith;
      signaled = ground (arith, low.0, high.0, invalidated_end_bounds i.store fork from 0);
      signal_covers =
          λ k. ground (arith, low.0, high.0, invalidated_end_bounds i.store fork from k);
      signal_widens = ground arith;
      marked = (
        merge_from i.store.reorg_rewind_from (fork + 1),
        merge_through i.store.reorg_invalidated_through through,
        ground arith,
        ground arith,
        low.0,
        ground (arith, high.0, invalidated_end_bounds i.store fork from 0),
        (λ k. ground (arith, high.0, invalidated_end_bounds i.store fork from k)),
        low.1,
        high.1,
        ground arith,
      );
      fenced = ground arith;
    }

Scan-cases : (s : Scan) → (s ≡ scan_failed) ⊎ ((k : ℕ) × (b : Bool) × (s ≡ stopped_at k b))
Scan-cases scan_failed = inl refl
Scan-cases (stopped_at k b) = inr (k, b, refl)

rewind_to-handled :
    (i : Indexer) (from k fork : ℕ) (tx : Transaction)
    → (rewind_to i from k tx).1 ≡ handled fork
    → (tx ≡ commits) × (k ≡ fork)
unfolding rewind_to
rewind_to-handled i from k fork statement_fails e = cc
rewind_to-handled i from k fork commit_fails e = cc
rewind_to-handled i from k fork commits e = (refl, cc)

-- A reorg that is handled from block `from` with fork point `fork`: `fork` is where the walk down
-- from the parent stopped; from then on no table holds a row above `fork`, and every row up to it
-- is as before; the watermark is `fork`; the raised signal covers `fork + 1`, `from` and every
-- block that lost its row, and is no narrower than one that was pending; the persisted marker
-- covers the same and is no narrower than the one before; the first reorg of the process signals
-- the whole marker; and the epoch has moved on.
pub handle_reorg-Rewound :
    (node : ℕ → Option String) (readable : ℕ → Bool) (depth : ℕ) (i : Indexer) (from : ℕ)
    (tx : Transaction) (fork : ℕ)
    → (handle_reorg node readable depth i from tx).1 ≡ handled fork
    → ((found : Bool) × IsFork node i.store depth (from - 1) fork found)
      × Rewound i from fork (handle_reorg node readable depth i from tx).0
unfolding handle_reorg
handle_reorg-Rewound node readable depth i from tx fork e =
    elim (Scan-cases (find_fork node readable i.store depth (from - 1))) [
      | inl scan ↦ absurd (ground arith)
      | inr (k, found, scan) ↦
          let (commit, same) = rewind_to-handled i from k fork tx (ground arith) in
          rw (scan, commit, same, handle_reorg)
            (
              (
                found,
                find_fork-IsFork node readable i.store depth (from - 1) fork found (ground arith),
              ),
              rewind_to-Rewound i from fork,
            )
    ]
