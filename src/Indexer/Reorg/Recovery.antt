-- ===== src/Indexer/Reorg/Recovery.antt =====
-- The reorg signal between the block workers and the main loop, and the persisted marker.
use blob_indexer_api.Common.{
  ℕ, ◌+◌, ◌^◌, ◌≤◌, ◌<◌, ◌≡◌, ◌≢◌, refl, ◌⊎◌, inl, inr, Bool, true, false, Option, List, [], ◌∷◌,
  String, arith, All,
}
use blob_indexer_api.Db.Blocks.{contains}
use blob_indexer_api.Db.FirstGap.{get_first_unindexed_block-IsFirstGap}
use blob_indexer_api.Indexer.Reorg.{
  Store, Indexer, Meta, absent, unparseable, number, block_numbers, Transaction, handled,
  handle_reorg, signal_reorg_reset, consume_reorg_reset,
}
use blob_indexer_api.Indexer.Reorg.Marker.{
  Marker, marker, no_marker, bad_marker, read_marker, get_reorg_recovery_marker, Verdict, keep,
  uncovered, covered, verify_recovery, finish_recovery, complete_reorg_recovery,
}
use blob_indexer_api.Indexer.Reorg.Rewind.{handle_reorg-Rewound}

unfoldable pub signal_all : Indexer → List (ℕ × ℕ) → Indexer
signal_all i [] = i
signal_all i ((from, through) ∷ signals) = signal_all (signal_reorg_reset i from through) signals

abbrev Covers : Indexer → ℕ × ℕ → Type 0
Covers i (from, through) = (i.rewind_from ≤ from) × (through ≤ i.invalidated_through)

-- A signal never narrows what is pending.
signal_all-widens :
    (i : Indexer) (signals : List (ℕ × ℕ)) (p : ℕ × ℕ)
    → i.reorg_detected ≡ true
    → Covers i p
    → ((signal_all i signals).reorg_detected ≡ true) × Covers (signal_all i signals) p
unfolding signal_all signal_reorg_reset
signal_all-widens i [] p d c = (d, c)
signal_all-widens i ((from, through) ∷ signals) p d c =
    signal_all-widens (signal_reorg_reset i from through) signals p (ground arith) (ground arith)

-- However many reorgs are signalled before the main loop looks, the range that it takes up covers
-- each of them, and taking it up clears the flag.
pub consume-signal_all :
    (i : Indexer) (signals : List (ℕ × ℕ))
    → let (from, through, j) = consume_reorg_reset (signal_all i signals) in
      All (λ p. (from ≤ p.0) × (p.1 ≤ through)) signals × (j.reorg_detected ≡ false)
unfolding signal_all signal_reorg_reset consume_reorg_reset
consume-signal_all i [] = (tt, refl)
consume-signal_all i ((from, through) ∷ signals) =
    let next = signal_reorg_reset i from through in
    (
      (
        (signal_all-widens next signals (from, through) (ground arith) (ground arith)).1,
        (consume-signal_all next signals).0,
      ),
      refl,
    )

Verdict-cases :
    (v : Verdict) → (v ≡ keep) ⊎ ((a b : ℕ) × (v ≡ uncovered a b)) ⊎ ((a b : ℕ) × (v ≡ covered a b))
Verdict-cases keep = inl refl
Verdict-cases (uncovered a b) = inr (inl (a, b, refl))
Verdict-cases (covered a b) = inr (inr (a, b, refl))

Marker-cases : (m : Marker) → (m ≡ no_marker) ⊎ (m ≡ bad_marker) ⊎ ((a b : ℕ) × (m ≡ marker a b))
Marker-cases no_marker = inl refl
Marker-cases bad_marker = inr (inl refl)
Marker-cases (marker a b) = inr (inr (a, b, refl))

marker-le : (m n : Meta) (a b : ℕ) → get_reorg_recovery_marker m n ≡ marker a b → a ≤ b
unfolding get_reorg_recovery_marker
marker-le absent absent a b e = cc
marker-le absent unparseable a b e = cc
marker-le absent (number q) a b e = cc
marker-le unparseable absent a b e = cc
marker-le unparseable unparseable a b e = cc
marker-le unparseable (number q) a b e = cc
marker-le (number p) absent a b e = cc
marker-le (number p) unparseable a b e = cc
marker-le (number p) (number q) a b e = ground arith

-- Every block of the range has its row.
abbrev pub Indexed : Store → ℕ → ℕ → Type 0
Indexed d a b = (n : ℕ) → a ≤ n → n ≤ b → contains (block_numbers d.indexed) n ≡ true

Indexed-of_covered :
    (d : Store) (readable scannable : Bool) (a b : ℕ)
    → verify_recovery d readable scannable ≡ covered a b
    → (read_marker d ≡ marker a b) × Indexed d a b
unfolding verify_recovery
Indexed-of_covered d readable scannable a b e = elim (Marker-cases (read_marker d)) [
  | inl m ↦ absurd (ground arith)
  | inr (inl m) ↦ absurd (ground arith)
  | inr (inr (x, y, m)) ↦
      let le : x ≤ y = marker-le d.reorg_rewind_from d.reorg_invalidated_through x y m in
      let gap = get_first_unindexed_block-IsFirstGap (block_numbers d.indexed) x y le in
      (ground arith, λ n lo hi. ground (arith, gap.covered n))
]

-- The marker goes only when no cleanup has committed since the epoch was read, and every block of
-- the range of the marker that was read had its row when the scan ran.
pub complete_reorg_recovery-Indexed :
    (before now : Indexer) (epoch a : ℕ) (readable scannable deletes : Bool)
    → now.store.reorg_rewind_from ≡ number a
    → (complete_reorg_recovery before now epoch readable scannable deletes).store.reorg_rewind_from
      ≡ absent
    → (now.reorg_epoch ≡ epoch)
      × ((from through : ℕ) × (read_marker before.store ≡ marker from through)
          × Indexed before.store from through)
unfolding complete_reorg_recovery finish_recovery signal_reorg_reset
complete_reorg_recovery-Indexed before now epoch a readable scannable deletes there gone =
    elim (Verdict-cases (verify_recovery before.store readable scannable)) [
      | inl v ↦ absurd (ground arith)
      | inr (inl (x, y, v)) ↦ absurd (ground arith)
      | inr (inr (x, y, v)) ↦
          let (read, indexed) = Indexed-of_covered before.store readable scannable x y v in
          (ground arith, (x, y, read, indexed))
    ]

finish_recovery_fenced :
    (v : Verdict) (epoch : ℕ) (deletes : Bool) (fork : ℕ) (j : Indexer)
    → j.reorg_epoch ≢ epoch
    → j.reorg_detected ≡ true
    → j.rewind_from ≤ fork + 1
    → let k = finish_recovery v epoch deletes j in
      (k.store ≡ j.store) × (k.reorg_detected ≡ true) × (k.rewind_from ≤ fork + 1)
unfolding finish_recovery signal_reorg_reset
finish_recovery_fenced keep epoch deletes fork j moved d r = (refl, d, r)
finish_recovery_fenced (uncovered a b) epoch deletes fork j moved d r = ground arith
finish_recovery_fenced (covered a b) epoch deletes fork j moved d r = ground arith

-- A reorg that commits after the state is read keeps its marker and its signal: whatever the
-- coverage scan of the state before it says, `completeReorgRecoveryIfCovered` leaves the database
-- as the reorg left it, and the main loop still steps back to the block above the fork. The epoch
-- is a 64-bit counter.
pub complete_reorg_recovery_fenced :
    (node : ℕ → Option String) (reads : ℕ → Bool) (depth : ℕ) (i : Indexer) (from : ℕ)
    (tx : Transaction) (fork : ℕ) (readable scannable deletes : Bool)
    → i.reorg_epoch < 2 ^ 64
    → (handle_reorg node reads depth i from tx).1 ≡ handled fork
    → let j = (handle_reorg node reads depth i from tx).0 in
      let k = complete_reorg_recovery i j i.reorg_epoch readable scannable deletes in
      (k.store ≡ j.store) × (k.reorg_detected ≡ true) × (k.rewind_from ≤ fork + 1)
unfolding complete_reorg_recovery
complete_reorg_recovery_fenced node reads depth i from tx fork readable scannable deletes small e =
    let done = (handle_reorg-Rewound node reads depth i from tx fork e).1 in
    finish_recovery_fenced (verify_recovery i.store readable scannable) i.reorg_epoch deletes fork
      (handle_reorg node reads depth i from tx).0 (omega (arith, done.fenced)) done.signaled.0
      done.signaled.1
