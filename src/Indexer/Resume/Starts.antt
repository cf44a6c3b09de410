-- ===== src/Indexer/Resume/Starts.antt =====
-- That the start of indexing passes over no block, internal/indexer/indexer.go.
use blob_indexer_api.Common.{
  In, Bool-cases, ◌≢◌, ℕ, ◌+◌, ◌≤◌, ◌<◌, ◌≡◌, refl, ◌⊎◌, inl, inr, true, false, if◌then◌else◌, ltb,
  Option, none, some, List, [], ◌∷◌, arith, Option-cases, dec_le,
}
use blob_indexer_api.Db.Blocks.{contains, get_first_unindexed_block}
use blob_indexer_api.Db.FirstGap.{get_first_unindexed_block-IsFirstGap}
use blob_indexer_api.Indexer.Resume.{
  StartBlock, Result, Row, Cursor, no_cursor, read_row, read_rows, World, get_backfill_cursor_state,
  first_unindexed, resolve_configured_start_block, resume_below_target, known_target, or_some,
  resume_active, backfill_resume_block, next_block, resume_from, determine_start_block, unset,
  latest, latest_minus, fixed, ok, err, backfill_active, backfill_current_block,
  backfill_target_block,
}

Result-cases {ℓ} : {A : Type ℓ} (r : Result A) → (r ≡ err) ⊎ ((a : A) × (r ≡ ok a))
Result-cases (ok a) = inr (a, refl)
Result-cases err = inl refl

-- A block is below the start, at or above `r`, or has a row.
abbrev pub Covered : World → ℕ → ℕ → ℕ → Type 0
Covered world start r n = (n < start) ⊎ (r ≤ n) ⊎ (contains world.rows n ≡ true)

first_unindexed-Covered :
    (world : World) (a b r n : ℕ) → first_unindexed world a b ≡ ok r → Covered world a r n
unfolding first_unindexed
first_unindexed-Covered world a b r n e = elim (dec_le a b) [
  | yes le ↦
      let gap = get_first_unindexed_block-IsFirstGap world.rows a b le in
      ground (arith, gap.covered n)
  | no gt ↦ ground (arith, beyond a b)
]
  where
    beyond : (a b : ℕ) → (a ≤ b) ⊎ (get_first_unindexed_block world.rows a b ≡ b + 1)
    beyond a b = unfold get_first_unindexed_block in ground arith

resume_active-Covered :
    (world : World) (start : ℕ) (target : Option ℕ) (c : Cursor) (r n : ℕ)
    → resume_active world start target c ≡ ok (some r)
    → Covered world start r n
unfolding resume_active resume_below_target
resume_active-Covered world start target c r n e = elim (Option-cases c.current_block) [
  | inr (current, set) ↦ ground (arith, first_unindexed-Covered world start current r n)
  | inl absent ↦ elim (Result-cases (known_target world (or_some c.target_block target))) [
    | inl fails ↦ absurd (ground arith)
    | inr (end_block, known) ↦ ground (arith, first_unindexed-Covered world start end_block r n)
  ]
]

-- A resumed backfill passes over no block, from the configured start on, that has no row.
pub backfill_resume_block-Covered :
    (world : World) (start : ℕ) (target : Option ℕ) (r n : ℕ)
    → backfill_resume_block world start target ≡ ok (some r)
    → Covered world start r n
unfolding backfill_resume_block
backfill_resume_block-Covered world start target r n e =
    elim (Result-cases (get_backfill_cursor_state world)) [
      | inl fails ↦ absurd (ground arith)
      | inr (c, read) ↦ ground (arith, resume_active-Covered world start target c r n)
    ]

-- The metadata says that a backfill is under way: the row of its key, which no other row has.
abbrev pub IsBackfilling : World → Type 0
IsBackfilling world =
    (world.connected ≡ true)
    × ((metadata : List Row) × (world.metadata ≡ some metadata)
        × In (backfill_active (some true)) metadata
        × (¬ In (backfill_active (some false)) metadata))

-- Where the configured start is, with the head of the chain.
abbrev pub StartsAt : World → StartBlock → ℕ → Type 0
StartsAt world unset start = ⊥
StartsAt world latest start = world.head ≡ some start
StartsAt world (latest_minus offset) start =
    (head k : ℕ) × (world.head ≡ some head)
    × (offset ≡ some k)
    × ((start + k ≡ head) ⊎ ((head < k) × (start ≡ 0)))
StartsAt world (fixed n) start = n ≡ some start

read_rows-active :
    (rows : List Row) (c d : Cursor)
    → read_rows rows c ≡ ok d
    → ¬ In (backfill_active (some false)) rows
    → In (backfill_active (some true)) rows ⊎ ((c.active_set ≡ true) × (c.active ≡ true))
    → (d.active_set ≡ true) × (d.active ≡ true)
unfolding read_rows read_row
read_rows-active [] c d e no_false h = ground (arith, e, h)
read_rows-active (backfill_active none ∷ rows) c d e no_false h = absurd (ground (arith, e))
read_rows-active (backfill_active (some true) ∷ rows) c d e no_false h =
    read_rows-active rows (record c { active = true; active_set = true }) d e
      (λ i. no_false (inr i)) (inr (refl, refl))
read_rows-active (backfill_active (some false) ∷ rows) c d e no_false h =
    absurd (no_false (inl refl))
read_rows-active (backfill_current_block none ∷ rows) c d e no_false h = absurd (ground (arith, e))
read_rows-active (backfill_current_block (some n) ∷ rows) c d e no_false h =
    read_rows-active rows (record c { current_block = some n }) d e (λ i. no_false (inr i))
      (ground (arith, h))
read_rows-active (backfill_target_block none ∷ rows) c d e no_false h = absurd (ground (arith, e))
read_rows-active (backfill_target_block (some n) ∷ rows) c d e no_false h =
    read_rows-active rows (record c { target_block = some n }) d e (λ i. no_false (inr i))
      (ground (arith, h))

resume_active-some :
    (world : World) (start : ℕ) (target : Option ℕ) (c : Cursor)
    → resume_active world start target c ≢ ok none
unfolding resume_active resume_below_target
resume_active-some world start target c e = elim (Option-cases c.current_block) [
  | inr (current, set) ↦ ground (arith, e, set, Result-cases (first_unindexed world start current))
  | inl absent ↦ elim (Result-cases (known_target world (or_some c.target_block target))) [
    | inl fails ↦ ground (arith, e, absent, fails)
    | inr (end_block, known) ↦
        ground (arith, e, absent, known, Result-cases (first_unindexed world start end_block))
  ]
]

-- A backfill that is under way is resumed, or the start fails.
backfill_resume_block-none :
    (world : World) (start : ℕ) (target : Option ℕ)
    → backfill_resume_block world start target ≡ ok none
    → ¬ IsBackfilling world
unfolding backfill_resume_block get_backfill_cursor_state
backfill_resume_block-none world start target e (connected, (rows, read, active, no_false)) =
    elim (Result-cases (read_rows rows no_cursor)) [
      | inl fails ↦ ground (arith, e, connected, read, fails)
      | inr (c, done) ↦
          let (set, on) = read_rows-active rows no_cursor c done no_false (inl active) in
          ground (arith, e, connected, read, done, set, on, resume_active-some world start target c)
    ]

resume_from-Covered :
    (world : World) (start : ℕ) (target : Option ℕ) (last r n : ℕ)
    → resume_from world start target last ≡ ok r
    → Covered world start r n ⊎ ((¬ IsBackfilling world) × (n ≤ last))
unfolding resume_from next_block
resume_from-Covered world start target last r n e =
    elim (Result-cases (backfill_resume_block world start target)) [
      | inl fails ↦ absurd (ground arith)
      | inr (none, resumed) ↦ elim (dec_le n last) [
        | yes below ↦ inr (backfill_resume_block-none world start target resumed, below)
        | no above ↦ inl (ground arith)
      ]
      | inr (some m, resumed) ↦
          inl (ground (arith, backfill_resume_block-Covered world start target m n resumed))
    ]

started :
    (world : World) (start last r n : ℕ) (target : Option ℕ)
    → (if ltb 0 last then resume_from world start target last else ok start) ≡ ok r
    → Covered world start r n ⊎ ((¬ IsBackfilling world) × (n ≤ last))
started world start last r n target e = elim (Bool-cases (ltb 0 last)) [
  | inl running ↦ resume_from-Covered world start target last r n (ground (arith, e, running))
  | inr fresh ↦ inl (ground (arith, e, fresh))
]

-- `determineStartBlock` passes over no block, from the configured start on, that has no row,
-- unless the block is at or below the last indexed one and the metadata does not say that a backfill
-- is under way. The configured start is the head, so many blocks below it and no lower than 0, or
-- the number given.
pub determine_start_block-Covered :
    (world : World) (configured : StartBlock) (last start r n : ℕ)
    → StartsAt world configured start
    → determine_start_block world configured last ≡ ok r
    → Covered world start r n ⊎ ((¬ IsBackfilling world) × (n ≤ last))
unfolding determine_start_block resolve_configured_start_block
determine_start_block-Covered world unset last start r n set e = absurd set
determine_start_block-Covered world latest last start r n set e =
    started world start last r n (some start) (ground (arith, e, set))
determine_start_block-Covered world (latest_minus k) last start r n (head, j, up, off, at) e =
    started world start last r n (some head) (ground (arith, e, up, off, at))
determine_start_block-Covered world (fixed k) last start r n set e =
    started world start last r n none (ground (arith, e, set))
