-- ===== src/Indexer/Resume.antt =====
-- Where indexing starts, internal/indexer/indexer.go: `determineStartBlock` and what it calls. The
-- configured start block comes parsed: `LATEST`, `LATEST-k` or a number, where a number that does
-- not parse is `none`.
pub mod Starts
use blob_indexer_api.Common.{
  In, Bool-cases, ◌≢◌, ℕ, ◌+◌, ◌-◌, ◌≤◌, ◌<◌, ◌≡◌, refl, ◌⊎◌, inl, inr, Bool, true, false, ◌||◌,
  not, if◌then◌else◌, ltb, Option, none, some, List, [], ◌∷◌, arith, Option-cases, dec_le,
}
use blob_indexer_api.Db.Blocks.{contains, get_first_unindexed_block}

pub data StartBlock : Type 0 where
  unset latest : StartBlock
  latest_minus fixed : Option ℕ → StartBlock

pub data Result {ℓ} (A : Type ℓ) : Type ℓ where
  ok : A → Result A
  err : Result A

infixl 5 ◌>>=◌
abbrev ◌>>=◌ {ℓ κ} : {A : Type ℓ} {B : Type κ} → Result A → (A → Result B) → Result B
ok a >>= f = f a
err >>= f = err

abbrev pub or_err {ℓ} : {A : Type ℓ} → Option A → Result A
or_err none = err
or_err (some a) = ok a

-- One row of `indexer_metadata`, by its key: the value parsed, or `none`.
pub data Row : Type 0 where
  backfill_active : Option Bool → Row
  backfill_current_block backfill_target_block : Option ℕ → Row

-- `backfillCursorState`.
pub record Cursor : Type 0 where
  pub active : Bool
  pub active_set : Bool
  pub current_block : Option ℕ
  pub target_block : Option ℕ

abbrev pub no_cursor : Cursor
no_cursor = record { active = false; active_set = false; current_block = none; target_block = none }

unfoldable pub read_row : Row → Cursor → Result Cursor
read_row (backfill_active none) c = err
read_row (backfill_active (some b)) c = ok (record c { active = b; active_set = true })
read_row (backfill_current_block none) c = err
read_row (backfill_current_block (some n)) c = ok (record c { current_block = some n })
read_row (backfill_target_block none) c = err
read_row (backfill_target_block (some n)) c = ok (record c { target_block = some n })

-- The loop of `getBackfillCursorState`.
unfoldable pub read_rows : List Row → Cursor → Result Cursor
read_rows [] c = ok c
read_rows (row ∷ rows) c = read_row row c >>= read_rows rows

-- What the node and the database answer: the head, the metadata rows, and whether the scan of
-- `indexed_blocks` succeeds, with the table. A missing database is `connected = false`.
pub record World : Type 0 where
  pub head : Option ℕ
  pub connected : Bool
  pub metadata : Option (List Row)
  pub scannable : Bool
  pub rows : List ℕ

-- `getBackfillCursorState`.
unfoldable pub get_backfill_cursor_state : World → Result Cursor
get_backfill_cursor_state world = do rows ← or_err world.metadata; read_rows rows no_cursor

unfoldable pub first_unindexed : World → ℕ → ℕ → Result ℕ
first_unindexed world a b =
    if world.scannable then ok (get_first_unindexed_block world.rows a b) else err

-- `resolveConfiguredStartBlock`, of a start block that is set: the start, and the target if known.
unfoldable pub resolve_configured_start_block : World → StartBlock → Result (ℕ × Option ℕ)
resolve_configured_start_block world unset = err
resolve_configured_start_block world latest = do head ← or_err world.head; ok (head, some head)
resolve_configured_start_block world (latest_minus offset) = do
  head ← or_err world.head
  k ← or_err offset
  ok (if ltb head k then 0 else head - k, some head)
resolve_configured_start_block world (fixed n) = do start ← or_err n; ok (start, none)

-- The end of `backfillResumeBlock`, with no current block recorded.
unfoldable pub resume_below_target : World → ℕ → ℕ → Result (Option ℕ)
resume_below_target world start target =
    if ltb target start
    then ok (some (target + 1))
    else do n ← first_unindexed world start target; ok (some n)

unfoldable pub known_target : World → Option ℕ → Result ℕ
known_target world (some target) = ok target
known_target world none = or_err world.head

abbrev pub or_some {ℓ} : {A : Type ℓ} → Option A → Option A → Option A
or_some (some a) other = some a
or_some none other = other

unfoldable pub resume_active : World → ℕ → Option ℕ → Cursor → Result (Option ℕ)
resume_active world start target c = elim c.current_block [
  | some current ↦
      if ltb current start
      then ok (some start)
      else do n ← first_unindexed world start current; ok (some n)
  | none ↦ do
    end_block ← known_target world (or_some c.target_block target)
    resume_below_target world start end_block
]

-- `backfillResumeBlock`: `none` where there is no active backfill to resume.
unfoldable pub backfill_resume_block : World → ℕ → Option ℕ → Result (Option ℕ)
backfill_resume_block world start target = if not world.connected then ok none else do
  c ← get_backfill_cursor_state world
  if not c.active_set || not c.active then ok none else resume_active world start target c

-- The case of a block already indexed, in `determineStartBlock`.
unfoldable pub next_block : ℕ → ℕ → Option ℕ → ℕ
next_block start last (some n) = n
next_block start last none = if ltb (last + 1) start then start else last + 1

unfoldable pub resume_from : World → ℕ → Option ℕ → ℕ → Result ℕ
resume_from world start target last = do
  resumed ← backfill_resume_block world start target
  ok (next_block start last resumed)

-- `determineStartBlock`, with the last indexed block.
unfoldable pub determine_start_block : World → StartBlock → ℕ → Result ℕ
determine_start_block world unset last = ok (if ltb 0 last then last + 1 else 0)
determine_start_block world latest last = do
  (start, target) ← resolve_configured_start_block world latest
  if ltb 0 last then resume_from world start target last else ok start
determine_start_block world (latest_minus offset) last = do
  (start, target) ← resolve_configured_start_block world (latest_minus offset)
  if ltb 0 last then resume_from world start target last else ok start
determine_start_block world (fixed n) last = do
  (start, target) ← resolve_configured_start_block world (fixed n)
  if ltb 0 last then resume_from world start target last else ok start
