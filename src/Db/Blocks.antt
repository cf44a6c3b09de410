-- ===== src/Db/Blocks.antt =====
-- internal/db/db.go: the scans of `indexed_blocks` for gaps. The table of one chain is the list of
-- its block numbers, in any order.
use blob_indexer_api.Common.{
  ℕ, zero, suc, ◌+◌, ◌-◌, Bool, false, ◌&&◌, ◌||◌, if◌then◌else◌, ltb, leb, ◌==◌, Option, none,
  some, List, [], ◌∷◌, ◌++◌, sort, min,
}

unfoldable pub contains : List ℕ → ℕ → Bool
contains [] n = false
contains (x ∷ xs) n = x == n || contains xs n

-- The rows with `block_number` from `a` to `b`.
unfoldable pub between : ℕ → ℕ → List ℕ → List ℕ
between a b [] = []
between a b (x ∷ xs) = let rest = between a b xs in if leb a x && leb x b then x ∷ rest else rest

-- `block_number + 1` where `LEAD(block_number)` is larger, over the sorted rows.
unfoldable pub gap_starts : List ℕ → List ℕ
gap_starts [] = []
gap_starts (x ∷ []) = []
gap_starts (x ∷ y ∷ xs) =
    let rest = gap_starts (y ∷ xs) in if ltb (x + 1) y then (x + 1) ∷ rest else rest

-- `MAX` of sorted rows.
unfoldable pub last_row : List ℕ → Option ℕ
last_row [] = none
last_row (x ∷ []) = some x
last_row (x ∷ y ∷ xs) = last_row (y ∷ xs)

-- `MIN`.
unfoldable pub minimum : List ℕ → Option ℕ
minimum [] = none
minimum (x ∷ xs) = elim (minimum xs) [ none ↦ some x | some y ↦ some (min x y) ]

abbrev pub coalesce : Option ℕ → ℕ → ℕ
coalesce none d = d
coalesce (some n) d = n

abbrev pub after_last : Option ℕ → ℕ → List ℕ
after_last none b = []
after_last (some m) b = if ltb m b then (m + 1) ∷ [] else []

-- The `candidates` of the query: a missing start, the gaps between rows, the end of coverage.
unfoldable pub gap_candidates : List ℕ → ℕ → ℕ → List ℕ
gap_candidates rows a b =
    let indexed = sort (between a b rows) in
    (if contains rows a then [] else a ∷ [])
    ++ (gap_starts indexed ++ after_last (last_row indexed) b)

-- `GetFirstUnindexedBlock`.
unfoldable pub get_first_unindexed_block : List ℕ → ℕ → ℕ → ℕ
get_first_unindexed_block rows a b =
    if ltb b a then b + 1 else coalesce (minimum (gap_candidates rows a b)) (b + 1)

-- `generate_series(a, b)` without the rows, cut at `limit`, from `a` over `count` numbers.
unfoldable pub missing_from : List ℕ → ℕ → ℕ → ℕ → List ℕ
missing_from rows a zero limit = []
missing_from rows a (suc count) zero = []
missing_from rows a (suc count) (suc limit) =
    let skip = missing_from rows (a + 1) count (suc limit) in
    let taken = a ∷ missing_from rows (a + 1) count limit in if contains rows a then skip else taken

-- `GetUnindexedBlocksInRange`.
unfoldable pub get_unindexed_blocks_in_range : List ℕ → ℕ → ℕ → ℕ → Bool → List ℕ
get_unindexed_blocks_in_range rows a b limit floor_at_earliest =
    if ltb b a
    then []
    else if floor_at_earliest
    then elim (minimum rows) [
      | none ↦ []
      | some earliest ↦
          let from = if ltb a earliest then earliest else a in
          missing_from rows from (b + 1 - from) limit
    ]
    else missing_from rows a (b + 1 - a) limit
