-- ===== src/Db/Missing.antt =====
-- `GetUnindexedBlocksInRange` of internal/db/db.go, where its limit does not cut it.
use blob_indexer_api.Common.{
  occurs, ℕ, zero, suc, ◌+◌, ◌-◌, ◌≤◌, ◌≡◌, inl, inr, Bool, true, false, ◌&&◌, not, if◌then◌else◌,
  ltb, leb, Option, none, some, List, arith, Bool-cases, Option-cases,
}
use blob_indexer_api.Db.Blocks.{contains, minimum, missing_from, get_unindexed_blocks_in_range}

occurs-missing_from :
    (rows : List ℕ) (a count limit n : ℕ)
    → count ≤ limit
    → occurs (missing_from rows a count limit) n
      ≡ (if leb a n && (ltb n (a + count) && not (contains rows n)) then 1 else 0)
unfolding missing_from
occurs-missing_from rows a zero limit n le = ground arith
occurs-missing_from rows a (suc count) zero n le = absurd (omega arith)
occurs-missing_from rows a (suc count) (suc limit) n le = elim (Bool-cases (contains rows a)) [
  | inl there ↦ ground (arith, occurs-missing_from rows (a + 1) count (suc limit) n)
  | inr absent ↦ ground (arith, occurs-missing_from rows (a + 1) count limit n)
]

-- The first block that is reported, if there is one.
abbrev pub first_reported : List ℕ → ℕ → Bool → Option ℕ
first_reported rows a false = some a
first_reported rows a true = elim (minimum rows) [
  | none ↦ none
  | some earliest ↦ some (if ltb a earliest then earliest else a)
]

abbrev pub within : Option ℕ → ℕ → Bool
within none n = false
within (some from) n = leb from n

-- With a limit that is no smaller than the range, `GetUnindexedBlocksInRange` reports each block of
-- the range that has no row once, and nothing else; floored at the earliest row, it reports only
-- the blocks from that row on, and nothing of an empty table.
pub occurs-get_unindexed_blocks_in_range :
    (rows : List ℕ) (a b limit n : ℕ) (floor_at_earliest : Bool)
    → b + 1 - a ≤ limit
    → occurs (get_unindexed_blocks_in_range rows a b limit floor_at_earliest) n ≡ (
        if within (first_reported rows a floor_at_earliest) n && (leb n b && not (contains rows n))
        then 1
        else 0)
unfolding get_unindexed_blocks_in_range
occurs-get_unindexed_blocks_in_range rows a b limit n false le =
    ground (arith, occurs-missing_from rows a (b + 1 - a) limit n)
occurs-get_unindexed_blocks_in_range rows a b limit n true le = elim (Option-cases (minimum rows)) [
  | inl empty ↦ ground arith
  | inr (earliest, e) ↦
      let from = if ltb a earliest then earliest else a in
      ground (arith, occurs-missing_from rows from (b + 1 - from) limit n)
]
