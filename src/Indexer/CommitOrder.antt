-- ===== src/Indexer/CommitOrder.antt =====
-- internal/indexer/commit_order.go: the blocks in flight, and the blocks that must be committed
-- before a block's snapshot of the pending pool is trusted. Durations are nanoseconds.
pub mod InFlight
pub mod Committed
mod Tests
use blob_indexer_api.Common.{
  ℕ, zero, suc, ◌+◌, ◌-◌, ◌*◌, ◌/◌, ◌≡◌, Bool, true, false, ◌&&◌, ◌||◌, if◌then◌else◌, ltb, leb,
  ◌==◌, Option, none, some, List, [], ◌∷◌, ◌++◌, ℕ_discrete, max,
}
use blob_indexer_api.Common.Maps.{lookup, insert, delete}
use blob_indexer_api.Db.Blocks.{minimum}

-- The in-flight counts by block, and the task channel with its oldest task first.
pub record Queue : Type 0 where
  pub in_flight : List (ℕ × ℕ)
  pub tasks : List ℕ

-- A read of a missing key is 0.
unfoldable pub count_of : List (ℕ × ℕ) → ℕ → ℕ
count_of m n = elim (lookup ℕ_discrete n m) [ none ↦ 0 | some c ↦ c ]

-- `finishBlock`.
unfoldable pub finish_block : Queue → ℕ → Queue
finish_block q n =
    if leb (count_of q.in_flight n) 1
    then record q { in_flight = delete ℕ_discrete n q.in_flight }
    else record q { in_flight = insert ℕ_discrete n (count_of q.in_flight n - 1) q.in_flight }

-- `enqueueBlock`. `stopping` is the choice of the `select`: true if it took `ctx.Done()`.
unfoldable pub enqueue_block : Queue → ℕ → Bool → Queue × Bool
enqueue_block q n stopping =
    let q' = record q {
      in_flight = insert ℕ_discrete n (count_of q.in_flight n + 1) q.in_flight;
    } in
    if stopping
    then (finish_block q' n, false)
    else (record q' { tasks = q'.tasks ++ n ∷ [] }, true)

-- One round of the loop of `lowestInFlightBelow`.
unfoldable pub lower_of : ℕ → ℕ → Option ℕ → ℕ → Option ℕ
lower_of n lowest found pending =
    if ltb pending lowest || leb n pending then found else elim found [
      | none ↦ some pending
      | some f ↦ if ltb pending f then some pending else some f
    ]

-- The loop, over the keys in any order.
unfoldable pub lowest_from : ℕ → ℕ → Option ℕ → List (ℕ × ℕ) → Option ℕ
lowest_from n lowest found [] = found
lowest_from n lowest found ((pending, c) ∷ m) =
    lowest_from n lowest (lower_of n lowest found pending) m

-- `lowestInFlightBelow`.
unfoldable pub lowest_in_flight_below : Queue → ℕ → ℕ → Option ℕ
lowest_in_flight_below q n lowest = lowest_from n lowest none q.in_flight

-- The fields of the indexer that the snapshot window is computed from.
pub record Timing : Type 0 where
  pub mempool_polling_interval : ℕ
  pub mempool_reconcile_interval : ℕ
  pub seconds_per_slot : ℕ
  pub predecessor_wait : ℕ

abbrev pub nanoseconds : ℕ
nanoseconds = 1_000_000_000

-- `minCandidateLivenessWindow`.
abbrev pub min_candidate_liveness_window : ℕ
min_candidate_liveness_window = 30 * 1_000_000_000

-- `candidateLivenessWindow` of builders.go.
unfoldable pub candidate_liveness_window : Timing → ℕ
candidate_liveness_window t =
    let refresh =
      if ltb t.mempool_polling_interval t.mempool_reconcile_interval
      then t.mempool_reconcile_interval
      else t.mempool_polling_interval in
    let window = 2 * refresh in
    if ltb window min_candidate_liveness_window then min_candidate_liveness_window else window

-- `candidateSnapshotPredecessors`. The quotient of the two floats is taken as exact.
unfoldable pub candidate_snapshot_predecessors : Timing → ℕ
candidate_snapshot_predecessors t =
    let slot = (if t.seconds_per_slot == 0 then 12 else t.seconds_per_slot) * nanoseconds in
    (candidate_liveness_window t + (slot - 1)) / slot + 1

-- `snapshotPredecessorRange`, of a block number that is not negative. `none` is `ok == false`; the
-- upper end of block 0 is -1 in the source, so its range is empty.
unfoldable pub snapshot_predecessor_range : Timing → ℕ → Option (ℕ × ℕ)
snapshot_predecessor_range t n =
    let from = n - candidate_snapshot_predecessors t in
    if n == 0 then none else if leb from (n - 1) then some (from, n - 1) else none

-- One round of the `select` of `awaitPredecessors`: the context ended, or the ticker fired with
-- these blocks in flight, at this time after the start of the loop, where the deadline is set.
pub data Round : Type 0 where
  cancelled : Round
  ticked : Queue → ℕ → Round

pub data Wait : Type 0 where
  unordered in_order stopped gave_up waiting : Wait

-- `predecessorPollInterval`.
abbrev pub predecessor_poll_interval : ℕ
predecessor_poll_interval = 20 * 1_000_000

-- The loop, with the deadline counted from its start.
unfoldable pub await_rounds : ℕ → ℕ → ℕ → List Round → Wait
await_rounds n lowest deadline [] = waiting
await_rounds n lowest deadline (cancelled ∷ rounds) = stopped
await_rounds n lowest deadline (ticked q now ∷ rounds) =
    let rest = await_rounds n lowest deadline rounds in
    elim (lowest_in_flight_below q n lowest) [
      | none ↦ in_order
      | some pending ↦ if ltb deadline now then gave_up else rest
    ]

-- `awaitPredecessors`: with no wait configured, at once if nothing is in flight, else round by
-- round. `waiting` means that the rounds given do not end the loop.
unfoldable pub await_predecessors : Timing → Queue → ℕ → List Round → Wait
await_predecessors t q n rounds =
    if t.predecessor_wait == 0
    then unordered
    else let span = candidate_snapshot_predecessors t in
      let lowest = if ltb span n then n - span else 0 in
      elim (lowest_in_flight_below q n lowest) [
        | none ↦ in_order
        | some pending ↦ await_rounds n lowest t.predecessor_wait rounds
      ]

-- `COUNT(*)` of the rows with `block_number` from `a` to `b`.
unfoldable pub count_between : ℕ → ℕ → List ℕ → ℕ
count_between a b [] = 0
count_between a b (x ∷ rows) =
    let rest = count_between a b rows in if leb a x && leb x b then rest + 1 else rest

-- `predecessorsCommitted`, where the query does not fail. `rows` is `indexed_blocks`.
unfoldable pub predecessors_committed : Timing → List ℕ → ℕ → Bool
predecessors_committed t rows n = elim (snapshot_predecessor_range t n) [
  | none ↦ true
  | some (from, to) ↦ elim (minimum rows) [
    | none ↦ true
    | some earliest ↦
        let start = if ltb from earliest then earliest else from in
        if ltb to start then true else count_between from to rows == to - start + 1
  ]
]
