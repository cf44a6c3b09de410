-- ===== src/Indexer/CommitOrder/Tests.antt =====
-- The commit order on a small queue.
use blob_indexer_api.Common.{
  ◌⊎◌, ℕ, ◌-◌, ◌≡◌, ◌≢◌, ◌↔◌, refl, true, List, [], ◌∷◌, In, ℕ_discrete, arith,
}
use blob_indexer_api.Common.Maps.{lookup}
use blob_indexer_api.Db.Blocks.{contains}
use blob_indexer_api.Indexer.CommitOrder.{
  Queue, Timing, ticked, count_of, lowest_in_flight_below, lowest_from, lower_of,
  await_predecessors, await_rounds, in_order, gave_up, stopped, unordered, Round,
  candidate_snapshot_predecessors, candidate_liveness_window, predecessors_committed,
}
use blob_indexer_api.Indexer.CommitOrder.InFlight.{
  Quiet, SeenLate, await_predecessors-Quiet, await_predecessors-IsOver,
}
use blob_indexer_api.Indexer.CommitOrder.Committed.{AllCommitted, predecessors_committed_iff}

abbrev queue : Queue
queue = record { in_flight = (8, 1) ∷ (7, 2) ∷ []; tasks = 8 ∷ 7 ∷ [] }

abbrev timing : Timing
timing = record {
  mempool_polling_interval = 1_000_000_000;
  mempool_reconcile_interval = 2_000_000_000;
  seconds_per_slot = 12;
  predecessor_wait = 5_000_000_000;
}

window : candidate_snapshot_predecessors timing ≡ 4
unfolding candidate_snapshot_predecessors candidate_liveness_window
window = refl

in_flight_7 : count_of queue.in_flight 7 ≢ 0
unfolding count_of lookup ℕ_discrete
in_flight_7 = omega arith

abbrev drained : Queue
drained = record { in_flight = (8, 1) ∷ []; tasks = [] }

goes_ahead : await_predecessors timing queue 8 (ticked drained 20_000_000 ∷ []) ≡ in_order
unfolding await_predecessors await_rounds lowest_in_flight_below lowest_from lower_of
    candidate_snapshot_predecessors candidate_liveness_window
goes_ahead = refl

await_predecessors-Quiet_example :
    (r : Queue) × In r (queue ∷ drained ∷ [])
    × Quiet r 8 (8 - candidate_snapshot_predecessors timing)
await_predecessors-Quiet_example =
    await_predecessors-Quiet timing queue 8 (ticked drained 20_000_000 ∷ []) goes_ahead

abbrev short : Timing
short = record timing { predecessor_wait = 30_000_000 }

abbrev two_rounds : List Round
two_rounds = ticked queue 20_000_000 ∷ ticked queue 41_000_000 ∷ []

await_predecessors-IsOver_example :
    let w = await_predecessors short queue 8 two_rounds in
    ((w ≡ unordered) × (short.predecessor_wait ≡ 0))
    ⊎ (w ≡ in_order)
    ⊎ (w ≡ stopped)
    ⊎ ((w ≡ gave_up) × SeenLate 8 (8 - candidate_snapshot_predecessors short) 30_000_000 two_rounds)
await_predecessors-IsOver_example =
    await_predecessors-IsOver short queue 8 two_rounds (omega arith, (omega arith, tt))
      (omega arith)

abbrev rows : List ℕ
rows = 4 ∷ 5 ∷ 7 ∷ 6 ∷ []

predecessors_committed_iff_example :
    (predecessors_committed timing rows 8 ≡ true) ↔ AllCommitted timing rows 8
unfolding contains
predecessors_committed_iff_example =
    predecessors_committed_iff timing rows 8 (refl, (refl, (refl, (refl, tt))))
