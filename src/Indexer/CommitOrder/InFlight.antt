-- ===== src/Indexer/CommitOrder/InFlight.antt =====
-- The in-flight counts under `enqueueBlock` and `finishBlock`, and what a waiting block sees.
use blob_indexer_api.Common.{
  length, ◌*◌, Bool-cases, ltb→lt, In, ℕ, ◌+◌, ◌-◌, ◌≤◌, ◌<◌, ◌≡◌, ◌≢◌, refl, ◌⊎◌, inl, inr, Bool,
  ◌&&◌, if◌then◌else◌, ltb, ◌==◌, Option, none, some, List, [], ◌∷◌, ◌++◌, ℕ_discrete, arith,
  Option-cases,
}
use blob_indexer_api.Common.Maps.{lookup, insert, lookup-insert, lookup-delete}
use blob_indexer_api.Indexer.CommitOrder.{
  lower_of, candidate_snapshot_predecessors, Queue, count_of, finish_block, enqueue_block,
  lowest_from, lowest_in_flight_below, Round, cancelled, ticked, in_order, waiting, gave_up,
  stopped, unordered, Wait, await_rounds, predecessor_poll_interval, await_predecessors, Timing,
}

-- A queued block has one reference more, and is at the end of the channel; a block refused at
-- shutdown leaves every count as it was. No other block's count changes.
pub enqueue_block-counts :
    (q : Queue) (n k : ℕ) (stopping : Bool)
    → let (q', queued) = enqueue_block q n stopping in
      (count_of q'.in_flight k ≡ count_of q.in_flight k + (if queued && k == n then 1 else 0))
      × (q'.tasks ≡ (if queued then q.tasks ++ n ∷ [] else q.tasks))
unfolding enqueue_block finish_block count_of
enqueue_block-counts q n k stopping =
    let more = insert ℕ_discrete n (count_of q.in_flight n + 1) q.in_flight in
    ground (
      arith,
      lookup-insert ℕ_discrete n k (count_of q.in_flight n + 1) q.in_flight,
      lookup-insert ℕ_discrete n n (count_of q.in_flight n + 1) q.in_flight,
      lookup-delete ℕ_discrete n k more,
      lookup-insert ℕ_discrete n k (count_of more n - 1) more,
    )

-- A block that is finished has one reference less, down to none; no other block's count changes.
pub finish_block-counts :
    (q : Queue) (n k : ℕ)
    → count_of (finish_block q n).in_flight k
      ≡ (if k == n then count_of q.in_flight k - 1 else count_of q.in_flight k)
unfolding finish_block count_of
finish_block-counts q n k = ground (
  arith,
  lookup-delete ℕ_discrete n k q.in_flight,
  lookup-insert ℕ_discrete n k (count_of q.in_flight n - 1) q.in_flight,
)

-- A search that finds nothing means that nothing in the window is in flight.
lowest_from-none :
    (n lowest k : ℕ) (found : Option ℕ) (m : List (ℕ × ℕ))
    → lowest ≤ k
    → k < n
    → lowest_from n lowest found m ≡ none
    → (lookup ℕ_discrete k m ≡ none) × (found ≡ none)
unfolding lowest_from lower_of lookup
lowest_from-none n lowest k found [] lo hi h = (refl, h)
lowest_from-none n lowest k found ((p, c) ∷ m) lo hi h =
    ground (arith, lowest_from-none n lowest k (lower_of n lowest found p) m lo hi h)

-- What is found is in the window and below everything else that is in flight there.
lowest_from-some :
    (n lowest k f : ℕ) (found : Option ℕ) (m : List (ℕ × ℕ))
    → lowest_from n lowest found m ≡ some f
    → ((found ≡ some f) ⊎ ((lowest ≤ f) × (f < n) × (lookup ℕ_discrete f m ≢ none)))
      × ((k < lowest) ⊎ (n ≤ k) ⊎ (lookup ℕ_discrete k m ≡ none) ⊎ (f ≤ k))
      × ((found ≡ none) ⊎ ((g : ℕ) × (found ≡ some g) × (f ≤ g)))
unfolding lowest_from lower_of lookup
lowest_from-some n lowest k f found [] h = ground arith
lowest_from-some n lowest k f found ((p, c) ∷ m) h =
    ground (arith, lowest_from-some n lowest k f (lower_of n lowest found p) m h)

-- If a block of the window from `lowest` up to `n` is in flight, `lowestInFlightBelow` finds one
-- of the window that is in flight and that is not above it.
pub lowest_in_flight_below_lem :
    (q : Queue) (n lowest k : ℕ)
    → lowest ≤ k
    → k < n
    → (count_of q.in_flight k ≢ 0)
    → (f : ℕ) × (lowest_in_flight_below q n lowest ≡ some f)
      × (lowest ≤ f)
      × (f ≤ k)
      × (lookup ℕ_discrete f q.in_flight ≢ none)
unfolding lowest_in_flight_below count_of
lowest_in_flight_below_lem q n lowest k lo hi h =
    elim (Option-cases (lowest_from n lowest none q.in_flight)) [
      | inl e ↦ absurd (ground (arith, lowest_from-none n lowest k none q.in_flight lo hi e))
      | inr (f, e) ↦
          let (place, least, _) = lowest_from-some n lowest k f none q.in_flight e in
          (f, e, ground (arith, place), ground (arith, least), ground (arith, place))
    ]

abbrev pub Quiet : Queue → ℕ → ℕ → Type 0
Quiet q n lowest = (k : ℕ) → lowest ≤ k → k < n → count_of q.in_flight k ≡ 0

Quiet-of_none :
    (q : Queue) (n lowest : ℕ) → lowest_in_flight_below q n lowest ≡ none → Quiet q n lowest
unfolding lowest_in_flight_below count_of
Quiet-of_none q n lowest h k lo hi =
    ground (arith, lowest_from-none n lowest k none q.in_flight lo hi h)

-- What the rounds show of the queue.
abbrev pub observed : List Round → List Queue
observed [] = []
observed (cancelled ∷ rounds) = observed rounds
observed (ticked q now ∷ rounds) = q ∷ observed rounds

-- The ticks, from the one after `k` others on: a tick comes no earlier than its number of intervals.
abbrev pub Paced : ℕ → List Round → Type 0
Paced k [] = Unit
Paced k (cancelled ∷ rounds) = Paced (k + 1) rounds
Paced k (ticked q now ∷ rounds) = ((k + 1) * predecessor_poll_interval ≤ now) × Paced (k + 1) rounds

-- A tick after the deadline that showed a block of the window in flight.
abbrev pub SeenLate : ℕ → ℕ → ℕ → List Round → Type 0
SeenLate n lowest deadline [] = ⊥
SeenLate n lowest deadline (cancelled ∷ rounds) = SeenLate n lowest deadline rounds
SeenLate n lowest deadline (ticked q now ∷ rounds) =
    ((deadline < now)
      × ((f : ℕ) × (lowest ≤ f) × (f < n) × (lookup ℕ_discrete f q.in_flight ≢ none)))
    ⊎ SeenLate n lowest deadline rounds

abbrev SeenQuiet : List Queue → ℕ → ℕ → Type 0
SeenQuiet qs n lowest = (q : Queue) × In q qs × Quiet q n lowest

SeenQuiet-cons :
    (q : Queue) (qs : List Queue) (n lowest : ℕ)
    → SeenQuiet qs n lowest
    → SeenQuiet (q ∷ qs) n lowest
SeenQuiet-cons q qs n lowest (r, i, quiet) = (r, inr i, quiet)

await_rounds-Quiet :
    (n lowest deadline : ℕ) (rounds : List Round)
    → await_rounds n lowest deadline rounds ≡ in_order
    → SeenQuiet (observed rounds) n lowest
unfolding await_rounds
await_rounds-Quiet n lowest deadline [] h = cc
await_rounds-Quiet n lowest deadline (cancelled ∷ rounds) h = cc
await_rounds-Quiet n lowest deadline (ticked q now ∷ rounds) h =
    elim (Option-cases (lowest_in_flight_below q n lowest)) [
      | inl e ↦ (q, inl refl, Quiet-of_none q n lowest e)
      | inr (f, e) ↦
          SeenQuiet-cons q (observed rounds) n lowest
            (await_rounds-Quiet n lowest deadline rounds (ground arith))
    ]

pending_in_window :
    (q : Queue) (n lowest f : ℕ)
    → lowest_in_flight_below q n lowest ≡ some f
    → (lowest ≤ f) × (f < n) × (lookup ℕ_discrete f q.in_flight ≢ none)
unfolding lowest_in_flight_below
pending_in_window q n lowest f e = ground (arith, lowest_from-some n lowest 0 f none q.in_flight e)

-- The rounds end the loop once there are more of them than intervals before the deadline.
await_rounds-IsOver :
    (n lowest deadline k : ℕ) (rounds : List Round)
    → Paced k rounds
    → deadline < (k + length rounds) * predecessor_poll_interval
    → (length rounds ≡ 0) ⊎ (await_rounds n lowest deadline rounds ≢ waiting)
unfolding await_rounds
await_rounds-IsOver n lowest deadline k [] p h = inl refl
await_rounds-IsOver n lowest deadline k (cancelled ∷ rounds) p h = inr (λ e. cc)
await_rounds-IsOver n lowest deadline k (ticked q now ∷ []) p h = inr (λ e. ground (arith, p.0))
await_rounds-IsOver n lowest deadline k (ticked q now ∷ r ∷ rounds) p h =
    ground
      (arith, await_rounds-IsOver n lowest deadline (k + 1) (r ∷ rounds) p.1 (omega (arith, h)))

await_rounds-ordered :
    (n lowest deadline : ℕ) (rounds : List Round)
    → await_rounds n lowest deadline rounds ≢ unordered
unfolding await_rounds
await_rounds-ordered n lowest deadline [] e = cc
await_rounds-ordered n lowest deadline (cancelled ∷ rounds) e = cc
await_rounds-ordered n lowest deadline (ticked q now ∷ rounds) e =
    elim (Option-cases (lowest_in_flight_below q n lowest)) [
      | inl none_left ↦ ground (arith, none_left)
      | inr (f, pending) ↦ ground (arith, pending, await_rounds-ordered n lowest deadline rounds)
    ]

await_rounds-SeenLate :
    (n lowest deadline : ℕ) (rounds : List Round)
    → await_rounds n lowest deadline rounds ≡ gave_up
    → SeenLate n lowest deadline rounds
unfolding await_rounds
await_rounds-SeenLate n lowest deadline [] h = cc
await_rounds-SeenLate n lowest deadline (cancelled ∷ rounds) h = cc
await_rounds-SeenLate n lowest deadline (ticked q now ∷ rounds) h =
    elim (Option-cases (lowest_in_flight_below q n lowest)) [
      | inl e ↦ absurd (ground (arith, e))
      | inr (f, e) ↦ elim (Bool-cases (ltb deadline now)) [
        | inl late ↦
            let (low, high, there) = pending_in_window q n lowest f e in
            inl (ltb→lt deadline now late, (f, low, high, there))
        | inr soon ↦ inr (await_rounds-SeenLate n lowest deadline rounds (ground (arith, e, soon)))
      ]
    ]

window_floor :
    (t : Timing) (n : ℕ)
    → let span = candidate_snapshot_predecessors t in
      (if ltb span n then n - span else 0) ≡ n - span
window_floor t n = ground arith

-- A block goes ahead in order only after it has seen, at the start or at a tick, no block of its
-- snapshot window in flight.
pub await_predecessors-Quiet :
    (t : Timing) (q : Queue) (n : ℕ) (rounds : List Round)
    → await_predecessors t q n rounds ≡ in_order
    → (r : Queue) × In r (q ∷ observed rounds) × Quiet r n (n - candidate_snapshot_predecessors t)
unfolding await_predecessors
await_predecessors-Quiet t q n rounds h =
    let lowest = n - candidate_snapshot_predecessors t in
    elim (Option-cases (lowest_in_flight_below q n lowest)) [
      | inl e ↦ (q, inl refl, Quiet-of_none q n lowest e)
      | inr (f, e) ↦
          SeenQuiet-cons q (observed rounds) n lowest (
            await_rounds-Quiet n lowest t.predecessor_wait rounds
              (ground (arith, window_floor t n)))
    ]

Wait-cases :
    (w : Wait) → (w ≡ waiting) ⊎ (w ≡ unordered) ⊎ (w ≡ in_order) ⊎ (w ≡ stopped) ⊎ (w ≡ gave_up)
Wait-cases waiting = inl refl
Wait-cases unordered = inr (inl refl)
Wait-cases in_order = inr (inr (inl refl))
Wait-cases stopped = inr (inr (inr (inl refl)))
Wait-cases gave_up = inr (inr (inr (inr refl)))

-- The wait ends: as the ticks come no earlier than their number of intervals after the start, more
-- rounds than the configured wait has intervals always end it: unordered as no wait is configured,
-- in order, stopped with the context, or given up, and that only after a tick behind the deadline
-- that showed a block of the snapshot window in flight.
pub await_predecessors-IsOver :
    (t : Timing) (q : Queue) (n : ℕ) (rounds : List Round)
    → Paced 0 rounds
    → t.predecessor_wait < length rounds * predecessor_poll_interval
    → let w = await_predecessors t q n rounds in
      ((w ≡ unordered) × (t.predecessor_wait ≡ 0))
      ⊎ (w ≡ in_order)
      ⊎ (w ≡ stopped)
      ⊎ ((w ≡ gave_up)
          × SeenLate n (n - candidate_snapshot_predecessors t) t.predecessor_wait rounds)
unfolding await_predecessors
await_predecessors-IsOver t q n rounds p h =
    let lowest = n - candidate_snapshot_predecessors t in
    ground (
      arith,
      window_floor t n,
      Wait-cases (await_rounds n lowest t.predecessor_wait rounds),
      await_rounds-IsOver n lowest t.predecessor_wait 0 rounds p (omega (arith, h)),
      await_rounds-SeenLate n lowest t.predecessor_wait rounds,
      await_rounds-ordered n lowest t.predecessor_wait rounds,
    )
