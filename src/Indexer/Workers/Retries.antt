-- ===== src/Indexer/Workers/Retries.antt =====
-- Which failed blocks `retryFailedBlocks` queues again, internal/indexer/indexer.go.
use blob_indexer_api.Common.{
  sym, ◌∙◌, ℕ, ◌+◌, ◌≤◌, ◌<◌, ◌≡◌, ◌≢◌, refl, ◌⊎◌, inl, inr, true, false, leb, some, List, [], ◌∷◌,
  arith, Bool-cases, Option-cases, ℕ_discrete,
}
use blob_indexer_api.Common.Maps.{lookup, lookup-insert}
use blob_indexer_api.Db.Blocks.{contains}
use blob_indexer_api.Indexer.Workers.{
  Work, safety_retry_interval, retry_one, retry_all, retry_failed_blocks,
}

abbrev pub keys : List (ℕ × ℕ) → List ℕ
keys [] = []
keys ((block, count) ∷ m) = block ∷ keys m

-- The keys of a Go map.
abbrev pub DistinctKeys : List (ℕ × ℕ) → Type 0
DistinctKeys [] = Unit
DistinctKeys ((block, count) ∷ m) = (contains (keys m) block ≡ false) × DistinctKeys m

retry_one_other :
    (now block count b : ℕ) (schedule : List (ℕ × ℕ))
    → b ≢ block
    → lookup ℕ_discrete b (retry_one now block count schedule).1 ≡ lookup ℕ_discrete b schedule
unfolding retry_one
retry_one_other now block count b schedule ne =
    ground (arith, lookup-insert ℕ_discrete block b (now + safety_retry_interval) schedule)

retry_all_absent :
    (now b : ℕ) (failed schedule : List (ℕ × ℕ))
    → contains (keys failed) b ≡ false
    → (contains (retry_all now failed schedule).0 b ≡ false)
      × (lookup ℕ_discrete b (retry_all now failed schedule).1 ≡ lookup ℕ_discrete b schedule)
unfolding retry_all contains
retry_all_absent now b [] schedule h = (refl, refl)
retry_all_absent now b ((block, count) ∷ failed) schedule h = ground (
  arith,
  retry_one_other now block count b schedule,
  retry_all_absent now b failed (retry_one now block count schedule).1,
)

retry_one_alike :
    (now b c : ℕ) (s t : List (ℕ × ℕ))
    → lookup ℕ_discrete b s ≡ lookup ℕ_discrete b t
    → ((retry_one now b c s).0 ≡ (retry_one now b c t).0)
      × (lookup ℕ_discrete b (retry_one now b c s).1 ≡ lookup ℕ_discrete b (retry_one now b c t).1)
unfolding retry_one
retry_one_alike now b c s t e = ground (
  arith,
  lookup-insert ℕ_discrete b b (now + safety_retry_interval) s,
  lookup-insert ℕ_discrete b b (now + safety_retry_interval) t,
)

-- A block that is not queued is beyond its budget and has a time for its next retry, an hour ahead
-- if it had none.
retry_one-waits :
    (now b c : ℕ) (s : List (ℕ × ℕ))
    → (retry_one now b c s).0 ≡ false
    → (10 < c)
      × ((due : ℕ) × (lookup ℕ_discrete b (retry_one now b c s).1 ≡ some due)
          × ((due ≡ now + safety_retry_interval) ⊎ (lookup ℕ_discrete b s ≡ some due)))
unfolding retry_one
retry_one-waits now b c s h = elim (Bool-cases (leb c 10)) [
  | inl e ↦ absurd (ground arith)
  | inr e ↦ elim (Option-cases (lookup ℕ_discrete b s)) [
    | inl f ↦ (
      ground arith,
      (
        now + safety_retry_interval,
        ground (arith, lookup-insert ℕ_discrete b b (now + safety_retry_interval) s),
        inl refl,
      ),
    )
    | inr (due, f) ↦ (ground arith, (due, ground arith, inr f))
  ]
]

-- The time of a block that is not queued stays as it is, once it is set.
retry_one-keeps :
    (now b c due : ℕ) (s : List (ℕ × ℕ))
    → lookup ℕ_discrete b s ≡ some due
    → (retry_one now b c s).0 ≡ false
    → lookup ℕ_discrete b (retry_one now b c s).1 ≡ some due
unfolding retry_one
retry_one-keeps now b c due s e h = ground arith

retry_one_again :
    (later b d due : ℕ) (s : List (ℕ × ℕ))
    → lookup ℕ_discrete b s ≡ some due
    → due ≤ later
    → (retry_one later b d s).0 ≡ true
unfolding retry_one
retry_one_again later b d due s e h = ground arith

retry_all_present :
    (now b c : ℕ) (failed schedule : List (ℕ × ℕ))
    → DistinctKeys failed
    → lookup ℕ_discrete b failed ≡ some c
    → (contains (retry_all now failed schedule).0 b ≡ (retry_one now b c schedule).0)
      × (lookup ℕ_discrete b (retry_all now failed schedule).1
          ≡ lookup ℕ_discrete b (retry_one now b c schedule).1)
unfolding retry_all contains lookup
retry_all_present now b c [] schedule d h = cc
retry_all_present now b c ((block, count) ∷ failed) schedule d h =
    let s = (retry_one now block count schedule).1 in
    elim (ℕ_discrete b block) [
      | yes same ↦ ground (arith, same, retry_all_absent now b failed s)
      | no other ↦ ground (
        arith,
        retry_all_present now b c failed s,
        retry_one_other now block count b schedule other,
        retry_one_alike now b c s schedule,
      )
    ]

-- What goes on between two scans for a block that has failed and is not queued: scans at any times,
-- and whatever else changes the failed blocks and the schedule, short of this block's place in them.
pub data Waits (b : ℕ) (w : Work) : Work → Type 0 where
  stays : Waits b w w
  scans :
      {v : Work} (now : ℕ)
      → Waits b w v
      → contains (retry_failed_blocks now v).0 b ≡ false
      → Waits b w (retry_failed_blocks now v).1
  changes :
      {v u : Work} (count : ℕ)
      → Waits b w v
      → DistinctKeys u.failed_blocks
      → lookup ℕ_discrete b u.failed_blocks ≡ some count
      → lookup ℕ_discrete b u.next_retry ≡ lookup ℕ_discrete b v.next_retry
      → Waits b w u

-- The block has failed, and its next retry is set for no later than a limit.
record IsDue (b limit : ℕ) (v : Work) : Type 0 where
  distinct : DistinctKeys v.failed_blocks
  count : ℕ
  failed : lookup ℕ_discrete b v.failed_blocks ≡ some count
  due : ℕ
  scheduled : lookup ℕ_discrete b v.next_retry ≡ some due
  within : due ≤ limit

scan-IsDue :
    (now b limit : ℕ) (v : Work)
    → contains (retry_failed_blocks now v).0 b ≡ false
    → IsDue b limit v
    → IsDue b limit (retry_failed_blocks now v).1
unfolding retry_failed_blocks
scan-IsDue now b limit v h d =
    let (q, n) = retry_all_present now b d.count v.failed_blocks v.next_retry d.distinct d.failed in
    record {
      distinct = d.distinct;
      count = d.count;
      failed = d.failed;
      due = d.due;
      scheduled = n ∙ retry_one-keeps now b d.count d.due v.next_retry d.scheduled (sym q ∙ h);
      within = d.within;
    }

Waits-IsDue : (b limit : ℕ) {w v : Work} → Waits b w v → IsDue b limit w → IsDue b limit v
Waits-IsDue b limit stays d = d
Waits-IsDue b limit (scans {v} now before h) d =
    scan-IsDue now b limit v h (Waits-IsDue b limit before d)
Waits-IsDue b limit (changes {v} {u} count before distinct failed same) d =
    let e = Waits-IsDue b limit before d in
    record {
      distinct = distinct;
      count = count;
      failed = failed;
      due = e.due;
      scheduled = same ∙ e.scheduled;
      within = e.within;
    }

-- A block that has failed is queued again: by a scan at once while it is within its ten retries, and
-- else by the first scan an hour later at the latest, however many scans before that one leave it
-- out and whatever other blocks fail or are committed meanwhile. Its next retry, if it has one at
-- the first scan, has been set by a scan no later than that.
pub retry_failed_blocks-queues :
    (now later b c : ℕ) (w v : Work)
    → DistinctKeys w.failed_blocks
    → lookup ℕ_discrete b w.failed_blocks ≡ some c
    → ((due : ℕ) → lookup ℕ_discrete b w.next_retry ≡ some due → due ≤ now + safety_retry_interval)
    → contains (retry_failed_blocks now w).0 b ≡ false
    → Waits b (retry_failed_blocks now w).1 v
    → now + safety_retry_interval ≤ later
    → (10 < c) × (contains (retry_failed_blocks later v).0 b ≡ true)
unfolding retry_failed_blocks
retry_failed_blocks-queues now later b c w v distinct failed set left_out waits long =
    let (q, n) = retry_all_present now b c w.failed_blocks w.next_retry distinct failed in
    let (many, (due, scheduled, origin)) =
      retry_one-waits now b c w.next_retry (sym q ∙ left_out) in
    let first : IsDue b (now + safety_retry_interval) (retry_failed_blocks now w).1 = record {
      distinct = distinct;
      count = c;
      failed = failed;
      due = due;
      scheduled = n ∙ scheduled;
      within = ground (arith, origin, set due);
    } in
    let d = Waits-IsDue b (now + safety_retry_interval) waits first in
    (
      many,
      (retry_all_present later b d.count v.failed_blocks v.next_retry d.distinct d.failed).0
          ∙ retry_one_again later b d.count d.due v.next_retry d.scheduled
              (omega (arith, d.within, long)),
    )
