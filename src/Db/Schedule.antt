-- ===== src/Db/Schedule.antt =====
-- internal/db/blob_schedule.go: the learned blob schedule of one network. The table is a map from
-- the activation time, its key, to the entry. Times are seconds.
use blob_indexer_api.Common.{
  sort, inl, inr, ℕ, ◌≡◌, refl, Bool, true, false, ◌&&◌, ◌||◌, not, if◌then◌else◌, ltb, leb, ◌==◌,
  Option, none, some, List, [], ◌∷◌, arith, Bool-cases, ℕ_discrete,
}
use blob_indexer_api.Common.Maps.{lookup, insert, lookup-insert}
use blob_indexer_api.BlobParams.Chain.{ScheduleEntry}

-- The entry of a batch with this activation time.
unfoldable pub entry_at : List ScheduleEntry → ℕ → Option ScheduleEntry
entry_at [] t = none
entry_at (e ∷ es) t = if e.activation_time == t then some e else entry_at es t

abbrev pub is_present : Option ScheduleEntry → Bool
is_present none = false
is_present (some e) = true

-- The test of `buildBlobScheduleUpsert` for two entries at one time.
unfoldable pub has_duplicate : List ScheduleEntry → Bool
has_duplicate [] = false
has_duplicate (e ∷ es) = is_present (entry_at es e.activation_time) || has_duplicate es

-- The `DELETE` of `ReconcileFutureBlobSchedule`.
unfoldable pub delete_stale :
    List ScheduleEntry → ℕ → List (ℕ × ScheduleEntry) → List (ℕ × ScheduleEntry)
delete_stale entries now [] = []
delete_stale entries now ((t, e) ∷ rows) =
    let rest = delete_stale entries now rows in
    if ltb now t && not (is_present (entry_at entries t)) then rest else (t, e) ∷ rest

-- `INSERT ... ON CONFLICT DO UPDATE`, entry by entry.
unfoldable pub upsert_entries :
    List ScheduleEntry → List (ℕ × ScheduleEntry) → List (ℕ × ScheduleEntry)
upsert_entries [] rows = rows
upsert_entries (e ∷ es) rows = upsert_entries es (insert ℕ_discrete e.activation_time e rows)

-- `ReconcileFutureBlobSchedule`: `none` is an error, which leaves the table as it was. `commits`
-- tells whether the transaction succeeds.
unfoldable pub reconcile_future_blob_schedule :
    Bool → List (ℕ × ScheduleEntry) → List ScheduleEntry → ℕ → Option (List (ℕ × ScheduleEntry))
reconcile_future_blob_schedule commits rows [] now = some rows
reconcile_future_blob_schedule commits rows (e ∷ es) now =
    if has_duplicate (e ∷ es)
    then none
    else if commits
    then some (upsert_entries (e ∷ es) (delete_stale (e ∷ es) now rows))
    else none

-- The times of the rows, and the rows at some times.
unfoldable pub times_of : List (ℕ × ScheduleEntry) → List ℕ
times_of [] = []
times_of ((t, e) ∷ rows) = t ∷ times_of rows

unfoldable pub rows_at : List (ℕ × ScheduleEntry) → List ℕ → List ScheduleEntry
rows_at rows [] = []
rows_at rows (t ∷ ts) = elim (lookup ℕ_discrete t rows) [
  | none ↦ rows_at rows ts
  | some e ↦ e ∷ rows_at rows ts
]

-- `GetBlobSchedule`, where the query succeeds: the entries in the order of their times.
unfoldable pub get_blob_schedule : List (ℕ × ScheduleEntry) → List ScheduleEntry
get_blob_schedule rows = rows_at rows (sort (times_of rows))

lookup-delete_stale :
    (entries : List ScheduleEntry) (now t : ℕ) (rows : List (ℕ × ScheduleEntry))
    → lookup ℕ_discrete t (delete_stale entries now rows) ≡ (
        if ltb now t && not (is_present (entry_at entries t))
        then none
        else lookup ℕ_discrete t rows)
unfolding delete_stale lookup
lookup-delete_stale entries now t [] = ground arith
lookup-delete_stale entries now t ((u, e) ∷ rows) = elim (ℕ_discrete u t) [
  | yes same ↦ ground (arith, same, lookup-delete_stale entries now t rows)
  | no other ↦ ground (arith, other, lookup-delete_stale entries now t rows)
]

lookup-upsert_entries :
    (es : List ScheduleEntry) (rows : List (ℕ × ScheduleEntry)) (t : ℕ)
    → has_duplicate es ≡ false
    → lookup ℕ_discrete t (upsert_entries es rows)
      ≡ elim (entry_at es t) [ none ↦ lookup ℕ_discrete t rows | some e ↦ some e ]
unfolding upsert_entries has_duplicate entry_at
lookup-upsert_entries [] rows t h = refl
lookup-upsert_entries (e ∷ es) rows t h = elim (ℕ_discrete e.activation_time t) [
  | yes same ↦ ground (
    arith,
    same,
    lookup-upsert_entries es (insert ℕ_discrete e.activation_time e rows) t,
    lookup-insert ℕ_discrete e.activation_time t e rows,
  )
  | no other ↦ ground (
    arith,
    other,
    lookup-upsert_entries es (insert ℕ_discrete e.activation_time e rows) t,
    lookup-insert ℕ_discrete e.activation_time t e rows,
  )
]

-- A batch that is stored has no two entries at one time; it then holds at each of its times, the
-- rows up to the present stay as they were at all other times, and at no other time of the future
-- is anything left.
pub reconcile_future_blob_schedule-lookup :
    (commits : Bool) (rows stored : List (ℕ × ScheduleEntry)) (e : ScheduleEntry)
    (es : List ScheduleEntry) (now t : ℕ)
    → reconcile_future_blob_schedule commits rows (e ∷ es) now ≡ some stored
    → (has_duplicate (e ∷ es) ≡ false)
      × (lookup ℕ_discrete t stored ≡ elim (entry_at (e ∷ es) t) [
        | some advertised ↦ some advertised
        | none ↦ if leb t now then lookup ℕ_discrete t rows else none
      ])
unfolding reconcile_future_blob_schedule
reconcile_future_blob_schedule-lookup commits rows stored e es now t h =
    elim (Bool-cases (has_duplicate (e ∷ es))) [
      | inl twice ↦ absurd (ground arith)
      | inr once ↦ (
        once,
        ground (
          arith,
          lookup-upsert_entries (e ∷ es) (delete_stale (e ∷ es) now rows) t once,
          lookup-delete_stale (e ∷ es) now t rows,
        ),
      )
    ]
