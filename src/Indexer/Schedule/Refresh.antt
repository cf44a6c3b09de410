-- ===== src/Indexer/Schedule/Refresh.antt =====
-- The refresh of a network's chain configuration, internal/indexer/blob_schedule.go:
-- `refreshBlobScheduleFromNode` and `rebuildChainConfigFromDB`.
use blob_indexer_api.Common.{
  sym, ◌∙◌, ap, subst, inl, inr, ℕ, ◌≡◌, ◌≢◌, ◌≤◌, refl, ◌⊎◌, Bool, true, false, if◌then◌else◌, leb,
  Option, none, some, List, [], ◌∷◌, arith, Bool-cases, Option-cases, ℕ_discrete, length, sort,
}
use mathlib.Core.Path.{fun_ext}
use blob_indexer_api.Common.Maps.{lookup}
use blob_indexer_api.Db.Blocks.{contains}
use blob_indexer_api.Db.FirstGap.{contains-sort}
use blob_indexer_api.BlobParams.Chain.{ScheduleEntry, BlobConfig, ChainConfig, Geth, IsTimed}
use blob_indexer_api.BlobParams.Build.{
  build_chain_config, chain_config_for_id, distinct_boundaries, learned_config, or_some,
  base_boundaries,
}
use blob_indexer_api.BlobParams.Resolve.{get_active_blob_config}
use blob_indexer_api.BlobParams.Active.{
  Latest, starting_at, learned_at, compiled_at, build_chain_config-Latest,
}
use blob_indexer_api.Db.Schedule.{
  entry_at, has_duplicate, times_of, rows_at, get_blob_schedule, reconcile_future_blob_schedule,
  reconcile_future_blob_schedule-lookup,
}
use blob_indexer_api.Indexer.Schedule.{EthConfig, schedule_entries_from_eth_config, forks_of}
use blob_indexer_api.Indexer.Schedule.Advertised.{
  advertised_at, schedule_entries_from_eth_config-IsValid,
  entry_at-schedule_entries_from_eth_config,
}

-- The rows of `network_blob_schedule` for the network, and `chainConfig`.
pub record ScheduleState : Type 0 where
  pub rows : List (ℕ × ScheduleEntry)
  pub chain_config : ChainConfig

-- `rebuildChainConfigFromDB`; `readable` is false where the query fails.
unfoldable pub rebuild_chain_config_from_db : Geth → ℕ → Bool → ScheduleState → ScheduleState
rebuild_chain_config_from_db g id readable s =
    if readable
    then record s { chain_config = build_chain_config g id (get_blob_schedule s.rows) }
    else s

-- `refreshBlobScheduleFromNode`. `answer` is that of `eth_config`, `none` where the call fails.
unfoldable pub refresh_blob_schedule_from_node :
    Geth → ℕ → Option EthConfig → Bool → ℕ → Bool → ScheduleState → ScheduleState
refresh_blob_schedule_from_node g id answer commits now readable s =
    let entries = schedule_entries_from_eth_config answer in
    let learned : List (ℕ × ScheduleEntry) =
      elim (reconcile_future_blob_schedule commits s.rows entries now) [
        | none ↦ s.rows
        | some stored ↦ stored
      ] in
    rebuild_chain_config_from_db g id readable (record s { rows = learned })

-- The key of a row is its activation time.
abbrev pub KeyedByTime : List (ℕ × ScheduleEntry) → Type 0
KeyedByTime rows =
    (t : ℕ)
    → (lookup ℕ_discrete t rows ≡ none)
      ⊎ ((e : ScheduleEntry) × (lookup ℕ_discrete t rows ≡ some e) × (e.activation_time ≡ t))

abbrev config_of : Option ScheduleEntry → Option BlobConfig
config_of none = none
config_of (some e) = some (learned_config e)

learned_at-rows_at :
    (rows : List (ℕ × ScheduleEntry)) (ts : List ℕ) (t : ℕ)
    → KeyedByTime rows
    → learned_at (rows_at rows ts) t
      ≡ (if contains ts t then config_of (lookup ℕ_discrete t rows) else none)
unfolding rows_at contains
learned_at-rows_at rows [] t k = refl
learned_at-rows_at rows (u ∷ ts) t k = elim (ℕ_discrete u t) [
  | yes same ↦ elim (k u) [
    | inl e ↦
        ground
          (arith, same, ap (λ v. lookup ℕ_discrete v rows) same, learned_at-rows_at rows ts t k)
    | inr (e, f, g) ↦
        ground
          (arith, same, ap (λ v. lookup ℕ_discrete v rows) same, learned_at-rows_at rows ts t k)
  ]
  | no other ↦ elim (k u) [
    | inl e ↦ ground (arith, other, learned_at-rows_at rows ts t k)
    | inr (e, f, g) ↦ ground (arith, other, learned_at-rows_at rows ts t k)
  ]
]

contains-times_of :
    (rows : List (ℕ × ScheduleEntry)) (t : ℕ)
    → (contains (times_of rows) t ≡ true) ⊎ (lookup ℕ_discrete t rows ≡ none)
unfolding times_of contains lookup
contains-times_of [] t = inr refl
contains-times_of ((u, e) ∷ rows) t = ground (arith, contains-times_of rows t)

learned_at-get_blob_schedule :
    (rows : List (ℕ × ScheduleEntry)) (t : ℕ)
    → KeyedByTime rows
    → learned_at (get_blob_schedule rows) t ≡ config_of (lookup ℕ_discrete t rows)
unfolding get_blob_schedule
learned_at-get_blob_schedule rows t k = ground (
  arith,
  learned_at-rows_at rows (sort (times_of rows)) t k,
  contains-sort t (times_of rows),
  contains-times_of rows t,
)

entry_at-time :
    (es : List ScheduleEntry) (t : ℕ)
    → (entry_at es t ≡ none)
      ⊎ ((e : ScheduleEntry) × (entry_at es t ≡ some e) × (e.activation_time ≡ t))
unfolding entry_at
entry_at-time [] t = inl refl
entry_at-time (e ∷ es) t = elim (ℕ_discrete e.activation_time t) [
  | yes same ↦ inr (e, ground (arith, same), same)
  | no other ↦ elim (entry_at-time es t) [
    | inl f ↦ inl (ground (arith, other))
    | inr (d, f, g) ↦ inr (d, ground (arith, other), g)
  ]
]

-- The entry of a time after a refresh: the advertised one, or else that of a row up to the present.
abbrev pub entry_after : EthConfig → ℕ → List (ℕ × ScheduleEntry) → ℕ → Option ScheduleEntry
entry_after c now rows t = elim (advertised_at (forks_of c) t) [
  | some advertised ↦ some advertised
  | none ↦ if leb t now then lookup ℕ_discrete t rows else none
]

-- What starts at a time after a refresh: the entry's parameters, or else the compiled ones.
abbrev pub starting_after :
    Geth → ℕ → EthConfig → ℕ → List (ℕ × ScheduleEntry) → ℕ → Option BlobConfig
starting_after g id c now rows t =
    or_some (config_of (entry_after c now rows t))
      (compiled_at (base_boundaries (chain_config_for_id g id)) t)

module _ (c : EthConfig) (now : ℕ) (rows : List (ℕ × ScheduleEntry)) (keyed : KeyedByTime rows)
    (e : ScheduleEntry) (es : List ScheduleEntry)
    (learned : schedule_entries_from_eth_config (some c) ≡ e ∷ es) where
  has_duplicate-learned : has_duplicate (e ∷ es) ≡ false
  has_duplicate-learned =
      ap has_duplicate (sym learned) ∙ (schedule_entries_from_eth_config-IsValid c 0).1

  entry_at-learned : (t : ℕ) → entry_at (e ∷ es) t ≡ advertised_at (forks_of c) t
  entry_at-learned t =
      ap (λ l. entry_at l t) (sym learned) ∙ entry_at-schedule_entries_from_eth_config c t

  reconcile_some :
      (stored : List (ℕ × ScheduleEntry)) × (reconcile_future_blob_schedule true rows (e ∷ es) now
        ≡ some stored)
  unfolding reconcile_future_blob_schedule
  reconcile_some = elim (Option-cases (reconcile_future_blob_schedule true rows (e ∷ es) now)) [
    | inl f ↦ absurd (ground (arith, has_duplicate-learned))
    | inr (stored, f) ↦ (stored, f)
  ]

  lookup-stored : (t : ℕ) → lookup ℕ_discrete t reconcile_some.0 ≡ entry_after c now rows t
  lookup-stored t = ground (
    arith,
    (reconcile_future_blob_schedule-lookup true rows reconcile_some.0 e es now t
        reconcile_some.1).1,
    entry_at-learned t,
  )

  KeyedByTime-stored : KeyedByTime reconcile_some.0
  KeyedByTime-stored t = elim (entry_at-time (e ∷ es) t) [
    | inr (d, f, g) ↦ inr (d, ground (arith, lookup-stored t, entry_at-learned t, f), g)
    | inl f ↦ elim (keyed t) [
      | inl h ↦ inl (ground (arith, lookup-stored t, entry_at-learned t, f, h))
      | inr (d, h, g) ↦ elim (Bool-cases (leb t now)) [
        | inl past ↦ inr (d, ground (arith, lookup-stored t, entry_at-learned t, f, h, past), g)
        | inr future ↦ inl (ground (arith, lookup-stored t, entry_at-learned t, f, h, future))
      ]
    ]
  ]

  learned_at-stored :
      (t : ℕ)
      → learned_at (get_blob_schedule reconcile_some.0) t ≡ config_of (entry_after c now rows t)
  learned_at-stored t =
      learned_at-get_blob_schedule reconcile_some.0 t KeyedByTime-stored
      ∙ ap config_of (lookup-stored t)

  starting_at-stored :
      (g : Geth) (id t : ℕ)
      → starting_at (chain_config_for_id g id) (get_blob_schedule reconcile_some.0) t
        ≡ starting_after g id c now rows t
  starting_at-stored g id t =
      ap (λ o. or_some o (compiled_at (base_boundaries (chain_config_for_id g id)) t))
        (learned_at-stored t)

  get_blob_schedule-ne : get_blob_schedule reconcile_some.0 ≢ []
  unfolding entry_at
  get_blob_schedule-ne empty =
      let t = e.activation_time in
      let found : entry_at (e ∷ es) t ≡ some e = ground arith in
      let nothing : learned_at (get_blob_schedule reconcile_some.0) t ≡ none =
        ap (λ l. learned_at l t) empty in
      ground (arith, learned_at-stored t, entry_at-learned t, found, nothing)

  module _ {g : Geth} (timed : IsTimed g) (id t : ℕ) where
    abbrev Right : List ScheduleEntry → Type 0
    Right l =
        (length (distinct_boundaries (chain_config_for_id g id) l) ≤ 7)
          ⊎ (get_active_blob_config g (build_chain_config g id l) t ≢ none)
        → Latest (starting_at (chain_config_for_id g id) l) t
            (get_active_blob_config g (build_chain_config g id l) t)

    Right-cons : (l : List ScheduleEntry) → l ≢ [] → Right l
    Right-cons [] ne = absurd (ne refl)
    Right-cons (d ∷ ds) ne = build_chain_config-Latest timed id d ds t

    Latest-stored :
        (length
              (distinct_boundaries (chain_config_for_id g id) (get_blob_schedule reconcile_some.0))
            ≤ 7)
          ⊎ (get_active_blob_config g
                (build_chain_config g id (get_blob_schedule reconcile_some.0))
                t
              ≢ none)
        → Latest (starting_after g id c now rows) t (
            get_active_blob_config g
              (build_chain_config g id (get_blob_schedule reconcile_some.0))
              t)
    Latest-stored h =
        subst
          (λ f. Latest f t (
            get_active_blob_config g (build_chain_config g id (get_blob_schedule reconcile_some.0))
              t))
          (fun_ext (starting_at-stored g id))
          (Right-cons (get_blob_schedule reconcile_some.0) get_blob_schedule-ne h)

refreshed :
    (g : Geth) (id now : ℕ) (c : EthConfig) (s : ScheduleState) (e : ScheduleEntry)
    (es : List ScheduleEntry) (stored : List (ℕ × ScheduleEntry))
    → schedule_entries_from_eth_config (some c) ≡ e ∷ es
    → reconcile_future_blob_schedule true s.rows (e ∷ es) now ≡ some stored
    → record { rows = stored; chain_config = build_chain_config g id (get_blob_schedule stored) }
      ≡ refresh_blob_schedule_from_node g id (some c) true now true s
unfolding refresh_blob_schedule_from_node rebuild_chain_config_from_db
refreshed g id now c s e es stored learned reconciled = rw (learned, reconciled) refl

-- After a refresh that learns entries from the node, stores them and reads them back, the chain
-- configuration resolves each time to what started last: at each time what the node advertises for
-- it, else the stored entry if that time is not in the future, else the compiled boundary. This
-- holds if at most seven boundaries change the parameters, and otherwise wherever the configuration
-- finds anything. It rests on the documented behaviour of go-ethereum's fork tests.
pub refresh_blob_schedule_from_node-Latest :
    {g : Geth} (timed : IsTimed g) (id now : ℕ) (c : EthConfig) (s : ScheduleState)
    (e : ScheduleEntry) (es : List ScheduleEntry) (t : ℕ)
    → KeyedByTime s.rows
    → schedule_entries_from_eth_config (some c) ≡ e ∷ es
    → (length (
          distinct_boundaries (chain_config_for_id g id) (
            get_blob_schedule (refresh_blob_schedule_from_node g id (some c) true now true s).rows))
        ≤ 7)
      ⊎ (get_active_blob_config g
            (refresh_blob_schedule_from_node g id (some c) true now true s).chain_config
            t
          ≢ none)
    → Latest (starting_after g id c now s.rows) t (
        get_active_blob_config g
          (refresh_blob_schedule_from_node g id (some c) true now true s).chain_config
          t)
refresh_blob_schedule_from_node-Latest {g} timed id now c s e es t keyed learned =
    let (stored, reconciled) = reconcile_some c now s.rows keyed e es learned in
    subst
      (λ u.
        (length (distinct_boundaries (chain_config_for_id g id) (get_blob_schedule u.rows)) ≤ 7)
          ⊎ (get_active_blob_config g u.chain_config t ≢ none)
        → Latest (starting_after g id c now s.rows) t (get_active_blob_config g u.chain_config t))
      (refreshed g id now c s e es stored learned reconciled)
      (Latest-stored c now s.rows keyed e es learned timed id t)
