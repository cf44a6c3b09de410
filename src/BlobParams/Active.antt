-- ===== src/BlobParams/Active.antt =====
-- `BuildChainConfig` against its description: at every time the newest boundary reached is active,
-- a learned boundary taking the place of a compiled one at the same time.
use mathlib.Core.Path.{fun_ext}
use blob_indexer_api.Common.{
  ap, get_elem?, length-drop, ◌-◌, ℕ, ◌≤◌, ◌<◌, ◌≡◌, ◌≢◌, refl, subst, ◌⊎◌, ◌∙◌, Option, none, some,
  List, [], ◌∷◌, length, arith, ite, ℕ_discrete, All, All-In, In-sort, sort, sort-Sorted,
}
use blob_indexer_api.Common.Maps.{lookup, insert, lookup-insert}
use blob_indexer_api.BlobParams.Chain.{
  BlobConfig, ChainConfig, Geth, IsTimed, Boundary, ScheduleEntry,
}
use blob_indexer_api.BlobParams.Build.{
  Merged, keys, base_boundaries, merge_base, merge_learned, merged, learned_config, or_some,
  boundaries_at, collapse, newest, kept_boundaries, distinct_boundaries, rebuild,
  inferred_osaka_time, build_chain_config, chain_config_for_id, clear_blob_fork_times,
  empty_schedule,
}
use blob_indexer_api.BlobParams.Resolve.{get_active_blob_config}
use blob_indexer_api.BlobParams.Boundaries.{
  Found, last_at-Found, lookup_of_In, In-boundaries_at, last_at, SortedFrom, In-keys,
  last_at-newest, last_at-collapse, SortedFrom-boundaries_at,
}
use blob_indexer_api.BlobParams.Slots.{
  get_active_blob_config-eq-last_at, present-assign_slots, fields-assign_slots,
}

-- The parameters that start at a time, by the last of the boundaries at it.
abbrev pub compiled_at : List Boundary → ℕ → Option BlobConfig
compiled_at [] t = none
compiled_at (b ∷ bs) t = or_some (compiled_at bs t) (ite (ℕ_discrete b.time t) (some b.config) none)

abbrev pub learned_at : List ScheduleEntry → ℕ → Option BlobConfig
learned_at [] t = none
learned_at (e ∷ es) t =
    or_some (learned_at es t) (ite (ℕ_discrete e.activation_time t) (some (learned_config e)) none)

-- A learned boundary takes the place of a compiled one.
abbrev pub starting_at : ChainConfig → List ScheduleEntry → ℕ → Option BlobConfig
starting_at c es t = or_some (learned_at es t) (compiled_at (base_boundaries c) t)

-- `r` is what started last, no later than `t`.
abbrev pub Latest : (ℕ → Option BlobConfig) → ℕ → Option BlobConfig → Type 0
Latest start t none = (u : ℕ) (b : BlobConfig) → start u ≡ some b → t < u
Latest start t (some b) =
    (u : ℕ) × (start u ≡ some b)
    × (u ≤ t)
    × ((v : ℕ) (d : BlobConfig) → start v ≡ some d → (v ≤ u) ⊎ (t < v))

lookup-merge_base :
    (bs : List Boundary) (m : Merged) (t : ℕ)
    → lookup ℕ_discrete t (merge_base bs m) ≡ or_some (compiled_at bs t) (lookup ℕ_discrete t m)
unfolding merge_base
lookup-merge_base [] m t = refl
lookup-merge_base (b ∷ bs) m t = ground (
  arith,
  lookup-merge_base bs (insert ℕ_discrete b.time b.config m) t,
  lookup-insert ℕ_discrete b.time t b.config m,
)

lookup-merge_learned :
    (es : List ScheduleEntry) (m : Merged) (t : ℕ)
    → lookup ℕ_discrete t (merge_learned es m) ≡ or_some (learned_at es t) (lookup ℕ_discrete t m)
unfolding merge_learned
lookup-merge_learned [] m t = refl
lookup-merge_learned (e ∷ es) m t = ground (
  arith,
  lookup-merge_learned es (insert ℕ_discrete e.activation_time (learned_config e) m) t,
  lookup-insert ℕ_discrete e.activation_time t (learned_config e) m,
)

pub lookup-merged :
    (c : ChainConfig) (es : List ScheduleEntry) (t : ℕ)
    → lookup ℕ_discrete t (merged c es) ≡ starting_at c es t
unfolding merged lookup
lookup-merged c es t = ground (
  arith,
  lookup-merge_learned es (merge_base (base_boundaries c) []) t,
  lookup-merge_base (base_boundaries c) [] t,
)

abbrev pub sorted_boundaries : Merged → List Boundary
sorted_boundaries m = boundaries_at m (sort (keys m))

pub SortedFrom-sorted_boundaries : (m : Merged) → SortedFrom 0 (sorted_boundaries m)
SortedFrom-sorted_boundaries m =
    SortedFrom-boundaries_at m 0 (sort (keys m)) (All-nonneg (sort (keys m))) (sort-Sorted (keys m))
  where
    All-nonneg : (ts : List ℕ) → All (λ t. 0 ≤ t) ts
    All-nonneg [] = tt
    All-nonneg (t ∷ ts) = (omega arith, All-nonneg ts)

Latest-of_Found :
    (m : Merged) (t : ℕ) (o : Option BlobConfig)
    → Found (sorted_boundaries m) t o
    → Latest (λ u. lookup ℕ_discrete u m) t o
Latest-of_Found m t none f = λ v d e.
    All-In (λ b. t < b.time) (sorted_boundaries m) (record { time = v; config = d }) f
      (In-boundaries_at m v d (sort (keys m)) (In-sort v (keys m) (In-keys m v d e)) e)
Latest-of_Found m t (some c) (u, i, le, all) = (
  u,
  lookup_of_In m (record { time = u; config = c }) (sort (keys m)) i,
  le,
  λ v d e.
      All-In (λ b. (b.time ≤ u) ⊎ (t < b.time)) (sorted_boundaries m)
        (record { time = v; config = d }) all
        (In-boundaries_at m v d (sort (keys m)) (In-sort v (keys m) (In-keys m v d e)) e),
)

pub Latest-sorted_boundaries :
    (c : ChainConfig) (es : List ScheduleEntry) (t : ℕ)
    → Latest (starting_at c es) t (last_at (sorted_boundaries (merged c es)) t)
Latest-sorted_boundaries c es t =
    subst (λ f. Latest f t (last_at (sorted_boundaries (merged c es)) t))
      (fun_ext (lookup-merged c es))
      (Latest-of_Found (merged c es) t (last_at (sorted_boundaries (merged c es)) t) (
        last_at-Found 0 (sorted_boundaries (merged c es)) t
          (SortedFrom-sorted_boundaries (merged c es))))

length-newest : (bs : List Boundary) → length (newest bs) ≤ 7
unfolding newest
length-newest bs = ground (arith, length-drop (length bs - 7) bs)

-- What `BuildChainConfig` keeps is what its result holds.
pub base_boundaries-rebuild :
    (c : ChainConfig) (es : List ScheduleEntry)
    → base_boundaries (rebuild c es) ≡ kept_boundaries c es
unfolding base_boundaries rebuild kept_boundaries
base_boundaries-rebuild c es =
    present-assign_slots (record c { london_block = or_some c.london_block (some 0) })
      (kept_boundaries c es) (length-newest (distinct_boundaries c es))

london_block-rebuild :
    (c : ChainConfig) (es : List ScheduleEntry) → (n : ℕ) × ((rebuild c es).london_block ≡ some n)
unfolding rebuild clear_blob_fork_times
london_block-rebuild c es = ground (
  arith,
  fields-assign_slots
      (
        clear_blob_fork_times (record c { london_block = or_some c.london_block (some 0) }),
        empty_schedule,
      )
      0 (kept_boundaries c es),
)

get_elem?-short : (xs : List ℕ) → ¬ (3 ≤ length xs) → get_elem? xs 2 ≡ none
get_elem?-short [] h = refl
get_elem?-short (x ∷ []) h = refl
get_elem?-short (x ∷ y ∷ []) h = refl
get_elem?-short (x ∷ y ∷ z ∷ xs) h = absurd (omega arith)

pub osaka_time-rebuild :
    (c : ChainConfig) (es : List ScheduleEntry)
    → (rebuild c es).osaka_time ≡ or_some c.osaka_time (get_elem? (sort (keys (merged c es))) 2)
unfolding rebuild clear_blob_fork_times inferred_osaka_time
osaka_time-rebuild c es = ground (
  arith,
  get_elem?-short (sort (keys (merged c es))),
  fields-assign_slots
      (
        clear_blob_fork_times (record c { london_block = or_some c.london_block (some 0) }),
        empty_schedule,
      )
      0 (kept_boundaries c es),
)

last_at-kept_boundaries :
    (c : ChainConfig) (es : List ScheduleEntry) (t : ℕ)
    → (length (distinct_boundaries c es) ≤ 7) ⊎ (last_at (kept_boundaries c es) t ≢ none)
    → last_at (kept_boundaries c es) t ≡ last_at (sorted_boundaries (merged c es)) t
unfolding kept_boundaries distinct_boundaries
last_at-kept_boundaries c es t h =
    last_at-newest (collapse none (sorted_boundaries (merged c es))) t h
    ∙ last_at-collapse (sorted_boundaries (merged c es)) t
        (SortedFrom-sorted_boundaries (merged c es))

module _ {g : Geth} (timed : IsTimed g) (c : ChainConfig) (es : List ScheduleEntry) (t : ℕ) where
  get_active_blob_config-rebuild :
      get_active_blob_config g (rebuild c es) t ≡ last_at (kept_boundaries c es) t
  get_active_blob_config-rebuild =
      let (n, london) = london_block-rebuild c es in
      get_active_blob_config-eq-last_at timed (rebuild c es) n t london
      ∙ ap (λ bs. last_at bs t) (base_boundaries-rebuild c es)

  Latest-rebuild :
      (length (distinct_boundaries c es) ≤ 7) ⊎ (get_active_blob_config g (rebuild c es) t ≢ none)
      → Latest (starting_at c es) t (get_active_blob_config g (rebuild c es) t)
  Latest-rebuild h =
      rw (get_active_blob_config-rebuild, last_at-kept_boundaries c es t kept)
        (Latest-sorted_boundaries c es t)
    where
      kept : (length (distinct_boundaries c es) ≤ 7) ⊎ (last_at (kept_boundaries c es) t ≢ none)
      kept = rw get_active_blob_config-rebuild at h

-- For every chain and every non-empty schedule learned from the node, `getActiveBlobConfig` on the
-- result of `BuildChainConfig` finds, at each time, the newest boundary reached, where a learned
-- boundary takes the place of a compiled one at its time; and nothing before the first. This holds
-- if at most seven boundaries change the parameters, and otherwise wherever it finds anything.
-- It rests on the documented behaviour of go-ethereum's fork tests.
pub build_chain_config-Latest :
    {g : Geth} (timed : IsTimed g) (id : ℕ) (e : ScheduleEntry) (es : List ScheduleEntry) (t : ℕ)
    → (length (distinct_boundaries (chain_config_for_id g id) (e ∷ es)) ≤ 7)
      ⊎ (get_active_blob_config g (build_chain_config g id (e ∷ es)) t ≢ none)
    → Latest
        (starting_at (chain_config_for_id g id) (e ∷ es))
        t
        (get_active_blob_config g (build_chain_config g id (e ∷ es)) t)
unfolding build_chain_config
build_chain_config-Latest {g} timed id e es t h =
    Latest-rebuild timed (chain_config_for_id g id) (e ∷ es) t h
