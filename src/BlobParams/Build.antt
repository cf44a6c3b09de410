-- ===== src/BlobParams/Build.antt =====
-- `BuildChainConfig` and its helpers: learned boundaries laid over a chain's compiled ones.
use blob_indexer_api.Common.{
  ℕ, zero, suc, ◌-◌, if◌then◌else◌, ltb, leb, ◌==◌, Option, none, some, List, [], ◌∷◌, length,
  get_elem?, drop, sort, ℕ_discrete,
}
use blob_indexer_api.Common.Maps.{insert, lookup}
use blob_indexer_api.BlobParams.Chain.{
  BlobConfig, BlobSchedule, ChainConfig, Geth, ScheduleEntry, Boundary, same_config,
}

-- `syntheticChainConfig`: Cancun from time 0, with the default schedule.
unfoldable pub synthetic_chain_config : Geth → ℕ → ChainConfig
synthetic_chain_config g id = record {
  chain_id = id;
  london_block = some 0;
  cancun_time = some 0;
  prague_time = none;
  osaka_time = none;
  bpo1_time = none;
  bpo2_time = none;
  bpo3_time = none;
  bpo4_time = none;
  bpo5_time = none;
  blob_schedule = some g.default_blob_schedule;
}

-- `ChainConfigForID`.
unfoldable pub chain_config_for_id : Geth → ℕ → ChainConfig
chain_config_for_id g id =
    if id == 1
    then g.mainnet
    else if id == 11155111
    then g.sepolia
    else if id == 17000
    then g.holesky
    else if id == 560048
    then g.hoodi
    else synthetic_chain_config g id

-- The pairs of `baseBoundaries` with both parts set.
abbrev pub present : List (Option ℕ × Option BlobConfig) → List Boundary
present [] = []
present ((none, b) ∷ ps) = present ps
present ((some t, none) ∷ ps) = present ps
present ((some t, some b) ∷ ps) = record { time = t; config = b } ∷ present ps

abbrev pub fork_slots : ChainConfig → BlobSchedule → List (Option ℕ × Option BlobConfig)
fork_slots c s =
    (c.cancun_time, s.cancun)
    ∷ (c.prague_time, s.prague)
    ∷ (c.bpo1_time, s.bpo1)
    ∷ (c.bpo2_time, s.bpo2)
    ∷ (c.bpo3_time, s.bpo3)
    ∷ (c.bpo4_time, s.bpo4)
    ∷ (c.bpo5_time, s.bpo5)
    ∷ []

unfoldable pub base_boundaries : ChainConfig → List Boundary
base_boundaries c = elim c.blob_schedule [ none ↦ [] | some s ↦ present (fork_slots c s) ]

-- The map from activation times to parameters, filled by the two loops of `BuildChainConfig`.
abbrev pub Merged : Type 0
Merged = List (ℕ × BlobConfig)

unfoldable pub merge_base : List Boundary → Merged → Merged
merge_base [] m = m
merge_base (b ∷ bs) m = merge_base bs (insert ℕ_discrete b.time b.config m)

abbrev pub learned_config : ScheduleEntry → BlobConfig
learned_config e = record { target = e.target; max = e.max; update_fraction = e.update_fraction }

unfoldable pub merge_learned : List ScheduleEntry → Merged → Merged
merge_learned [] m = m
merge_learned (e ∷ es) m =
    merge_learned es (insert ℕ_discrete e.activation_time (learned_config e) m)

unfoldable pub merged : ChainConfig → List ScheduleEntry → Merged
merged base learned = merge_learned learned (merge_base (base_boundaries base) [])

abbrev pub keys : Merged → List ℕ
keys [] = []
keys ((t, b) ∷ m) = t ∷ keys m

-- The sorted times with `merged[t]`. Each time is a key, so `none` does not occur.
unfoldable pub boundaries_at : Merged → List ℕ → List Boundary
boundaries_at m [] = []
boundaries_at m (t ∷ ts) =
    let rest = boundaries_at m ts in
    elim (lookup ℕ_discrete t m) [ none ↦ rest | some b ↦ record { time = t; config = b } ∷ rest ]

-- The loop that drops a boundary with the parameters of the one kept before it (`prevCfg`).
unfoldable pub collapse : Option BlobConfig → List Boundary → List Boundary
collapse previous [] = []
collapse none (b ∷ bs) = b ∷ collapse (some b.config) bs
collapse (some p) (b ∷ bs) =
    let kept = collapse (some b.config) bs in
    let dropped = collapse (some p) bs in if same_config b.config p then dropped else b ∷ kept

abbrev pub max_blob_fork_slots : ℕ
max_blob_fork_slots = 7

-- `times = times[len(times)-maxBlobForkSlots:]` where there are more.
unfoldable pub newest : List Boundary → List Boundary
newest bs =
    if ltb max_blob_fork_slots (length bs) then drop (length bs - max_blob_fork_slots) bs else bs

-- `clearBlobForkTimes`. `osaka_time` stays.
unfoldable pub clear_blob_fork_times : ChainConfig → ChainConfig
clear_blob_fork_times c = record c {
  cancun_time = none;
  prague_time = none;
  bpo1_time = none;
  bpo2_time = none;
  bpo3_time = none;
  bpo4_time = none;
  bpo5_time = none;
}

abbrev pub empty_schedule : BlobSchedule
empty_schedule = record {
  cancun = none;
  prague = none;
  bpo1 = none;
  bpo2 = none;
  bpo3 = none;
  bpo4 = none;
  bpo5 = none;
}

-- `setBlobSlot`. The configuration and the schedule that it points to are two values here.
unfoldable pub set_blob_slot :
    ChainConfig × BlobSchedule → ℕ → ℕ → BlobConfig → ChainConfig × BlobSchedule
set_blob_slot (c, s) zero t b = (record c { cancun_time = some t }, record s { cancun = some b })
set_blob_slot (c, s) (suc zero) t b =
    (record c { prague_time = some t }, record s { prague = some b })
set_blob_slot (c, s) (suc (suc zero)) t b =
    (record c { bpo1_time = some t }, record s { bpo1 = some b })
set_blob_slot (c, s) (suc (suc (suc zero))) t b =
    (record c { bpo2_time = some t }, record s { bpo2 = some b })
set_blob_slot (c, s) (suc (suc (suc (suc zero)))) t b =
    (record c { bpo3_time = some t }, record s { bpo3 = some b })
set_blob_slot (c, s) (suc (suc (suc (suc (suc zero))))) t b =
    (record c { bpo4_time = some t }, record s { bpo4 = some b })
set_blob_slot (c, s) (suc (suc (suc (suc (suc (suc zero)))))) t b =
    (record c { bpo5_time = some t }, record s { bpo5 = some b })
set_blob_slot (c, s) (suc (suc (suc (suc (suc (suc (suc n))))))) t b = (c, s)

unfoldable pub assign_slots :
    ChainConfig × BlobSchedule → ℕ → List Boundary → ChainConfig × BlobSchedule
assign_slots out i [] = out
assign_slots out i (b ∷ bs) = assign_slots (set_blob_slot out i b.time b.config) (suc i) bs

abbrev pub or_some {ℓ} : {A : Type ℓ} → Option A → Option A → Option A
or_some (some a) other = some a
or_some none other = other

-- The third boundary, where the chain has no Osaka time of its own.
unfoldable pub inferred_osaka_time : ChainConfig → List ℕ → Option ℕ
inferred_osaka_time base times = elim base.osaka_time [
  | none ↦ if leb 3 (length times) then get_elem? times 2 else none
  | some t ↦ none
]

-- The boundaries that change the parameters, oldest first.
unfoldable pub distinct_boundaries : ChainConfig → List ScheduleEntry → List Boundary
distinct_boundaries base learned =
    let m = merged base learned in collapse none (boundaries_at m (sort (keys m)))

-- Those that reach the fork slots.
unfoldable pub kept_boundaries : ChainConfig → List ScheduleEntry → List Boundary
kept_boundaries base learned = newest (distinct_boundaries base learned)

-- The body of `BuildChainConfig` for a non-empty schedule.
unfoldable pub rebuild : ChainConfig → List ScheduleEntry → ChainConfig
rebuild base learned =
    let started = record base { london_block = or_some base.london_block (some 0) } in
    let (out, schedule) =
      assign_slots (clear_blob_fork_times started, empty_schedule) 0
        (kept_boundaries base learned) in
    record out {
      osaka_time =
          or_some out.osaka_time (inferred_osaka_time base (sort (keys (merged base learned))));
      blob_schedule = some schedule;
    }

-- `BuildChainConfig`.
unfoldable pub build_chain_config : Geth → ℕ → List ScheduleEntry → ChainConfig
build_chain_config g id [] = chain_config_for_id g id
build_chain_config g id (e ∷ es) = rebuild (chain_config_for_id g id) (e ∷ es)
