-- ===== src/BlobParams/Tests.antt =====
-- Runs of `BuildChainConfig` on small schedules.
use blob_indexer_api.Common.{
  length, ◌++◌, ◌⊎◌, ◌≤◌, ℕ, ◌*◌, ◌≡◌, refl, inl, Bool, false, ◌&&◌, leb, Option, none, some, List,
  [], ◌∷◌, arith, ℕ_discrete, sort,
}
use blob_indexer_api.Common.Int.{pos}
use blob_indexer_api.Common.Maps.{lookup, insert}
use blob_indexer_api.BlobParams.Chain.{
  Boundary, BlobConfig, BlobSchedule, ChainConfig, Geth, IsTimed, ScheduleEntry, fork_time, reached,
  same_config,
}
use blob_indexer_api.BlobParams.Build.{
  chain_config_for_id, merged, merge_base, merge_learned, base_boundaries, boundaries_at, collapse,
  newest, distinct_boundaries, kept_boundaries, clear_blob_fork_times, set_blob_slot, assign_slots,
  inferred_osaka_time, rebuild, build_chain_config, empty_schedule,
}
use blob_indexer_api.BlobParams.Resolve.{active_in, get_active_blob_config}
use blob_indexer_api.BlobParams.Active.{Latest, starting_at, build_chain_config-Latest}
use blob_indexer_api.BlobParams.Newest.{IsHistory, build_chain_config_holds}

abbrev blobs : ℕ → BlobConfig
blobs n = record { target = pos n; max = pos (2 * n); update_fraction = 3338477 }

abbrev cancun_only : BlobSchedule
cancun_only = record empty_schedule { cancun = some (blobs 3) }

abbrev mainnet : ChainConfig
mainnet = record {
  chain_id = 1;
  london_block = some 12965000;
  cancun_time = some 100;
  prague_time = some 200;
  osaka_time = some 300;
  bpo1_time = none;
  bpo2_time = none;
  bpo3_time = none;
  bpo4_time = none;
  bpo5_time = none;
  blob_schedule = some (record cancun_only { prague = some (blobs 6) });
}

abbrev london_reached : Option ℕ → Option ℕ → Bool
london_reached none n = false
london_reached (some u) none = false
london_reached (some u) (some n) = leb u n

-- The fork tests as go-ethereum documents them.
abbrev pub geth : Geth
geth = record {
  mainnet = mainnet;
  sepolia = mainnet;
  holesky = mainnet;
  hoodi = mainnet;
  default_blob_schedule = cancun_only;
  is_fork = λ f c n t. london_reached c.london_block n && reached (fork_time c f) t;
}

pub geth-IsTimed : IsTimed geth
geth-IsTimed = record { fork_timed = λ f c n t e. rw e (london_self n (reached (fork_time c f) t)) }
  where
    london_self : (n : ℕ) (b : Bool) → (leb n n && b) ≡ b
    london_self n b = ground arith

abbrev entry : ℕ → ℕ → ScheduleEntry
entry t n = record {
  activation_time = t;
  target = pos n;
  max = pos (2 * n);
  update_fraction = 3338477;
}

-- A new boundary at 400, and one that repeats the parameters before it at 450.
abbrev learned : List ScheduleEntry
learned = entry 200 7 ∷ entry 400 9 ∷ entry 450 9 ∷ []

distinct_boundaries-mainnet :
    distinct_boundaries mainnet learned
    ≡ record { time = 100; config = blobs 3 }
      ∷ record { time = 200; config = blobs 7 }
      ∷ record { time = 400; config = blobs 9 }
      ∷ []
unfolding distinct_boundaries merged merge_base merge_learned base_boundaries boundaries_at collapse
    same_config insert lookup sort ℕ_discrete
distinct_boundaries-mainnet = refl

active_after_400 :
    get_active_blob_config geth (build_chain_config geth 1 learned) 470 ≡ some (blobs 9)
unfolding distinct_boundaries merged merge_base merge_learned base_boundaries boundaries_at collapse
    same_config insert lookup sort ℕ_discrete get_active_blob_config active_in build_chain_config
    rebuild chain_config_for_id kept_boundaries newest clear_blob_fork_times assign_slots
    set_blob_slot inferred_osaka_time
active_after_400 = refl

build_chain_config-Latest_example :
    Latest
      (starting_at (chain_config_for_id geth 1) learned)
      470
      (get_active_blob_config geth (build_chain_config geth 1 learned) 470)
unfolding chain_config_for_id
build_chain_config-Latest_example =
    build_chain_config-Latest geth-IsTimed 1 (entry 200 7) (entry 400 9 ∷ entry 450 9 ∷ []) 470
      (inl (rw distinct_boundaries-mainnet (omega arith)))

build_chain_config_holds_example :
    ((history older : List Boundary) × IsHistory
        (starting_at (chain_config_for_id geth 1) learned)
        history
      × (history ≡ older ++ base_boundaries (build_chain_config geth 1 learned))
      × (length (base_boundaries (build_chain_config geth 1 learned)) ≤ 7)
      × ((older ≡ []) ⊎ (length (base_boundaries (build_chain_config geth 1 learned)) ≡ 7)))
    × ((build_chain_config geth 1 learned).osaka_time ≡ some 300)
unfolding chain_config_for_id
build_chain_config_holds_example =
    build_chain_config_holds geth 1 (entry 200 7) (entry 400 9 ∷ entry 450 9 ∷ [])
