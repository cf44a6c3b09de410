-- ===== src/Indexer/Schedule/Tests.antt =====
-- A refresh that learns one entry beside a stored one.
use blob_indexer_api.Common.{
  true, ◌≡◌, refl, inl, inr, none, some, [], ◌∷◌, arith, ℕ_discrete, length, sort,
}
use blob_indexer_api.Common.Int.{pos}
use blob_indexer_api.Common.Maps.{lookup, insert}
use blob_indexer_api.BlobParams.Chain.{ScheduleEntry, same_config}
use blob_indexer_api.BlobParams.Build.{
  chain_config_for_id, synthetic_chain_config, distinct_boundaries, merged, merge_base,
  merge_learned, base_boundaries, boundaries_at, collapse,
}
use blob_indexer_api.BlobParams.Resolve.{get_active_blob_config}
use blob_indexer_api.BlobParams.Active.{Latest}
use blob_indexer_api.BlobParams.Tests.{geth, geth-IsTimed}
use blob_indexer_api.Db.Schedule.{
  entry_at, has_duplicate, delete_stale, upsert_entries, times_of, rows_at, get_blob_schedule,
  reconcile_future_blob_schedule,
}
use blob_indexer_api.Indexer.Schedule.{
  EthConfig, valid_schedule_entry, entry_of, by_time, entries_of, schedule_entries_from_eth_config,
}
use blob_indexer_api.Indexer.Schedule.Refresh.{
  ScheduleState, rebuild_chain_config_from_db, refresh_blob_schedule_from_node, KeyedByTime,
  starting_after, refresh_blob_schedule_from_node-Latest,
}

abbrev stored_entry : ScheduleEntry
stored_entry = record {
  activation_time = 100;
  target = pos 4;
  max = pos 8;
  update_fraction = 3338477;
}

abbrev new_entry : ScheduleEntry
new_entry = record { activation_time = 200; target = pos 6; max = pos 9; update_fraction = 5007716 }

abbrev answer : EthConfig
answer = record {
  current = some (record {
    activation_time = 200;
    blob_schedule = some (record { target = pos 6; max = pos 9; update_fraction = 5007716 });
  });
  last = none;
  next = none;
}

abbrev state : ScheduleState
state = record { rows = (100, stored_entry) ∷ []; chain_config = chain_config_for_id geth 5 }

keyed : KeyedByTime state.rows
unfolding lookup
keyed t = elim (ℕ_discrete 100 t) [
  | yes same ↦ inr (stored_entry, ground (arith, same), same)
  | no other ↦ inl (ground (arith, other))
]

learned : schedule_entries_from_eth_config (some answer) ≡ new_entry ∷ []
unfolding schedule_entries_from_eth_config by_time entry_of valid_schedule_entry entries_of insert
learned = refl

three_boundaries :
    length (
      distinct_boundaries (chain_config_for_id geth 5) (
        get_blob_schedule
          (refresh_blob_schedule_from_node geth 5 (some answer) true 250 true state).rows))
    ≡ 3
unfolding schedule_entries_from_eth_config by_time entry_of valid_schedule_entry entries_of insert
    lookup ℕ_discrete sort distinct_boundaries merged merge_base merge_learned base_boundaries
    boundaries_at collapse same_config chain_config_for_id synthetic_chain_config
    reconcile_future_blob_schedule has_duplicate entry_at delete_stale upsert_entries times_of
    rows_at get_blob_schedule refresh_blob_schedule_from_node rebuild_chain_config_from_db
three_boundaries = refl

refresh_blob_schedule_from_node-Latest_example :
    Latest (starting_after geth 5 answer 250 state.rows) 260 (
      get_active_blob_config geth
        (refresh_blob_schedule_from_node geth 5 (some answer) true 250 true state).chain_config
        260)
refresh_blob_schedule_from_node-Latest_example =
    refresh_blob_schedule_from_node-Latest geth-IsTimed 5 250 answer state new_entry [] 260 keyed
      learned (inl (rw three_boundaries (omega arith)))
