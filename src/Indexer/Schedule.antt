-- ===== src/Indexer/Schedule.antt =====
-- internal/indexer/blob_schedule.go: the schedule entries that an `eth_config` answer advertises.
pub mod Advertised
pub mod Refresh
mod Tests
use blob_indexer_api.Common.{
  sym, subst, inl, inr, ℕ, ◌≡◌, refl, Bool, false, ◌&&◌, if◌then◌else◌, ltb, ◌==◌, Option, none,
  some, List, [], ◌∷◌, arith, Option-cases, ℕ_discrete, ite, All, ◌<◌, ◌≢◌, ◌⊎◌,
}
use blob_indexer_api.Common.Int.{pos, ltb_ℤ, leb_ℤ, ◌≤ℤ◌}
use blob_indexer_api.Common.Maps.{lookup, insert, lookup-insert}
use blob_indexer_api.BlobParams.Chain.{ScheduleEntry, BlobConfig}
use blob_indexer_api.Db.Schedule.{entry_at, has_duplicate}

-- `ethereum.EthConfigFork` and `ethereum.EthConfig`.
pub record EthConfigFork : Type 0 where
  pub activation_time : ℕ
  pub blob_schedule : Option BlobConfig

pub record EthConfig : Type 0 where
  pub current : Option EthConfigFork
  pub last : Option EthConfigFork
  pub next : Option EthConfigFork

-- `validScheduleEntry`.
unfoldable pub valid_schedule_entry : ScheduleEntry → Bool
valid_schedule_entry e = ltb_ℤ (pos 0) e.target && (leb_ℤ e.target e.max && ltb 0 e.update_fraction)

-- The entry of one fork, where it has a schedule that is valid.
unfoldable pub entry_of : Option EthConfigFork → Option ScheduleEntry
entry_of none = none
entry_of (some f) = elim f.blob_schedule [
  | none ↦ none
  | some s ↦
      let e : ScheduleEntry = record {
        activation_time = f.activation_time;
        target = s.target;
        max = s.max;
        update_fraction = s.update_fraction;
      } in
      if valid_schedule_entry e then some e else none
]

-- The loop of `scheduleEntriesFromEthConfig` over the forks.
unfoldable pub by_time :
    List (Option EthConfigFork) → List (ℕ × ScheduleEntry) → List (ℕ × ScheduleEntry)
by_time [] m = m
by_time (f ∷ fs) m = elim (entry_of f) [
  | none ↦ by_time fs m
  | some e ↦ by_time fs (insert ℕ_discrete e.activation_time e m)
]

unfoldable pub entries_of : List (ℕ × ScheduleEntry) → List ScheduleEntry
entries_of [] = []
entries_of ((t, e) ∷ m) = e ∷ entries_of m

abbrev pub forks_of : EthConfig → List (Option EthConfigFork)
forks_of c = c.current ∷ c.last ∷ c.next ∷ []

-- `scheduleEntriesFromEthConfig`.
unfoldable pub schedule_entries_from_eth_config : Option EthConfig → List ScheduleEntry
schedule_entries_from_eth_config none = []
schedule_entries_from_eth_config (some c) = entries_of (by_time (forks_of c) [])
