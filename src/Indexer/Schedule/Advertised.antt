-- ===== src/Indexer/Schedule/Advertised.antt =====
-- The entries that an `eth_config` answer advertises, described apart from the code that reads them,
-- internal/indexer/blob_schedule.go.
use blob_indexer_api.Common.{
  sym, subst, inl, inr, ℕ, ◌≡◌, refl, false, if◌then◌else◌, ◌==◌, Option, none, some, List, [], ◌∷◌,
  arith, Option-cases, ℕ_discrete, ite, All, ◌<◌, ◌≢◌, ◌⊎◌,
}
use blob_indexer_api.Common.Int.{pos, ◌≤ℤ◌}
use blob_indexer_api.Common.Maps.{lookup, insert, lookup-insert}
use blob_indexer_api.BlobParams.Chain.{ScheduleEntry, BlobConfig}
use blob_indexer_api.Db.Schedule.{entry_at, has_duplicate}
use blob_indexer_api.Indexer.Schedule.{
  EthConfigFork, EthConfig, valid_schedule_entry, entry_of, by_time, entries_of, forks_of,
  schedule_entries_from_eth_config,
}

-- What the last of the forks with this activation time and a valid schedule advertises.
abbrev pub advertised_at : List (Option EthConfigFork) → ℕ → Option ScheduleEntry
advertised_at [] t = none
advertised_at (f ∷ fs) t = elim (advertised_at fs t) [
  | some e ↦ some e
  | none ↦ elim (entry_of f) [
    | none ↦ none
    | some e ↦ if e.activation_time == t then some e else none
  ]
]

-- The schedule of the fork, if it has a valid one, as an entry at its activation time.
pub record Advertises (f : Option EthConfigFork) (e : ScheduleEntry) : Type 0 where
  pub fork : EthConfigFork
  pub config : BlobConfig
  pub is_fork : f ≡ some fork
  pub has_schedule : fork.blob_schedule ≡ some config
  pub time : e.activation_time ≡ fork.activation_time
  pub target : e.target ≡ config.target
  pub max : e.max ≡ config.max
  pub update_fraction : e.update_fraction ≡ config.update_fraction
  pub valid : (pos 1 ≤ℤ e.target) × (e.target ≤ℤ e.max) × (0 < e.update_fraction)

-- No fork of the list advertises an entry at the time.
abbrev pub Silent : List (Option EthConfigFork) → ℕ → Type 0
Silent fs t = All (λ f. (e : ScheduleEntry) → Advertises f e → e.activation_time ≢ t) fs

-- The entry at the time is that of the last fork of the list that advertises one.
abbrev pub LastAdvertised : List (Option EthConfigFork) → ℕ → Option ScheduleEntry → Type 0
LastAdvertised fs t none = Silent fs t
LastAdvertised [] t (some e) = ⊥
LastAdvertised (f ∷ fs) t (some e) =
    LastAdvertised fs t (some e) ⊎ (Advertises f e × (e.activation_time ≡ t) × Silent fs t)

-- What would harm the fork arithmetic is excluded.
abbrev pub IsValid : ScheduleEntry → Type 0
IsValid e = (pos 1 ≤ℤ e.target) × (e.target ≤ℤ e.max) × (0 < e.update_fraction)

-- A map from activation times to valid entries.
abbrev Keyed : List (ℕ × ScheduleEntry) → Type 0
Keyed [] = Unit
Keyed ((t, e) ∷ m) = (e.activation_time ≡ t) × IsValid e × Keyed m

Keyed-insert :
    (e : ScheduleEntry) (m : List (ℕ × ScheduleEntry))
    → IsValid e
    → Keyed m
    → Keyed (insert ℕ_discrete e.activation_time e m)
unfolding insert
Keyed-insert e [] v k = (refl, v, tt)
Keyed-insert e ((t, f) ∷ m) v k =
    elim (ℕ_discrete t e.activation_time)
      as (λ d.
        Keyed
          (ite d ((e.activation_time, e) ∷ m) ((t, f) ∷ insert ℕ_discrete e.activation_time e m))) [
            | yes same ↦ (refl, v, k.2)
            | no other ↦ (k.0, k.1, Keyed-insert e m v k.2)
          ]

entry_at-entries_of :
    (m : List (ℕ × ScheduleEntry)) (t : ℕ)
    → Keyed m
    → entry_at (entries_of m) t ≡ lookup ℕ_discrete t m
unfolding entry_at entries_of lookup
entry_at-entries_of [] t k = refl
entry_at-entries_of ((u, e) ∷ m) t k = ground (arith, k.0, entry_at-entries_of m t k.2)

has_duplicate-insert :
    (e : ScheduleEntry) (m : List (ℕ × ScheduleEntry))
    → Keyed m
    → IsValid e
    → has_duplicate (entries_of m) ≡ false
    → has_duplicate (entries_of (insert ℕ_discrete e.activation_time e m)) ≡ false
unfolding insert has_duplicate entries_of entry_at
has_duplicate-insert e [] k v h = refl
has_duplicate-insert e ((t, f) ∷ m) k v h = elim (ℕ_discrete t e.activation_time) [
  | yes same ↦ ground (
    arith,
    same,
    k.0,
    entry_at-entries_of m e.activation_time k.2,
    entry_at-entries_of m f.activation_time k.2,
  )
  | no other ↦ ground (
    arith,
    other,
    k.0,
    has_duplicate-insert e m k.2 v,
    entry_at-entries_of m f.activation_time k.2,
    entry_at-entries_of (insert ℕ_discrete e.activation_time e m) f.activation_time
        (Keyed-insert e m v k.2),
    lookup-insert ℕ_discrete e.activation_time f.activation_time e m,
  )
]

entry_of-IsValid : (f : Option EthConfigFork) (e : ScheduleEntry) → entry_of f ≡ some e → IsValid e
unfolding entry_of valid_schedule_entry
entry_of-IsValid none e h = cc
entry_of-IsValid (some f) e h = elim (Option-cases f.blob_schedule) [
  | inl s ↦ absurd (ground arith)
  | inr (c, s) ↦ ground arith
]

-- The map of the loop, with its entries at each time.
by_time-Keyed :
    (fs : List (Option EthConfigFork)) (m : List (ℕ × ScheduleEntry))
    → Keyed m
    → has_duplicate (entries_of m) ≡ false
    → Keyed (by_time fs m)
      × (has_duplicate (entries_of (by_time fs m)) ≡ false)
      × ((t : ℕ)
          → lookup ℕ_discrete t (by_time fs m)
            ≡ elim (advertised_at fs t) [ some e ↦ some e | none ↦ lookup ℕ_discrete t m ])
unfolding by_time
by_time-Keyed [] m k h = (k, h, λ t. refl)
by_time-Keyed (f ∷ fs) m k h = elim (Option-cases (entry_of f)) [
  | inl e ↦
      let (i, j, l) = by_time-Keyed fs m k h in
      let same : by_time fs m ≡ by_time (f ∷ fs) m = ground arith in
      (
        subst Keyed same i,
        subst (λ r. has_duplicate (entries_of r) ≡ false) same j,
        λ t. ground (arith, l t),
      )
  | inr (e, g) ↦
      let v = entry_of-IsValid f e g in
      let (i, j, l) =
        by_time-Keyed fs (insert ℕ_discrete e.activation_time e m) (Keyed-insert e m v k)
          (has_duplicate-insert e m k v h) in
      let same : by_time fs (insert ℕ_discrete e.activation_time e m) ≡ by_time (f ∷ fs) m =
        ground arith in
      (
        subst Keyed same i,
        subst (λ r. has_duplicate (entries_of r) ≡ false) same j,
        λ t. ground (arith, l t, lookup-insert ℕ_discrete e.activation_time t e m),
      )
]

All-entries_of : (m : List (ℕ × ScheduleEntry)) → Keyed m → All IsValid (entries_of m)
unfolding entries_of
All-entries_of [] k = tt
All-entries_of ((t, e) ∷ m) k = (k.1, All-entries_of m k.2)

entry_of-Advertises :
    (f : Option EthConfigFork) (e : ScheduleEntry) → entry_of f ≡ some e → Advertises f e
unfolding entry_of
entry_of-Advertises none e h = cc
entry_of-Advertises (some f) e h = elim (Option-cases f.blob_schedule) [
  | inl s ↦ absurd (ground arith)
  | inr (c, s) ↦ record {
    fork = f;
    config = c;
    is_fork = refl;
    has_schedule = s;
    time = ground arith;
    target = ground arith;
    max = ground arith;
    update_fraction = ground arith;
    valid = entry_of-IsValid (some f) e h;
  }
]

-- A fork advertises at most one entry, and none where the code reads none.
Advertises-entry_of :
    (f : Option EthConfigFork) (e : ScheduleEntry) → Advertises f e → entry_of f ≡ some e
unfolding entry_of valid_schedule_entry
Advertises-entry_of none e a = absurd (ground (arith, a.is_fork))
Advertises-entry_of (some f) e a =
    ground (arith, a.is_fork, a.has_schedule, a.time, a.target, a.max, a.update_fraction, a.valid)

advertised_at_step :
    (f : Option EthConfigFork) (fs : List (Option EthConfigFork)) (t : ℕ) (o : Option ScheduleEntry)
    → o ≡ advertised_at (f ∷ fs) t
    → LastAdvertised (f ∷ fs) t o
    → LastAdvertised (f ∷ fs) t (advertised_at (f ∷ fs) t)
advertised_at_step f fs t o e h = subst (LastAdvertised (f ∷ fs) t) e h

advertised_at-LastAdvertised :
    (fs : List (Option EthConfigFork)) (t : ℕ) → LastAdvertised fs t (advertised_at fs t)
advertised_at-LastAdvertised [] t = tt
advertised_at-LastAdvertised (f ∷ fs) t = elim (Option-cases (advertised_at fs t)) [
  | inr (e, there) ↦
      advertised_at_step f fs t (some e) (ground (arith, there))
        (inl (subst (LastAdvertised fs t) there (advertised_at-LastAdvertised fs t)))
  | inl quiet ↦
      let silent : Silent fs t =
        subst (LastAdvertised fs t) quiet (advertised_at-LastAdvertised fs t) in
      elim (Option-cases (entry_of f)) [
        | inl nothing ↦
            advertised_at_step f fs t none (ground (arith, quiet, nothing))
              (λ e a. absurd (ground (arith, nothing, Advertises-entry_of f e a)), silent)
        | inr (e, read) ↦ elim (ℕ_discrete e.activation_time t) [
          | yes now ↦
              advertised_at_step f fs t (some e) (ground (arith, quiet, read, now))
                (inr (entry_of-Advertises f e read, now, silent))
          | no other ↦
              advertised_at_step f fs t none (ground (arith, quiet, read, other))
                (λ d a. ground (arith, other, read, Advertises-entry_of f d a), silent)
        ]
      ]
]

pub entry_at-schedule_entries_from_eth_config :
    (c : EthConfig) (t : ℕ)
    → entry_at (schedule_entries_from_eth_config (some c)) t ≡ advertised_at (forks_of c) t
unfolding schedule_entries_from_eth_config lookup
entry_at-schedule_entries_from_eth_config c t =
    let m = by_time (forks_of c) [] in
    let (k, h, l) =
      by_time-Keyed (forks_of c) [] tt (unfold has_duplicate in unfold entries_of in refl) in
    ground (arith, entry_at-entries_of m t k, l t)

-- The entries learned from an `eth_config` answer have a positive target, a maximum no less than it
-- and a positive update fraction; no two are for one time; and the entry at a time has the target,
-- the maximum and the update fraction of the last of the current, last and next fork that has a
-- valid schedule for that time. There is none exactly where no fork has one.
pub schedule_entries_from_eth_config-IsValid :
    (c : EthConfig) (t : ℕ)
    → let entries = schedule_entries_from_eth_config (some c) in
      All IsValid entries
      × (has_duplicate entries ≡ false)
      × LastAdvertised (forks_of c) t (entry_at entries t)
unfolding schedule_entries_from_eth_config lookup
schedule_entries_from_eth_config-IsValid c t =
    let m = by_time (forks_of c) [] in
    let (k, h, l) =
      by_time-Keyed (forks_of c) [] tt (unfold has_duplicate in unfold entries_of in refl) in
    (
      All-entries_of m k,
      h,
      subst (LastAdvertised (forks_of c) t) (sym (entry_at-schedule_entries_from_eth_config c t))
          (advertised_at-LastAdvertised (forks_of c) t),
    )
