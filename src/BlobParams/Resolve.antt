-- ===== src/BlobParams/Resolve.antt =====
-- Which configuration and which fork are active at a time: `getActiveBlobConfig`, `ForkName`,
-- `GetBlobParams` and the fee functions.
use blob_indexer_api.Common.{
  ℕ, ◌*◌, ◌%◌, ◌^◌, ◌-◌, ◌&&◌, if◌then◌else◌, Option, none, some, is_some, String,
}
use blob_indexer_api.Common.Int.{ℤ, pos, negsuc}
use blob_indexer_api.BlobParams.Chain.{BlobConfig, BlobSchedule, ChainConfig, Geth, Fork}

-- `getActiveBlobConfig`, the switch on a non-nil schedule.
unfoldable pub active_in : Geth → ChainConfig → BlobSchedule → ℕ → Option BlobConfig
active_in g c s t =
    let active = λ (f : Fork). g.is_fork f c c.london_block t in
    if active Fork.bpo5 && is_some s.bpo5
    then s.bpo5
    else if active Fork.bpo4 && is_some s.bpo4
    then s.bpo4
    else if active Fork.bpo3 && is_some s.bpo3
    then s.bpo3
    else if active Fork.bpo2 && is_some s.bpo2
    then s.bpo2
    else if active Fork.bpo1 && is_some s.bpo1
    then s.bpo1
    else if active Fork.prague && is_some s.prague
    then s.prague
    else if active Fork.cancun && is_some s.cancun
    then s.cancun
    else none

-- `getActiveBlobConfig`.
unfoldable pub get_active_blob_config : Geth → ChainConfig → ℕ → Option BlobConfig
get_active_blob_config g c t = elim c.blob_schedule [ none ↦ none | some s ↦ active_in g c s t ]

-- `ForkName`.
unfoldable pub fork_name : Geth → ChainConfig → ℕ → String
fork_name g c t =
    let active = λ (f : Fork). g.is_fork f c c.london_block t in
    if active Fork.bpo5
    then "BPO5"
    else if active Fork.bpo4
    then "BPO4"
    else if active Fork.bpo3
    then "BPO3"
    else if active Fork.bpo2
    then "BPO2"
    else if active Fork.bpo1
    then "BPO1"
    else if active Fork.osaka
    then "Osaka"
    else if active Fork.prague
    then "Prague"
    else if active Fork.cancun
    then "Cancun"
    else "Pre-4844"

-- `BlobParams`.
pub record BlobParams : Type 0 where
  pub target : ℤ
  pub max : ℤ
  pub update_fraction : ℕ
  pub target_gas : ℕ
  pub max_gas : ℕ

-- The conversion `uint64(n)` of an `int`.
abbrev pub to_uint64 : ℤ → ℕ
to_uint64 (pos n) = n % 2 ^ 64
to_uint64 (negsuc n) = 2 ^ 64 - 1 - n % 2 ^ 64

-- go-ethereum's `eip4844.TargetBlobsPerBlock`, `MaxBlobsPerBlock` and `BlobTxBlobGasPerBlob`.
module _ (target_blobs_per_block max_blobs_per_block : ChainConfig → ℕ → ℤ)
    (blob_gas_per_blob : ℕ) where
  -- `GetBlobParams`.
  unfoldable pub get_blob_params : Geth → ChainConfig → ℕ → BlobParams
  get_blob_params g c t =
      let target = target_blobs_per_block c t in
      let max_blobs = max_blobs_per_block c t in
      record {
        target = target;
        max = max_blobs;
        update_fraction = elim (get_active_blob_config g c t) [
          | none ↦ 0
          | some b ↦ b.update_fraction
        ];
        target_gas = to_uint64 target * blob_gas_per_blob % 2 ^ 64;
        max_gas = to_uint64 max_blobs * blob_gas_per_blob % 2 ^ 64;
      }
