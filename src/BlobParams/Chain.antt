-- ===== src/BlobParams/Chain.antt =====
-- The types of internal/blobparams/blobparams.go, and what it takes from go-ethereum.
use blob_indexer_api.Common.{ℕ, ◌≡◌, Bool, true, false, ◌&&◌, ◌==◌, Option, none, some, arith, leb}
use blob_indexer_api.Common.Int.{ℤ, pos, negsuc}

-- `params.BlobConfig`.
pub record BlobConfig : Type 0 where
  pub target : ℤ
  pub max : ℤ
  pub update_fraction : ℕ

-- `params.BlobScheduleConfig`, the slots that the program uses.
pub record BlobSchedule : Type 0 where
  pub cancun : Option BlobConfig
  pub prague : Option BlobConfig
  pub bpo1 : Option BlobConfig
  pub bpo2 : Option BlobConfig
  pub bpo3 : Option BlobConfig
  pub bpo4 : Option BlobConfig
  pub bpo5 : Option BlobConfig

-- `params.ChainConfig`, the fields that the program uses. A nil pointer is `none`.
pub record ChainConfig : Type 0 where
  pub chain_id : ℕ
  pub london_block : Option ℕ
  pub cancun_time : Option ℕ
  pub prague_time : Option ℕ
  pub osaka_time : Option ℕ
  pub bpo1_time : Option ℕ
  pub bpo2_time : Option ℕ
  pub bpo3_time : Option ℕ
  pub bpo4_time : Option ℕ
  pub bpo5_time : Option ℕ
  pub blob_schedule : Option BlobSchedule

-- The forks that `ForkName` and `getActiveBlobConfig` ask for.
pub data Fork : Type 0 where
  cancun prague osaka bpo1 bpo2 bpo3 bpo4 bpo5 : Fork

abbrev pub fork_time : ChainConfig → Fork → Option ℕ
fork_time c Fork.cancun = c.cancun_time
fork_time c Fork.prague = c.prague_time
fork_time c Fork.osaka = c.osaka_time
fork_time c Fork.bpo1 = c.bpo1_time
fork_time c Fork.bpo2 = c.bpo2_time
fork_time c Fork.bpo3 = c.bpo3_time
fork_time c Fork.bpo4 = c.bpo4_time
fork_time c Fork.bpo5 = c.bpo5_time

-- Whether a fork's time is set and not after `t`.
abbrev pub reached : Option ℕ → ℕ → Bool
reached none t = false
reached (some u) t = leb u t

-- What the program takes from go-ethereum: the compiled configurations, the default schedule, and
-- the methods `IsCancun` ... `IsBPO5`, called as `is_fork f cfg london time`.
pub record Geth : Type 0 where
  pub mainnet : ChainConfig
  pub sepolia : ChainConfig
  pub holesky : ChainConfig
  pub hoodi : ChainConfig
  pub default_blob_schedule : BlobSchedule
  pub is_fork : Fork → ChainConfig → Option ℕ → ℕ → Bool

-- The documented behaviour of those methods: where London is active at the block asked about, a
-- fork is active if its time is set and reached.
pub record IsTimed (g : Geth) : Type 0 where
  pub fork_timed :
      (f : Fork) (c : ChainConfig) (n t : ℕ)
      → c.london_block ≡ some n
      → g.is_fork f c (some n) t ≡ reached (fork_time c f) t

-- One learned boundary: the parameters from `activation_time` on.
pub record ScheduleEntry : Type 0 where
  pub activation_time : ℕ
  pub target : ℤ
  pub max : ℤ
  pub update_fraction : ℕ

-- A boundary of a chain, compiled or learned.
pub record Boundary : Type 0 where
  pub time : ℕ
  pub config : BlobConfig

same_int : ℤ → ℤ → Bool
same_int (pos a) (pos b) = a == b
same_int (negsuc a) (negsuc b) = a == b
same_int _ _ = false

-- `==` on the structs.
unfoldable pub same_config : BlobConfig → BlobConfig → Bool
unfolding same_int
same_config a b =
    same_int a.target b.target && same_int a.max b.max && a.update_fraction == b.update_fraction

same_int-eq : (a b : ℤ) → same_int a b ≡ true → a ≡ b
unfolding same_int
same_int-eq (pos a) (pos b) h = ground arith
same_int-eq (pos a) (negsuc b) h = ground arith
same_int-eq (negsuc a) (pos b) h = ground arith
same_int-eq (negsuc a) (negsuc b) h = ground arith

pub same_config-eq : (a b : BlobConfig) → same_config a b ≡ true → a ≡ b
unfolding same_config
same_config-eq a b h = ground (arith, same_int-eq a.target b.target, same_int-eq a.max b.max)
