-- ===== src/Indexer/Candidates.antt =====
-- internal/indexer/builders.go: which pending blob transactions a block left out, and why. Times are
-- nanoseconds. `big.Int`'s `SetString` and `String` in base 10 and go-ethereum's
-- `BlobTxBlobGasPerBlob` are parameters.
pub mod LowestNonce
pub mod Reasons
pub mod Totals
mod Tests
use blob_indexer_api.Common.{
  ℕ, ◌+◌, ◌*◌, Bool, true, false, if◌then◌else◌, ltb, Option, none, some, List, [], ◌∷◌, String,
  string_discrete, length,
}
use blob_indexer_api.Common.Int.{ℤ, pos, ltb_ℤ}
use blob_indexer_api.Common.Maps.{lookup, insert}

-- `candidateTx`.
pub record CandidateTx : Type 0 where
  pub tx_hash : String
  pub from_address : String
  pub user_attribution : String
  pub nonce : Option ℤ
  pub blob_count : ℕ
  pub max_priority_fee_per_gas : Option String
  pub max_fee_per_gas : Option String
  pub max_fee_per_blob_gas : Option String
  pub first_seen_at : ℕ

-- `candidateBlockContext`.
pub record BlockContext : Type 0 where
  pub chain_id : ℕ
  pub block_number : ℕ
  pub block_timestamp : ℕ
  pub min_age : ℕ
  pub blob_base_fee : Option ℤ
  pub base_fee : Option ℤ
  pub remaining_blob_gas : ℤ

-- The reasons of internal/db/models/models.go.
pub data Reason : Type 0 where
  too_recent nonce_gap priced_out_blob_fee priced_out_exec_fee no_room eligible : Reason

-- `models.BlobInclusionCandidate`.
pub record Candidate : Type 0 where
  pub chain_id : ℕ
  pub block_number : ℕ
  pub block_timestamp : ℕ
  pub tx_hash : String
  pub from_address : String
  pub user_attribution : String
  pub nonce : Option ℤ
  pub blob_count : ℕ
  pub max_priority_fee_per_gas : Option String
  pub max_fee_per_gas : Option String
  pub max_fee_per_blob_gas : Option String
  pub first_seen_at : ℕ
  pub reason : Reason

-- One round of the first loop of `classifyCandidates`, of a transaction with this nonce.
unfoldable pub lower_nonce : List (String × ℤ) → String → ℤ → List (String × ℤ)
lower_nonce lowest sender n = elim (lookup string_discrete sender lowest) [
  | none ↦ insert string_discrete sender n lowest
  | some current ↦ if ltb_ℤ n current then insert string_discrete sender n lowest else lowest
]

-- The first loop of `classifyCandidates`: each sender's lowest nonce.
unfoldable pub lowest_nonces : List CandidateTx → List (String × ℤ) → List (String × ℤ)
lowest_nonces [] lowest = lowest
lowest_nonces (tx ∷ txs) lowest = elim tx.nonce [
  | none ↦ lowest_nonces txs lowest
  | some n ↦ lowest_nonces txs (lower_nonce lowest tx.from_address n)
]

-- The second case of `candidateReason`. A read of a missing key is 0.
unfoldable pub behind_lowest : CandidateTx → List (String × ℤ) → Bool
behind_lowest tx lowest = elim tx.nonce [
  | none ↦ false
  | some n ↦ elim (lookup string_discrete tx.from_address lowest) [
    | none ↦ ltb_ℤ (pos 0) n
    | some least ↦ ltb_ℤ least n
  ]
]

-- The last case but one of `candidateReason`.
unfoldable pub over_room : ℕ → CandidateTx → BlockContext → Bool
over_room gas_per_blob tx ctx = ltb_ℤ ctx.remaining_blob_gas (pos (tx.blob_count * gas_per_blob))

-- The counters of the loop of `candidateAggregates`.
pub record Tally : Type 0 where
  pub skipped_txs : ℕ
  pub skipped_blobs : ℕ
  pub highest : Option ℤ

abbrev pub is_eligible : Reason → Bool
is_eligible too_recent = false
is_eligible nonce_gap = false
is_eligible priced_out_blob_fee = false
is_eligible priced_out_exec_fee = false
is_eligible no_room = false
is_eligible eligible = true

module _ (set_string : String → Option ℤ) where
  -- `parseWei`.
  unfoldable pub parse_wei : String → Option ℤ
  parse_wei value = elim (string_discrete value "") [ yes e ↦ none | no e ↦ set_string value ]

  -- `feeBelow`.
  unfoldable pub fee_below : Option String → Option ℤ → Bool
  fee_below none base_fee = false
  fee_below (some cap) none = false
  fee_below (some cap) (some base) = elim (set_string cap) [
    | none ↦ false
    | some value ↦ ltb_ℤ value base
  ]

  module _ (gas_per_blob : ℕ) where
    -- `candidateReason`. The cutoff is moved to the other side of its comparison.
    unfoldable pub candidate_reason : CandidateTx → BlockContext → List (String × ℤ) → Reason
    candidate_reason tx ctx lowest =
        if ltb ctx.block_timestamp (tx.first_seen_at + ctx.min_age)
        then too_recent
        else if behind_lowest tx lowest
        then nonce_gap
        else if fee_below tx.max_fee_per_blob_gas ctx.blob_base_fee
        then priced_out_blob_fee
        else if fee_below tx.max_fee_per_gas ctx.base_fee
        then priced_out_exec_fee
        else if over_room gas_per_blob tx ctx
        then no_room
        else eligible

    -- The body of the second loop of `classifyCandidates`.
    unfoldable pub candidate_of : BlockContext → List (String × ℤ) → CandidateTx → Candidate
    candidate_of ctx lowest tx = record {
      chain_id = ctx.chain_id;
      block_number = ctx.block_number;
      block_timestamp = ctx.block_timestamp;
      tx_hash = tx.tx_hash;
      from_address = tx.from_address;
      user_attribution = tx.user_attribution;
      nonce = tx.nonce;
      blob_count = tx.blob_count;
      max_priority_fee_per_gas = tx.max_priority_fee_per_gas;
      max_fee_per_gas = tx.max_fee_per_gas;
      max_fee_per_blob_gas = tx.max_fee_per_blob_gas;
      first_seen_at = tx.first_seen_at;
      reason = candidate_reason tx ctx lowest;
    }

    unfoldable pub classify_with :
        BlockContext → List (String × ℤ) → List CandidateTx → List Candidate
    classify_with ctx lowest [] = []
    classify_with ctx lowest (tx ∷ txs) = candidate_of ctx lowest tx ∷ classify_with ctx lowest txs

    -- `classifyCandidates`.
    unfoldable pub classify_candidates : List CandidateTx → BlockContext → List Candidate
    classify_candidates txs ctx = classify_with ctx (lowest_nonces txs []) txs

  -- `highest` after a tip that is read, in `candidateAggregates`.
  unfoldable pub raise : Option String → Option ℤ → Option ℤ
  raise none highest = highest
  raise (some tip) highest = elim (set_string tip) [
    | none ↦ highest
    | some value ↦ elim highest [
      | none ↦ some value
      | some h ↦ if ltb_ℤ h value then some value else some h
    ]
  ]

  -- One round of the loop of `candidateAggregates`.
  unfoldable pub tally_one : Tally → Candidate → Tally
  tally_one t c =
      if is_eligible c.reason
      then record {
        skipped_txs = t.skipped_txs + 1;
        skipped_blobs = t.skipped_blobs + c.blob_count;
        highest = raise c.max_priority_fee_per_gas t.highest;
      }
      else t

  unfoldable pub tally_all : Tally → List Candidate → Tally
  tally_all t [] = t
  tally_all t (c ∷ cs) = tally_all (tally_one t c) cs

  -- `candidateAggregates`: pending, skipped transactions, skipped blobs, and the highest tip.
  unfoldable pub candidate_aggregates : (ℤ → String) → List Candidate → ℕ × ℕ × ℕ × Option String
  candidate_aggregates to_string cs =
      let t = tally_all (record { skipped_txs = 0; skipped_blobs = 0; highest = none }) cs in
      (
        length cs,
        t.skipped_txs,
        t.skipped_blobs,
        elim t.highest [ none ↦ none | some h ↦ some (to_string h) ],
      )
