-- ===== src/Indexer/Candidates/Tests.antt =====
-- Two senders and a block with little room.
use blob_indexer_api.Common.{
  ℕ, ◌≡◌, refl, Option, none, some, List, [], ◌∷◌, String, string_discrete, length,
}
use blob_indexer_api.Common.Int.{ℤ, pos}
use blob_indexer_api.Common.Maps.{lookup, insert}
use blob_indexer_api.Indexer.Candidates.{
  CandidateTx, BlockContext, Candidate, Reason, eligible, nonce_gap, classify_candidates,
  classify_with, candidate_of, candidate_reason, lowest_nonces, lower_nonce, behind_lowest,
  over_room, fee_below, candidate_aggregates,
}
use blob_indexer_api.Indexer.Candidates.Reasons.{Classified, classify_candidates-Classified}
use blob_indexer_api.Indexer.Candidates.Totals.{
  eligible_of, blobs_of, Highest, candidate_aggregates-Highest,
}

abbrev set_string : String → Option ℤ
set_string text = elim (string_discrete text "7") [ yes e ↦ some (pos 7) | no e ↦ none ]

abbrev to_string : ℤ → String
to_string n = "7"

abbrev tx : String → ℕ → CandidateTx
tx sender n = record {
  tx_hash = "h";
  from_address = sender;
  user_attribution = "";
  nonce = some (pos n);
  blob_count = 2;
  max_priority_fee_per_gas = some "7";
  max_fee_per_gas = some "7";
  max_fee_per_blob_gas = none;
  first_seen_at = 10;
}

abbrev pending : List CandidateTx
pending = tx "a" 5 ∷ tx "b" 1 ∷ tx "a" 4 ∷ []

abbrev context : BlockContext
context = record {
  chain_id = 1;
  block_number = 100;
  block_timestamp = 20;
  min_age = 3;
  blob_base_fee = some (pos 9);
  base_fee = some (pos 6);
  remaining_blob_gas = pos 262144;
}

abbrev reasons_of : List Candidate → List Reason
reasons_of [] = []
reasons_of (c ∷ cs) = c.reason ∷ reasons_of cs

reasons :
    reasons_of (classify_candidates set_string 131072 pending context)
    ≡ nonce_gap ∷ eligible ∷ eligible ∷ []
unfolding classify_candidates classify_with candidate_of candidate_reason lowest_nonces lower_nonce
    behind_lowest over_room fee_below lookup insert string_discrete
reasons = refl

classify_candidates-Classified_example :
    Classified set_string 131072 pending context pending
      (classify_candidates set_string 131072 pending context)
classify_candidates-Classified_example =
    classify_candidates-Classified set_string 131072 pending context

candidate_aggregates-Highest_example :
    let cs = classify_candidates set_string 131072 pending context in
    let (seen, txs, blobs, tip) = candidate_aggregates set_string to_string cs in
    (seen ≡ length cs)
    × (txs ≡ length (eligible_of cs))
    × (blobs ≡ blobs_of (eligible_of cs))
    × ((r : Option ℤ) × Highest set_string none (eligible_of cs) r
        × (tip ≡ elim r [ none ↦ none | some h ↦ some (to_string h) ]))
candidate_aggregates-Highest_example =
    candidate_aggregates-Highest set_string to_string
      (classify_candidates set_string 131072 pending context)
