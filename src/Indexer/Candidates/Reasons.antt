-- ===== src/Indexer/Candidates/Reasons.antt =====
-- What the reason that `classifyCandidates` gives says of a transaction.
use blob_indexer_api.Common.{
  subst, ℕ, ◌+◌, ◌*◌, ◌≤◌, ◌≡◌, refl, ◌⊎◌, inl, inr, true, false, ltb, Option, none, some, List, [],
  ◌∷◌, String, In, arith, Bool-cases, Option-cases,
}
use blob_indexer_api.Common.Int.{ℤ, pos, ltb_ℤ, ◌≤ℤ◌}
use blob_indexer_api.Common.Maps.{lookup}
use blob_indexer_api.Indexer.Candidates.{
  CandidateTx, BlockContext, Reason, too_recent, nonce_gap, priced_out_blob_fee,
  priced_out_exec_fee, no_room, eligible, Candidate, lowest_nonces, behind_lowest, over_room,
  fee_below, candidate_reason, candidate_of, classify_with, classify_candidates,
}
use blob_indexer_api.Indexer.Candidates.LowestNonce.{
  ◌<ℤ◌, Sent, lowest_nonces-le, lowest_nonces-source,
}

-- The fee cap and the base fee are both known, and the cap is lower.
abbrev pub Below : (String → Option ℤ) → Option String → Option ℤ → Type 0
Below set_string cap fee =
    (text : String) × (value base : ℤ) × (cap ≡ some text)
    × (set_string text ≡ some value)
    × (fee ≡ some base)
    × (value <ℤ base)

-- A pending transaction of the same sender has a lower nonce.
abbrev pub Behind : List CandidateTx → CandidateTx → Type 0
Behind txs tx = (least n : ℤ) × (tx.nonce ≡ some n) × Sent txs tx.from_address least × (least <ℤ n)

abbrev pub Seen : CandidateTx → BlockContext → Type 0
Seen tx ctx = tx.first_seen_at + ctx.min_age ≤ ctx.block_timestamp

module _ (set_string : String → Option ℤ) (gas_per_blob : ℕ) where
  -- What is true of a transaction that is given a reason. No two of these hold at once.
  abbrev pub Because : List CandidateTx → BlockContext → CandidateTx → Reason → Type 0
  Because txs ctx tx too_recent = ¬ Seen tx ctx
  Because txs ctx tx nonce_gap = Seen tx ctx × Behind txs tx
  Because txs ctx tx priced_out_blob_fee =
      Seen tx ctx × (¬ Behind txs tx) × Below set_string tx.max_fee_per_blob_gas ctx.blob_base_fee
  Because txs ctx tx priced_out_exec_fee =
      Seen tx ctx
      × (¬ Behind txs tx)
      × (¬ Below set_string tx.max_fee_per_blob_gas ctx.blob_base_fee)
      × Below set_string tx.max_fee_per_gas ctx.base_fee
  Because txs ctx tx no_room =
      Seen tx ctx
      × (¬ Behind txs tx)
      × (¬ Below set_string tx.max_fee_per_blob_gas ctx.blob_base_fee)
      × (¬ Below set_string tx.max_fee_per_gas ctx.base_fee)
      × (ctx.remaining_blob_gas <ℤ pos (tx.blob_count * gas_per_blob))
  Because txs ctx tx eligible =
      Seen tx ctx
      × (¬ Behind txs tx)
      × (¬ Below set_string tx.max_fee_per_blob_gas ctx.blob_base_fee)
      × (¬ Below set_string tx.max_fee_per_gas ctx.base_fee)
      × (pos (tx.blob_count * gas_per_blob) ≤ℤ ctx.remaining_blob_gas)

  fee_below_cases :
      (cap : Option String) (fee : Option ℤ)
      → ((fee_below set_string cap fee ≡ true) × Below set_string cap fee)
        ⊎ ((fee_below set_string cap fee ≡ false) × (¬ Below set_string cap fee))
  unfolding fee_below
  fee_below_cases none fee = inr (refl, λ (t, v, b, e, f, g, lt). cc)
  fee_below_cases (some cap) none = inr (refl, λ (t, v, b, e, f, g, lt). cc)
  fee_below_cases (some cap) (some base) = elim (Option-cases (set_string cap)) [
    | inl f ↦ inr (ground arith, λ (t, v, b, e, h, g, lt). ground arith)
    | inr (value, f) ↦ elim (Bool-cases (ltb_ℤ value base)) [
      | inl lt ↦ inl (ground arith, (cap, value, base, refl, f, refl, ground arith))
      | inr ge ↦ inr (ground arith, λ (t, v, b, e, h, g, lt). ground arith)
    ]
  ]

  behind_lowest_cases :
      (txs : List CandidateTx) (tx : CandidateTx)
      → In tx txs
      → ((behind_lowest tx (lowest_nonces txs []) ≡ true) × Behind txs tx)
        ⊎ ((behind_lowest tx (lowest_nonces txs []) ≡ false) × (¬ Behind txs tx))
  unfolding behind_lowest
  behind_lowest_cases txs tx i = elim (Option-cases tx.nonce) [
    | inl e ↦ inr (ground arith, λ (least, n, f, sent, lt). cc)
    | inr (n, e) ↦
        let (k, found, le) = lowest_nonces-le txs [] tx.from_address n (tx, i, refl, e) in
        elim (Bool-cases (ltb_ℤ k n)) [
          | inl lt ↦ elim (lowest_nonces-source txs [] tx.from_address k found) [
            | inl empty ↦ absurd (unfold lookup in cc)
            | inr sent ↦ inl (ground arith, (k, n, e, sent, ground arith))
          ]
          | inr ge ↦ inr (
            ground arith,
            λ (least, m, f, sent, lt).
                let (j, entry, below) = lowest_nonces-le txs [] tx.from_address least sent in
                ground arith,
          )
        ]
  ]

  candidate_reason-Because :
      (txs : List CandidateTx) (ctx : BlockContext) (tx : CandidateTx)
      → In tx txs
      → Because txs ctx tx (candidate_reason set_string gas_per_blob tx ctx (lowest_nonces txs []))
  unfolding candidate_reason over_room
  candidate_reason-Because txs ctx tx i =
      elim (Bool-cases (ltb ctx.block_timestamp (tx.first_seen_at + ctx.min_age))) [
        | inl recent ↦ gives too_recent (ground arith) (ground arith)
        | inr old ↦ elim (behind_lowest_cases txs tx i) [
          | inl (e, behind) ↦ gives nonce_gap (ground arith) (ground arith, behind)
          | inr (e, first) ↦ elim (fee_below_cases tx.max_fee_per_blob_gas ctx.blob_base_fee) [
            | inl (f, low) ↦ gives priced_out_blob_fee (ground arith) (ground arith, first, low)
            | inr (f, blob_fee) ↦ elim (fee_below_cases tx.max_fee_per_gas ctx.base_fee) [
              | inl (g, low) ↦
                  gives priced_out_exec_fee (ground arith) (ground arith, first, blob_fee, low)
              | inr (g, fee) ↦ elim (Bool-cases (over_room gas_per_blob tx ctx)) [
                | inl full ↦
                    gives no_room (ground arith) (ground arith, first, blob_fee, fee, ground arith)
                | inr room ↦
                    gives eligible (ground arith) (ground arith, first, blob_fee, fee, ground arith)
              ]
            ]
          ]
        ]
      ]
    where
      gives :
          (r : Reason)
          → r ≡ candidate_reason set_string gas_per_blob tx ctx (lowest_nonces txs [])
          → Because txs ctx tx r
          → Because txs ctx tx
              (candidate_reason set_string gas_per_blob tx ctx (lowest_nonces txs []))
      gives r e b = subst (Because txs ctx tx) e b

  -- One candidate for each transaction, in order, with the reason that is true of it.
  abbrev pub Classified :
      List CandidateTx → BlockContext → List CandidateTx → List Candidate → Type 0
  Classified txs ctx [] [] = Unit
  Classified txs ctx [] (c ∷ cs) = ⊥
  Classified txs ctx (tx ∷ rest) [] = ⊥
  Classified txs ctx (tx ∷ rest) (c ∷ cs) =
      (c.tx_hash ≡ tx.tx_hash)
      × (c.blob_count ≡ tx.blob_count)
      × (c.max_priority_fee_per_gas ≡ tx.max_priority_fee_per_gas)
      × (c.block_number ≡ ctx.block_number)
      × Because txs ctx tx c.reason
      × Classified txs ctx rest cs

  classify_with-Classified :
      (txs : List CandidateTx) (ctx : BlockContext) (rest : List CandidateTx)
      → ((tx : CandidateTx) → In tx rest → In tx txs)
      → Classified txs ctx rest
          (classify_with set_string gas_per_blob ctx (lowest_nonces txs []) rest)
  unfolding classify_with candidate_of
  classify_with-Classified txs ctx [] among = tt
  classify_with-Classified txs ctx (tx ∷ rest) among = (
    refl,
    refl,
    refl,
    refl,
    candidate_reason-Because txs ctx tx (among tx (inl refl)),
    classify_with-Classified txs ctx rest (λ o i. among o (inr i)),
  )

  -- `classifyCandidates` gives each pending transaction, in order, one candidate, with the first
  -- of these reasons that applies: seen too recently; another pending transaction of the sender
  -- with a lower nonce; a known blob fee cap below a known blob base fee; a known fee cap below a
  -- known base fee; more blob gas than is left; and `eligible` when none of them applies.
  pub classify_candidates-Classified :
      (txs : List CandidateTx) (ctx : BlockContext)
      → Classified txs ctx txs (classify_candidates set_string gas_per_blob txs ctx)
  unfolding classify_candidates
  classify_candidates-Classified txs ctx = classify_with-Classified txs ctx txs (λ o i. i)
