-- ===== src/Indexer/Candidates/Totals.antt =====
-- The totals of `candidateAggregates` against sums and a maximum, internal/indexer/builders.go.
use blob_indexer_api.Common.{
  subst, ap, ℕ, ◌+◌, ◌≡◌, refl, ◌∙◌, ◌⊎◌, inl, inr, true, if◌then◌else◌, Option, none, some, List,
  [], ◌∷◌, String, length, In, All, arith, Bool-cases, Option-cases,
}
use mathlib.Core.Path.{subst₂}
use blob_indexer_api.Common.Int.{ℤ, ltb_ℤ, ◌≤ℤ◌}
use blob_indexer_api.Indexer.Candidates.{
  Candidate, Tally, is_eligible, raise, tally_one, tally_all, candidate_aggregates,
}

abbrev pub eligible_of : List Candidate → List Candidate
eligible_of [] = []
eligible_of (c ∷ cs) = if is_eligible c.reason then c ∷ eligible_of cs else eligible_of cs

abbrev pub blobs_of : List Candidate → ℕ
blobs_of [] = 0
blobs_of (c ∷ cs) = c.blob_count + blobs_of cs

-- A number, if there is one, is at most `h`.
abbrev pub AtMost : Option ℤ → ℤ → Type 0
AtMost o h = (o ≡ none) ⊎ ((v : ℤ) × (o ≡ some v) × (v ≤ℤ h))

module _ (set_string : String → Option ℤ) where
  abbrev pub tip_of : Candidate → Option ℤ
  tip_of c = elim c.max_priority_fee_per_gas [ none ↦ none | some text ↦ set_string text ]

  raise_cases :
      (c : Candidate) (highest : Option ℤ)
      → let r = raise set_string c.max_priority_fee_per_gas highest in
        ((r ≡ none) × (highest ≡ none) × (tip_of c ≡ none))
        ⊎ ((h : ℤ) × (r ≡ some h)
            × AtMost highest h
            × AtMost (tip_of c) h
            × ((highest ≡ some h) ⊎ (tip_of c ≡ some h)))
  unfolding raise
  raise_cases c highest = elim (Option-cases (tip_of c)) [
    | inl e ↦ elim (Option-cases highest) [
      | inl f ↦ inl (ground arith, f, e)
      | inr (g, f) ↦ inr (g, ground arith, inr (g, f, omega arith), inl e, inl f)
    ]
    | inr (v, e) ↦ elim (Option-cases highest) [
      | inl f ↦ inr (v, ground arith, inl f, inr (v, e, omega arith), inr e)
      | inr (g, f) ↦ elim (Bool-cases (ltb_ℤ g v)) [
        | inl lt ↦ inr (v, ground arith, inr (g, f, ground arith), inr (v, e, omega arith), inr e)
        | inr ge ↦ inr (g, ground arith, inr (g, f, omega arith), inr (v, e, ground arith), inl f)
      ]
    ]
  ]

  -- The highest tip of these candidates and of `start`.
  abbrev pub Highest : Option ℤ → List Candidate → Option ℤ → Type 0
  Highest start cs r =
      ((r ≡ none) × (start ≡ none) × All (λ c. tip_of c ≡ none) cs)
      ⊎ ((h : ℤ) × (r ≡ some h)
          × AtMost start h
          × All (λ c. AtMost (tip_of c) h) cs
          × ((start ≡ some h) ⊎ ((c : Candidate) × In c cs × (tip_of c ≡ some h))))

  AtMost-trans : (o : Option ℤ) (g h : ℤ) → AtMost o g → AtMost (some g) h → AtMost o h
  AtMost-trans o g h (inl e) above = inl e
  AtMost-trans o g h (inr (v, e, le)) (inl f) = cc
  AtMost-trans o g h (inr (v, e, le)) (inr (w, f, le')) =
      let same : g ≡ w = cc in inr (v, e, ground arith)

  Highest-cons :
      (c : Candidate) (cs : List Candidate) (start r : Option ℤ)
      → Highest (raise set_string c.max_priority_fee_per_gas start) cs r
      → Highest start (c ∷ cs) r
  Highest-cons c cs start r high = elim (raise_cases c start) [
    | inl (e, f, g) ↦ elim high [
      | inl (i, j, k) ↦ inl (i, f, (g, k))
      | inr (h, i, j, k, l) ↦
          inr (h, i, inl f, (inl g, k), elim l [ inl m ↦ cc | inr (d, n, o) ↦ inr (d, inr n, o) ])
    ]
    | inr (g, e, below, tip, source) ↦ elim high [
      | inl (i, j, k) ↦ cc
      | inr (h, i, j, k, l) ↦
          let le : AtMost (some g) h = subst (λ o. AtMost o h) e j in
          inr (
            h,
            i,
            AtMost-trans start g h below le,
            (AtMost-trans (tip_of c) g h tip le, k),
            elim l [
              | inl m ↦
                  let same : g ≡ h = cc in
                  elim source [
                    | inl a ↦ inl (a ∙ ap some same)
                    | inr a ↦ inr (c, inl refl, a ∙ ap some same)
                  ]
              | inr (d, n, o) ↦ inr (d, inr n, o)
            ],
          )
    ]
  ]

  tally_all-Highest :
      (t : Tally) (cs : List Candidate)
      → Highest t.highest (eligible_of cs) (tally_all set_string t cs).highest
  unfolding tally_all tally_one
  tally_all-Highest t [] = elim (Option-cases t.highest) [
    | inl e ↦ inl (e, e, tt)
    | inr (h, e) ↦ inr (h, e, inr (h, e, omega arith), tt, inl e)
  ]
  tally_all-Highest t (c ∷ cs) =
      let rest = tally_all-Highest (tally_one set_string t c) cs in
      let result = (tally_all set_string (tally_one set_string t c) cs).highest in
      elim (Bool-cases (is_eligible c.reason)) [
        | inr not_one ↦
            subst₂ (λ start es. Highest start es result) (ground arith) (ground arith) rest
        | inl one ↦
            subst (λ es. Highest t.highest es result) (listed one)
              (Highest-cons c (eligible_of cs) t.highest result
                (subst (λ start. Highest start (eligible_of cs) result) (raised one) rest))
      ]
    where
      raised :
          is_eligible c.reason ≡ true
          → (tally_one set_string t c).highest
            ≡ raise set_string c.max_priority_fee_per_gas t.highest
      raised one = rw one

      listed : is_eligible c.reason ≡ true → c ∷ eligible_of cs ≡ eligible_of (c ∷ cs)
      listed one = rw one

  tally_all-sums :
      (t : Tally) (cs : List Candidate)
      → ((tally_all set_string t cs).skipped_txs ≡ t.skipped_txs + length (eligible_of cs))
        × ((tally_all set_string t cs).skipped_blobs ≡ t.skipped_blobs + blobs_of (eligible_of cs))
  unfolding tally_all tally_one
  tally_all-sums t [] = (omega arith, omega arith)
  tally_all-sums t (c ∷ cs) = ground (arith, tally_all-sums (tally_one set_string t c) cs)

  -- `candidateAggregates` counts the candidates; of those that are eligible it counts the
  -- transactions, adds up the blobs, and finds the highest tip that parses, if there is one.
  pub candidate_aggregates-Highest :
      (to_string : ℤ → String) (cs : List Candidate)
      → let (pending, txs, blobs, tip) = candidate_aggregates set_string to_string cs in
        (pending ≡ length cs)
        × (txs ≡ length (eligible_of cs))
        × (blobs ≡ blobs_of (eligible_of cs))
        × ((r : Option ℤ) × Highest none (eligible_of cs) r
            × (tip ≡ elim r [ none ↦ none | some h ↦ some (to_string h) ]))
  unfolding candidate_aggregates
  candidate_aggregates-Highest to_string cs =
      let t : Tally = record { skipped_txs = 0; skipped_blobs = 0; highest = none } in
      let (txs, blobs) = tally_all-sums t cs in
      (
        refl,
        omega (arith, txs),
        omega (arith, blobs),
        ((tally_all set_string t cs).highest, tally_all-Highest t cs, refl),
      )
