-- ===== src/Indexer/Candidates/LowestNonce.antt =====
-- The map of lowest nonces that `classifyCandidates` builds, internal/indexer/builders.go.
use blob_indexer_api.Common.{
  ap, ◌∙◌, ◌+◌, ◌<◌, ◌≡◌, refl, sym, ◌⊎◌, inl, inr, if◌then◌else◌, none, some, List, [], ◌∷◌,
  String, string_discrete, In, arith, Bool-cases, Option-cases,
}
use blob_indexer_api.Common.Int.{ℤ, pos_part, neg_part, ltb_ℤ, ◌≤ℤ◌}
use blob_indexer_api.Common.Maps.{lookup, lookup-insert}
use blob_indexer_api.Indexer.Candidates.{CandidateTx, lower_nonce, lowest_nonces}

infix 50 ◌<ℤ◌
abbrev pub ◌<ℤ◌ : ℤ → ℤ → Type 0
a <ℤ b = pos_part a + neg_part b < pos_part b + neg_part a

-- A transaction of this sender has this nonce.
abbrev pub Sent : List CandidateTx → String → ℤ → Type 0
Sent txs sender n = (o : CandidateTx) × In o txs × (o.from_address ≡ sender) × (o.nonce ≡ some n)

lookup-lower_nonce :
    (lowest : List (String × ℤ)) (sender s : String) (n : ℤ)
    → lookup string_discrete s (lower_nonce lowest sender n) ≡ elim (string_discrete sender s) [
      | no other ↦ lookup string_discrete s lowest
      | yes same ↦ elim (lookup string_discrete sender lowest) [
        | none ↦ some n
        | some current ↦ if ltb_ℤ n current then some n else some current
      ]
    ]
unfolding lower_nonce
lookup-lower_nonce lowest sender s n = elim (string_discrete sender s) [
  | yes same ↦ ground (arith, same, lookup-insert string_discrete sender s n lowest)
  | no other ↦ ground (arith, other, lookup-insert string_discrete sender s n lowest)
]

lower_nonce-falls :
    (lowest : List (String × ℤ)) (sender s : String) (n j : ℤ)
    → lookup string_discrete s lowest ≡ some j
    → (k : ℤ) × (lookup string_discrete s (lower_nonce lowest sender n) ≡ some k) × (k ≤ℤ j)
lower_nonce-falls lowest sender s n j e = elim (string_discrete sender s) [
  | yes same ↦ elim (Bool-cases (ltb_ℤ n j)) [
    | inl lt ↦ (n, ground (arith, lookup-lower_nonce lowest sender s n), ground arith)
    | inr ge ↦ (j, ground (arith, lookup-lower_nonce lowest sender s n), omega arith)
  ]
  | no other ↦ (j, ground (arith, lookup-lower_nonce lowest sender s n), omega arith)
]

lower_nonce-le :
    (lowest : List (String × ℤ)) (sender : String) (n : ℤ)
    → (k : ℤ) × (lookup string_discrete sender (lower_nonce lowest sender n) ≡ some k) × (k ≤ℤ n)
lower_nonce-le lowest sender n = elim (Option-cases (lookup string_discrete sender lowest)) [
  | inl e ↦ (n, ground (arith, lookup-lower_nonce lowest sender sender n), omega arith)
  | inr (j, e) ↦ elim (Bool-cases (ltb_ℤ n j)) [
    | inl lt ↦ (n, ground (arith, lookup-lower_nonce lowest sender sender n), omega arith)
    | inr ge ↦ (j, ground (arith, lookup-lower_nonce lowest sender sender n), ground arith)
  ]
]

lower_nonce-source :
    (lowest : List (String × ℤ)) (sender s : String) (n k : ℤ)
    → lookup string_discrete s (lower_nonce lowest sender n) ≡ some k
    → (lookup string_discrete s lowest ≡ some k) ⊎ ((sender ≡ s) × (n ≡ k))
lower_nonce-source lowest sender s n k e = elim (string_discrete sender s) [
  | yes same ↦ ground (arith, lookup-lower_nonce lowest sender s n)
  | no other ↦ ground (arith, lookup-lower_nonce lowest sender s n)
]

-- An entry of the map only falls.
lowest_nonces-falls :
    (txs : List CandidateTx) (acc : List (String × ℤ)) (s : String) (j : ℤ)
    → lookup string_discrete s acc ≡ some j
    → (k : ℤ) × (lookup string_discrete s (lowest_nonces txs acc) ≡ some k) × (k ≤ℤ j)
unfolding lowest_nonces
lowest_nonces-falls [] acc s j e = (j, e, omega arith)
lowest_nonces-falls (tx ∷ txs) acc s j e = elim (Option-cases tx.nonce) [
  | inl f ↦ rw f (lowest_nonces-falls txs acc s j e)
  | inr (n, f) ↦
      let (i, g, le) = lower_nonce-falls acc tx.from_address s n j e in
      let (k, h, le') = lowest_nonces-falls txs (lower_nonce acc tx.from_address n) s i g in
      (k, rw (f, h), omega arith)
]

-- The entry of a sender is at or below each nonce that it sent.
pub lowest_nonces-le :
    (txs : List CandidateTx) (acc : List (String × ℤ)) (s : String) (n : ℤ)
    → Sent txs s n
    → (k : ℤ) × (lookup string_discrete s (lowest_nonces txs acc) ≡ some k) × (k ≤ℤ n)
unfolding lowest_nonces
lowest_nonces-le [] acc s n (o, i, from, nonce) = absurd i
lowest_nonces-le (tx ∷ txs) acc s n (o, inl here, from, nonce) =
    let (i, g, le) = lower_nonce-le acc s n in
    let (k, h, le') = lowest_nonces-falls txs (lower_nonce acc s n) s i g in
    let sender : tx.from_address ≡ s = sym (ap (λ x. x.from_address) here) ∙ from in
    let sent : tx.nonce ≡ some n = sym (ap (λ x. x.nonce) here) ∙ nonce in
    (k, rw (sent, sender, h), omega arith)
lowest_nonces-le (tx ∷ txs) acc s n (o, inr there, from, nonce) = elim (Option-cases tx.nonce) [
  | inl f ↦ rw f (lowest_nonces-le txs acc s n (o, there, from, nonce))
  | inr (m, f) ↦
      rw f (lowest_nonces-le txs (lower_nonce acc tx.from_address m) s n (o, there, from, nonce))
]

Sent-later :
    (tx : CandidateTx) (txs : List CandidateTx) (s : String) (n : ℤ)
    → Sent txs s n
    → Sent (tx ∷ txs) s n
Sent-later tx txs s n (o, i, from, nonce) = (o, inr i, from, nonce)

-- The entry of a sender is a nonce that it sent.
pub lowest_nonces-source :
    (txs : List CandidateTx) (acc : List (String × ℤ)) (s : String) (k : ℤ)
    → lookup string_discrete s (lowest_nonces txs acc) ≡ some k
    → (lookup string_discrete s acc ≡ some k) ⊎ Sent txs s k
unfolding lowest_nonces
lowest_nonces-source [] acc s k e = inl e
lowest_nonces-source (tx ∷ txs) acc s k e = elim (Option-cases tx.nonce) [
  | inl f ↦ elim (lowest_nonces-source txs acc s k (ground arith)) [
    | inl g ↦ inl g
    | inr g ↦ inr (Sent-later tx txs s k g)
  ]
  | inr (n, f) ↦
      elim (lowest_nonces-source txs (lower_nonce acc tx.from_address n) s k (ground arith)) [
        | inl g ↦ elim (lower_nonce-source acc tx.from_address s n k g) [
          | inl old ↦ inl old
          | inr (from, same) ↦ inr (tx, inl refl, from, cc)
        ]
        | inr g ↦ inr (Sent-later tx txs s k g)
      ]
]
