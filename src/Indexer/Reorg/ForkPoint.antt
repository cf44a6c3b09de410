-- ===== src/Indexer/Reorg/ForkPoint.antt =====
-- Where the walk of `handleReorg` stops.
use mathlib.Core.Path.{subst₂}
use blob_indexer_api.Common.{
  sym, subst, ℕ, zero, suc, ◌+◌, ◌-◌, ◌≤◌, ◌<◌, ◌≡◌, ◌≢◌, refl, ◌⊎◌, inl, inr, Bool, true, false,
  ◌==◌, Option, none, some, String, string_discrete, ℕ_discrete, arith, Bool-cases, Option-cases,
}
use blob_indexer_api.Common.Maps.{lookup}
use blob_indexer_api.Indexer.Reorg.{
  Store, scan_failed, stopped_at, find_fork, get_indexed_block_hash,
}

-- The stored block at `n` is not the canonical one.
abbrev pub Orphaned : (ℕ → Option String) → Store → ℕ → Type 0
Orphaned node d n =
    (h c : String) × (lookup ℕ_discrete n d.indexed ≡ some h) × (node n ≡ some c) × (h ≢ c)

-- The stored block at `n` is the canonical one, or there is none.
abbrev pub Agrees : (ℕ → Option String) → Store → ℕ → Type 0
Agrees node d n = (lookup ℕ_discrete n d.indexed ≡ none) ⊎ (lookup ℕ_discrete n d.indexed ≡ node n)

-- A walk from `start` that stopped at `fork`.
pub record IsFork (node : ℕ → Option String) (d : Store) (depth start fork : ℕ) (found : Bool)
    : Type 0 where
  pub below : fork ≤ start
  pub bounded : start ≤ fork + depth
  pub orphaned : (n : ℕ) → fork < n → n ≤ start → Orphaned node d n
  pub verified : (found ≡ false) ⊎ Agrees node d fork
  pub truncated : (found ≡ true) ⊎ (fork ≡ 0) ⊎ (start ≡ fork + depth)

IsFork-here :
    (node : ℕ → Option String) (d : Store) (depth fork : ℕ) (found : Bool)
    → ((found ≡ false) ⊎ Agrees node d fork)
    → ((found ≡ true) ⊎ (fork ≡ 0) ⊎ (fork ≡ fork + depth))
    → IsFork node d depth fork fork found
IsFork-here node d depth fork found v t = record {
  below = omega arith;
  bounded = omega arith;
  orphaned = λ n lo hi. absurd (omega arith);
  verified = v;
  truncated = t;
}

IsFork-back :
    (node : ℕ → Option String) (d : Store) (depth start fork : ℕ) (found : Bool)
    → start ≢ 0
    → Orphaned node d start
    → IsFork node d depth (start - 1) fork found
    → IsFork node d (suc depth) start fork found
IsFork-back node d depth start fork found ne o f = record {
  below = omega (arith, f.below);
  bounded = omega (arith, f.bounded);
  orphaned = λ n lo hi. elim (ℕ_discrete n start) [
    | yes e ↦ subst (Orphaned node d) (sym e) o
    | no other ↦ f.orphaned n lo (omega arith)
  ];
  verified = f.verified;
  truncated = ground (arith, f.truncated, f.below);
}

stopped_at-inj : {a b : ℕ} {p q : Bool} → stopped_at a p ≡ stopped_at b q → (a ≡ b) × (p ≡ q)
stopped_at-inj e = (cc, cc)

module _ (node : ℕ → Option String) (readable : ℕ → Bool) (d : Store) where
  -- Wherever the walk from `start` stops, every block above it up to `start` is stored with a hash
  -- that is not the canonical one. It stops at a stored block with the canonical hash or at one
  -- that is not stored, at block 0, or after `depth` blocks.
  pub find_fork-IsFork :
      (depth start fork : ℕ) (found : Bool)
      → find_fork node readable d depth start ≡ stopped_at fork found
      → IsFork node d depth start fork found
  unfolding find_fork get_indexed_block_hash
  find_fork-IsFork zero start fork found e =
      let (same, none_found) = stopped_at-inj e in
      subst₂ (λ k b. IsFork node d 0 start k b) same none_found
        (IsFork-here node d 0 start false (inl refl) (inr (inr (omega arith))))
  find_fork-IsFork (suc depth) start fork found e = elim (Bool-cases (start == 0)) [
    | inl z ↦
        ground
          (arith, IsFork-here node d (suc depth) start false (inl refl) (inr (inl (ground arith))))
    | inr nz ↦ elim (Option-cases (node start)) [
      | inl no_node ↦ ground arith
      | inr (c, canonical) ↦ elim (Option-cases (lookup ℕ_discrete start d.indexed)) [
        | inl unstored ↦
            ground
              (arith, IsFork-here node d (suc depth) start true (inr (inl unstored)) (inl refl))
        | inr (h, stored) ↦ elim (string_discrete h c) [
          | yes same ↦
              ground (arith, IsFork-here node d (suc depth) start true (inr (inr (cc))) (inl refl))
          | no other ↦
              IsFork-back node d depth start fork found (ground arith)
                (h, c, stored, canonical, other)
                (find_fork-IsFork depth (start - 1) fork found (ground arith))
        ]
      ]
    ]
  ]

-- The walk fails only where the node or the database fails.
pub find_fork-ne-scan_failed :
    (node : ℕ → Option String) (readable : ℕ → Bool) (d : Store)
    → ((n : ℕ) → readable n ≡ true)
    → ((n : ℕ) → node n ≢ none)
    → (depth start : ℕ) → find_fork node readable d depth start ≢ scan_failed
unfolding find_fork get_indexed_block_hash
find_fork-ne-scan_failed node readable d reads answers zero start e = cc
find_fork-ne-scan_failed node readable d reads answers (suc depth) start e = ground (
  arith,
  reads start,
  answers start,
  find_fork-ne-scan_failed node readable d reads answers depth (start - 1),
)
