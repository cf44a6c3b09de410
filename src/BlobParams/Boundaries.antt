-- ===== src/BlobParams/Boundaries.antt =====
-- The boundary in force at a time, in a list of boundaries, and what the steps of
-- `BuildChainConfig` do to it.
use blob_indexer_api.Common.{
  ℕ, zero, suc, ◌≢◌, ◌-◌, ◌≤◌, ◌<◌, ◌≡◌, refl, if◌then◌else◌, leb, leb→le, Bool-cases, Option, none,
  some, List, [], ◌∷◌, length, drop, All, All-map, In, Sorted, ◌⊎◌, inl, inr, ℕ_discrete, arith,
}
use blob_indexer_api.Common.Maps.{lookup}
use blob_indexer_api.BlobParams.Chain.{BlobConfig, Boundary, same_config, same_config-eq}
use blob_indexer_api.BlobParams.Build.{Merged, keys, boundaries_at, collapse, newest, or_some}

-- The configuration of a boundary, if its time has come.
abbrev pub hit : Boundary → ℕ → Option BlobConfig
hit b t = if leb b.time t then some b.config else none

-- The last boundary of the list whose time has come.
abbrev pub last_at : List Boundary → ℕ → Option BlobConfig
last_at [] t = none
last_at (b ∷ bs) t = or_some (last_at bs t) (hit b t)

abbrev pub SortedFrom : ℕ → List Boundary → Type 0
SortedFrom n [] = Unit
SortedFrom n (b ∷ bs) = (n ≤ b.time) × SortedFrom b.time bs

pub last_at_before : (n t : ℕ) (bs : List Boundary) → SortedFrom n bs → t < n → last_at bs t ≡ none
last_at_before n t [] h lt = refl
last_at_before n t (b ∷ bs) h lt = rw (last_at_before b.time t bs h.1 (omega arith)) (ground arith)

SortedFrom-mono : (n k : ℕ) (bs : List Boundary) → k ≤ n → SortedFrom n bs → SortedFrom k bs
SortedFrom-mono n k [] le h = tt
SortedFrom-mono n k (b ∷ bs) le h = (omega arith, h.1)

-- `prev` stands for the boundary kept last, at a time `u`.
abbrev carried : Option (ℕ × BlobConfig) → ℕ → Option BlobConfig
carried none t = none
carried (some (u, c)) t = if leb u t then some c else none

abbrev start_of : Option (ℕ × BlobConfig) → ℕ
start_of none = 0
start_of (some (u, c)) = u

abbrev config_of : Option (ℕ × BlobConfig) → Option BlobConfig
config_of none = none
config_of (some (u, c)) = some c

last_at-collapse_from :
    (p : Option (ℕ × BlobConfig)) (bs : List Boundary) (t : ℕ)
    → SortedFrom (start_of p) bs
    → or_some (last_at (collapse (config_of p) bs) t) (carried p t)
      ≡ or_some (last_at bs t) (carried p t)
unfolding collapse
last_at-collapse_from none [] t h = refl
last_at-collapse_from (some (u, c)) [] t h = refl
last_at-collapse_from none (b ∷ bs) t h =
    ground (arith, last_at-collapse_from (some (b.time, b.config)) bs t h.1)
last_at-collapse_from (some (u, c)) (b ∷ bs) t h = ground (
  arith,
  same_config-eq b.config c,
  last_at-collapse_from (some (u, c)) bs t (SortedFrom-mono b.time u bs h.0 h.1),
  last_at-collapse_from (some (b.time, b.config)) bs t h.1,
)

-- Dropping no-op boundaries changes no answer.
pub last_at-collapse :
    (bs : List Boundary) (t : ℕ) → SortedFrom 0 bs → last_at (collapse none bs) t ≡ last_at bs t
last_at-collapse bs t h = ground (arith, last_at-collapse_from none bs t h)

pub SortedFrom-collapse :
    (n : ℕ) (p : Option BlobConfig) (bs : List Boundary)
    → SortedFrom n bs
    → SortedFrom n (collapse p bs)
unfolding collapse
SortedFrom-collapse n none [] h = tt
SortedFrom-collapse n (some c) [] h = tt
SortedFrom-collapse n none (b ∷ bs) h = (h.0, SortedFrom-collapse b.time (some b.config) bs h.1)
SortedFrom-collapse n (some c) (b ∷ bs) h = elim (Bool-cases (same_config b.config c)) [
  | inl e ↦ rw e (SortedFrom-collapse n (some c) bs (SortedFrom-mono b.time n bs h.0 h.1))
  | inr e ↦ rw e (h.0, SortedFrom-collapse b.time (some b.config) bs h.1)
]

-- The first `k` boundaries do not matter at a time that the boundary after them has reached.
last_at-drop :
    (k : ℕ) (bs : List Boundary) (t : ℕ)
    → ◌≢◌ {A = Option BlobConfig} (last_at (drop k bs) t) none
    → last_at (drop k bs) t ≡ last_at bs t
last_at-drop zero bs t h = refl
last_at-drop (suc k) [] t h = refl
last_at-drop (suc k) (b ∷ bs) t h = ground (arith, last_at-drop k bs t h)

-- Keeping the newest boundaries changes no answer, where any of them is in force or none is dropped.
pub last_at-newest :
    (bs : List Boundary) (t : ℕ)
    → (length bs ≤ 7) ⊎ (last_at (newest bs) t ≢ none)
    → last_at (newest bs) t ≡ last_at bs t
unfolding newest
last_at-newest bs t (inl h) = ground arith
last_at-newest bs t (inr h) = ground (arith, last_at-drop (length bs - 7) bs t)

-- The sorted times with their parameters, and the times of the map.
pub In-keys : (m : Merged) (t : ℕ) (b : BlobConfig) → lookup ℕ_discrete t m ≡ some b → In t (keys m)
unfolding lookup
In-keys [] t b h = absurd (ground arith)
In-keys ((u, c) ∷ m) t b h = ground (arith, In-keys m t b)

pub SortedFrom-boundaries_at :
    (m : Merged) (n : ℕ) (ts : List ℕ)
    → All (λ t. n ≤ t) ts
    → Sorted ts
    → SortedFrom n (boundaries_at m ts)
unfolding boundaries_at
SortedFrom-boundaries_at m n [] h s = tt
SortedFrom-boundaries_at m n (t ∷ ts) h s =
    ground (arith, SortedFrom-boundaries_at m n ts h.1 s.1, SortedFrom-boundaries_at m t ts s.0 s.1)

-- What `last_at` finds in a sorted list: a reached boundary behind which every other is unreached.
abbrev pub Found : List Boundary → ℕ → Option BlobConfig → Type 0
Found bs t none = All (λ b. t < b.time) bs
Found bs t (some c) =
    (u : ℕ) × In (record { time = u; config = c }) bs
    × (u ≤ t)
    × All (λ b. (b.time ≤ u) ⊎ (t < b.time)) bs

SortedFrom-In : (n : ℕ) (b : Boundary) (bs : List Boundary) → SortedFrom n bs → In b bs → n ≤ b.time
SortedFrom-In n b [] h i = absurd i
SortedFrom-In n b (a ∷ bs) h (inl e) = ground arith
SortedFrom-In n b (a ∷ bs) h (inr i) = omega (arith, SortedFrom-In a.time b bs h.1 i)

Found-cons :
    (b : Boundary) (bs : List Boundary) (t : ℕ) (o : Option BlobConfig)
    → SortedFrom b.time bs
    → Found bs t o
    → Found (b ∷ bs) t (or_some o (hit b t))
Found-cons b bs t none h f = elim (Bool-cases (leb b.time t)) [
  | inl e ↦ rw e (
    b.time,
    inl refl,
    leb→le b.time t e,
    (inl (omega arith), All-map (λ a. t < a.time) _ (λ a p. inr p) bs f),
  )
  | inr e ↦ rw e (ground arith, f)
]
Found-cons b bs t (some c) h (u, i, le, all) =
    (u, inr i, le, (inl (SortedFrom-In b.time (record { time = u; config = c }) bs h i), all))

pub last_at-Found :
    (n : ℕ) (bs : List Boundary) (t : ℕ) → SortedFrom n bs → Found bs t (last_at bs t)
last_at-Found n [] t h = tt
last_at-Found n (b ∷ bs) t h = Found-cons b bs t (last_at bs t) h.1 (last_at-Found b.time bs t h.1)

pub lookup_of_In :
    (m : Merged) (b : Boundary) (ts : List ℕ)
    → In b (boundaries_at m ts)
    → lookup ℕ_discrete b.time m ≡ some b.config
unfolding boundaries_at
lookup_of_In m b [] i = absurd i
lookup_of_In m b (t ∷ ts) i = ground (arith, lookup_of_In m b ts)

pub In-boundaries_at :
    (m : Merged) (t : ℕ) (c : BlobConfig) (ts : List ℕ)
    → In t ts
    → lookup ℕ_discrete t m ≡ some c
    → In (record { time = t; config = c }) (boundaries_at m ts)
unfolding boundaries_at
In-boundaries_at m t c [] i e = absurd i
In-boundaries_at m t c (u ∷ ts) i e = ground (arith, In-boundaries_at m t c ts)
