-- ===== src/BlobParams/Newest.antt =====
-- What the fork slots of the configuration that `BuildChainConfig` makes hold.
use blob_indexer_api.Common.{
  ap, ℕ, zero, suc, ◌-◌, ◌≤◌, ◌≡◌, ◌≢◌, refl, ◌⊎◌, inl, inr, ◌∙◌, true, ltb, Option, none, some,
  List, [], ◌∷◌, ◌++◌, length, drop, length-drop, get_elem?, All, All-map, arith, Bool-cases,
  ℕ_discrete, sort, sym, subst,
}
use blob_indexer_api.Common.Maps.{lookup}
use blob_indexer_api.BlobParams.Chain.{
  BlobConfig, ChainConfig, Geth, ScheduleEntry, Boundary, same_config,
}
use blob_indexer_api.BlobParams.Build.{
  Merged, keys, base_boundaries, merged, or_some, boundaries_at, collapse, newest, kept_boundaries,
  distinct_boundaries, rebuild, build_chain_config, chain_config_for_id,
}
use blob_indexer_api.BlobParams.Boundaries.{
  last_at, SortedFrom, SortedFrom-collapse, last_at-collapse,
}
use blob_indexer_api.BlobParams.Active.{
  starting_at, Latest, lookup-merged, sorted_boundaries, SortedFrom-sorted_boundaries,
  Latest-sorted_boundaries, base_boundaries-rebuild, osaka_time-rebuild,
}

-- Each boundary has other parameters than the one before it.
abbrev pub Changes : Option BlobConfig → List Boundary → Type 0
Changes previous [] = Unit
Changes previous (b ∷ bs) = (previous ≢ some b.config) × Changes (some b.config) bs

same_config_refl : (b : BlobConfig) → same_config b b ≡ true
unfolding same_config
same_config_refl b = ground arith

Changes-collapse : (p : Option BlobConfig) (bs : List Boundary) → Changes p (collapse p bs)
unfolding collapse
Changes-collapse none [] = tt
Changes-collapse (some c) [] = tt
Changes-collapse none (b ∷ bs) = (λ e. cc, Changes-collapse (some b.config) bs)
Changes-collapse (some c) (b ∷ bs) = elim (Bool-cases (same_config b.config c)) [
  | inl e ↦ rw e (Changes-collapse (some c) bs)
  | inr e ↦
      rw e
        (λ same. ground (arith, e, same, same_config_refl c), Changes-collapse (some b.config) bs)
]

All-collapse :
    (P : Boundary → Type 0) (p : Option BlobConfig) (bs : List Boundary)
    → All P bs
    → All P (collapse p bs)
unfolding collapse
All-collapse P none [] h = tt
All-collapse P (some c) [] h = tt
All-collapse P none (b ∷ bs) h = (h.0, All-collapse P (some b.config) bs h.1)
All-collapse P (some c) (b ∷ bs) h = elim (Bool-cases (same_config b.config c)) [
  | inl e ↦ rw e (All-collapse P (some c) bs h.1)
  | inr e ↦ rw e (h.0, All-collapse P (some b.config) bs h.1)
]

All-boundaries_at :
    (m : Merged) (ts : List ℕ)
    → All (λ b. lookup ℕ_discrete b.time m ≡ some b.config) (boundaries_at m ts)
unfolding boundaries_at
All-boundaries_at m [] = tt
All-boundaries_at m (t ∷ ts) = go (All-boundaries_at m ts) (lookup ℕ_discrete t m) refl
  where
    go :
        All (λ b. lookup ℕ_discrete b.time m ≡ some b.config) (boundaries_at m ts)
        → (o : Option BlobConfig) → lookup ℕ_discrete t m ≡ o
        → All
            (λ b. lookup ℕ_discrete b.time m ≡ some b.config)
            (elim o [
              | none ↦ boundaries_at m ts
              | some b ↦ record { time = t; config = b } ∷ boundaries_at m ts
            ])
    go h none e = h
    go h (some b) e = (e, h)

-- The boundaries that change the parameters: each starts at its time what its predecessor had not,
-- and at every time the last one reached is what started last.
pub record IsHistory (start : ℕ → Option BlobConfig) (all : List Boundary) : Type 0 where
  pub ascending : SortedFrom 0 all
  pub changes : Changes none all
  pub starting : All (λ b. start b.time ≡ some b.config) all
  pub in_force : (t : ℕ) → Latest start t (last_at all t)

distinct_boundaries-IsHistory :
    (c : ChainConfig) (es : List ScheduleEntry)
    → IsHistory (starting_at c es) (distinct_boundaries c es)
unfolding distinct_boundaries
distinct_boundaries-IsHistory c es =
    let m = merged c es in
    let sorted = SortedFrom-sorted_boundaries m in
    record {
      ascending = SortedFrom-collapse 0 none (sorted_boundaries m) sorted;
      changes = Changes-collapse none (sorted_boundaries m);
      starting =
          All-collapse (λ b. starting_at c es b.time ≡ some b.config) none (sorted_boundaries m)
            (All-map (λ b. lookup ℕ_discrete b.time m ≡ some b.config)
              (λ b. starting_at c es b.time ≡ some b.config)
              (λ b e. sym (lookup-merged c es b.time) ∙ e) (sorted_boundaries m)
              (All-boundaries_at m (sort (keys m))));
      in_force = λ t.
          subst (Latest (starting_at c es) t)
            (sym (last_at-collapse (sorted_boundaries m) t sorted))
            (Latest-sorted_boundaries c es t);
    }

drop_split : (k : ℕ) (bs : List Boundary) → (ds : List Boundary) × (bs ≡ ds ++ drop k bs)
drop_split zero bs = ([], refl)
drop_split (suc k) [] = ([], refl)
drop_split (suc k) (b ∷ bs) = let (ds, e) = drop_split k bs in (b ∷ ds, ap (◌∷◌ b) e)

newest_split :
    (bs : List Boundary)
    → (older : List Boundary) × (bs ≡ older ++ newest bs)
      × (length (newest bs) ≤ 7)
      × ((older ≡ []) ⊎ (length (newest bs) ≡ 7))
unfolding newest
newest_split bs = elim (Bool-cases (ltb 7 (length bs))) [
  | inl more ↦
      let (ds, e) = drop_split (length bs - 7) bs in
      rw more (
        ds,
        e,
        ground (arith, length-drop (length bs - 7) bs),
        inr (ground (arith, length-drop (length bs - 7) bs)),
      )
  | inr few ↦ rw few ([], refl, ground arith, inl refl)
]

-- The slots of the rebuilt configuration hold the newest boundaries of the history of the parameters,
-- oldest first: all of them, or exactly seven. In that history each boundary changes the parameters
-- to those that start at its time, and the last one reached is what started last. The Osaka time is
-- the chain's own, and where the chain has none it is the third of all times, if there are three.
pub build_chain_config_holds :
    (g : Geth) (id : ℕ) (e : ScheduleEntry) (es : List ScheduleEntry)
    → let base = chain_config_for_id g id in
      let built = build_chain_config g id (e ∷ es) in
      ((history older : List Boundary) × IsHistory (starting_at base (e ∷ es)) history
        × (history ≡ older ++ base_boundaries built)
        × (length (base_boundaries built) ≤ 7)
        × ((older ≡ []) ⊎ (length (base_boundaries built) ≡ 7)))
      × (built.osaka_time
          ≡ or_some base.osaka_time (get_elem? (sort (keys (merged base (e ∷ es)))) 2))
unfolding build_chain_config
build_chain_config_holds g id e es =
    let base = chain_config_for_id g id in
    let all = distinct_boundaries base (e ∷ es) in
    let held : newest all ≡ base_boundaries (rebuild base (e ∷ es)) =
      unfold kept_boundaries in sym (base_boundaries-rebuild base (e ∷ es)) in
    let (older, split, few, most) = newest_split all in
    (
      (
        all,
        older,
        distinct_boundaries-IsHistory base (e ∷ es),
        subst (λ bs. all ≡ older ++ bs) held split,
        subst (λ bs. length bs ≤ 7) held few,
        subst (λ bs. (older ≡ []) ⊎ (length bs ≡ 7)) held most,
      ),
      osaka_time-rebuild base (e ∷ es),
    )
