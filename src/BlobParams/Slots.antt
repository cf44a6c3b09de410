-- ===== src/BlobParams/Slots.antt =====
-- The fork slots of go-ethereum's configuration as a list of boundaries.
use blob_indexer_api.Common.{
  ℕ, zero, suc, ◌≤◌, ◌≡◌, refl, sym, subst, inl, inr, Option-cases, ◌∙◌, ◌&&◌, if◌then◌else◌,
  is_some, Option, none, some, List, [], ◌∷◌, length, arith,
}
use blob_indexer_api.BlobParams.Chain.{
  BlobConfig, BlobSchedule, ChainConfig, Geth, IsTimed, Fork, Boundary, reached, fork_time,
}
use blob_indexer_api.BlobParams.Build.{
  present, fork_slots, base_boundaries, or_some, set_blob_slot, assign_slots, empty_schedule,
  clear_blob_fork_times, max_blob_fork_slots,
}
use blob_indexer_api.BlobParams.Resolve.{active_in, get_active_blob_config}
use blob_indexer_api.BlobParams.Boundaries.{last_at}

-- The switch of `getActiveBlobConfig` over a slot list, the last slot tried first.
abbrev switch : List (Option ℕ × Option BlobConfig) → ℕ → Option BlobConfig → Option BlobConfig
switch [] t other = other
switch ((time, slot) ∷ ps) t other =
    switch ps t (if reached time t && is_some slot then slot else other)

switch-eq-last_at :
    (ps : List (Option ℕ × Option BlobConfig)) (t : ℕ) (other : Option BlobConfig)
    → switch ps t other ≡ or_some (last_at (present ps) t) other
switch-eq-last_at [] t other = refl
switch-eq-last_at ((time, slot) ∷ ps) t other =
    ground (arith, switch-eq-last_at ps t (if reached time t && is_some slot then slot else other))

or_some-none : {A : Type 0} (o : Option A) → or_some o none ≡ o
or_some-none none = refl
or_some-none (some a) = refl

module _ {g : Geth} (timed : IsTimed g) (c : ChainConfig) (n t : ℕ)
    (e : c.london_block ≡ some n) where
  pub is_fork-reached : (f : Fork) → g.is_fork f c c.london_block t ≡ reached (fork_time c f) t
  is_fork-reached f =
      subst (λ l. g.is_fork f c l t ≡ reached (fork_time c f) t) (sym e)
        (timed.fork_timed f c n t e)

  active_in-eq-switch : (s : BlobSchedule) → active_in g c s t ≡ switch (fork_slots c s) t none
  unfolding active_in
  active_in-eq-switch s = rw (
    is_fork-reached Fork.cancun,
    is_fork-reached Fork.prague,
    is_fork-reached Fork.bpo1,
    is_fork-reached Fork.bpo2,
    is_fork-reached Fork.bpo3,
    is_fork-reached Fork.bpo4,
    is_fork-reached Fork.bpo5,
  )

  -- The switch of `getActiveBlobConfig` finds the last boundary in slot order whose time has come.
  pub get_active_blob_config-eq-last_at :
      get_active_blob_config g c t ≡ last_at (base_boundaries c) t
  unfolding get_active_blob_config base_boundaries
  get_active_blob_config-eq-last_at = elim (Option-cases c.blob_schedule) [
    | inl none_set ↦ rw (none_set, get_active_blob_config, base_boundaries)
    | inr (s, set) ↦
        rw (set, get_active_blob_config, base_boundaries)
          (active_in-eq-switch s
            ∙ switch-eq-last_at (fork_slots c s) t none
            ∙ or_some-none (last_at (present (fork_slots c s)) t))
  ]

-- What is written to the slots is read back from them, for as many boundaries as there are slots.
pub present-assign_slots :
    (c : ChainConfig) (bs : List Boundary)
    → length bs ≤ max_blob_fork_slots
    → let (out, s) = assign_slots (clear_blob_fork_times c, empty_schedule) 0 bs in
      present (fork_slots out s) ≡ bs
unfolding assign_slots set_blob_slot clear_blob_fork_times
present-assign_slots c [] h = refl
present-assign_slots c (b0 ∷ []) h = refl
present-assign_slots c (b0 ∷ b1 ∷ []) h = refl
present-assign_slots c (b0 ∷ b1 ∷ b2 ∷ []) h = refl
present-assign_slots c (b0 ∷ b1 ∷ b2 ∷ b3 ∷ []) h = refl
present-assign_slots c (b0 ∷ b1 ∷ b2 ∷ b3 ∷ b4 ∷ []) h = refl
present-assign_slots c (b0 ∷ b1 ∷ b2 ∷ b3 ∷ b4 ∷ b5 ∷ []) h = refl
present-assign_slots c (b0 ∷ b1 ∷ b2 ∷ b3 ∷ b4 ∷ b5 ∷ b6 ∷ []) h = refl
present-assign_slots c (b0 ∷ b1 ∷ b2 ∷ b3 ∷ b4 ∷ b5 ∷ b6 ∷ b7 ∷ bs) h = absurd (omega arith)

fields-set_blob_slot :
    (cs : ChainConfig × BlobSchedule) (i t : ℕ) (b : BlobConfig)
    → let c = (set_blob_slot cs i t b).0 in
      (c.london_block ≡ cs.0.london_block) × (c.osaka_time ≡ cs.0.osaka_time)
unfolding set_blob_slot
fields-set_blob_slot cs zero t b = (refl, refl)
fields-set_blob_slot cs (suc zero) t b = (refl, refl)
fields-set_blob_slot cs (suc (suc zero)) t b = (refl, refl)
fields-set_blob_slot cs (suc (suc (suc zero))) t b = (refl, refl)
fields-set_blob_slot cs (suc (suc (suc (suc zero)))) t b = (refl, refl)
fields-set_blob_slot cs (suc (suc (suc (suc (suc zero))))) t b = (refl, refl)
fields-set_blob_slot cs (suc (suc (suc (suc (suc (suc zero)))))) t b = (refl, refl)
fields-set_blob_slot cs (suc (suc (suc (suc (suc (suc (suc i))))))) t b = (refl, refl)

-- Filling the slots touches neither London nor Osaka.
pub fields-assign_slots :
    (cs : ChainConfig × BlobSchedule) (i : ℕ) (bs : List Boundary)
    → let c = (assign_slots cs i bs).0 in
      (c.london_block ≡ cs.0.london_block) × (c.osaka_time ≡ cs.0.osaka_time)
unfolding assign_slots
fields-assign_slots cs i [] = (refl, refl)
fields-assign_slots cs i (b ∷ bs) =
    let (l, o) = fields-set_blob_slot cs i b.time b.config in
    let (l', o') = fields-assign_slots (set_blob_slot cs i b.time b.config) (suc i) bs in
    (l' ∙ l, o' ∙ o)
