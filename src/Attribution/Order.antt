-- ===== src/Attribution/Order.antt =====
-- The order of claims, `claimSortLess`, is a strict weak order.
use mathlib.Core.Bool.{xor}
use blob_indexer_api.Common.{
  Bool-cases, inl, inr, ◌≡◌, ◌⊎◌, Bool, true, false, not, if◌then◌else◌, arith, is_some,
}
use blob_indexer_api.Common.Int.{ℤ, ltb_ℤ}
use blob_indexer_api.Common.Text.{ltb_text, ltb_text_asym, ltb_text_split}
use blob_indexer_api.Common.Sorting.{IsStrictWeak}
use blob_indexer_api.Attribution.Sync.{application_less}
use blob_indexer_api.Attribution.{Claim, claim_score, claim_sort_less, eqb_ℤ, less_by}

-- One layer of a lexicographic order: the layer decides unless its two values are equal.
abbrev layer : Bool → Bool → Bool → Bool
layer same here behind = if not same then here else behind

layer-asym :
    (e e' l l' r r' : Bool)
    → e ≡ e'
    → (l ≡ true → l' ≡ false)
    → (r ≡ true → r' ≡ false)
    → layer e l r ≡ true
    → layer e' l' r' ≡ false
layer-asym e e' l l' r r' p h k t = ground (arith, h, k)

-- Three values of a layer: the first before or equal to the last, and where the middle one is.
record IsSplit (e e' e'' l l' l'' : Bool) : Type 0 where
  before : l'' ≡ true → ((e ≡ false) × (l ≡ true)) ⊎ ((e' ≡ false) × (l' ≡ true))
  equal :
      e'' ≡ true
      → ((e ≡ true) × (e' ≡ true)) ⊎ (((e ≡ false) × (l ≡ true)) ⊎ ((e' ≡ false) × (l' ≡ true)))

layer-split :
    (e e' e'' l l' l'' r r' r'' : Bool)
    → IsSplit e e' e'' l l' l''
    → (r'' ≡ true → (r ≡ true) ⊎ (r' ≡ true))
    → layer e'' l'' r'' ≡ true
    → (layer e l r ≡ true) ⊎ (layer e' l' r' ≡ true)
layer-split e e' e'' l l' l'' r r' r'' i k t = ground (arith, i.before, i.equal, k)

-- A layer of integers, the larger one first.
ℤ-asym : (a b : ℤ) → ltb_ℤ b a ≡ true → ltb_ℤ a b ≡ false
ℤ-asym a b h = ground arith

ℤ-same : (a b : ℤ) → eqb_ℤ a b ≡ eqb_ℤ b a
ℤ-same a b = ground arith

ℤ-IsSplit :
    (a b c : ℤ) → IsSplit (eqb_ℤ a b) (eqb_ℤ b c) (eqb_ℤ a c) (ltb_ℤ b a) (ltb_ℤ c b) (ltb_ℤ c a)
ℤ-IsSplit a b c = record { before = λ h. ground arith; equal = λ h. ground arith }

flag-asym :
    (b b' l l' : Bool)
    → (l ≡ true → l' ≡ false)
    → (if xor b b' then not b else l) ≡ true
    → (if xor b' b then not b' else l') ≡ false
unfolding xor
flag-asym b b' l l' k t = ground (arith, k)

flag-split :
    (b b' b'' l l' l'' : Bool)
    → (l'' ≡ true → (l ≡ true) ⊎ (l' ≡ true))
    → (if xor b b'' then not b else l'') ≡ true
    → ((if xor b b' then not b else l) ≡ true) ⊎ ((if xor b' b'' then not b' else l') ≡ true)
unfolding xor
flag-split b b' b'' l l' l'' k t = ground (arith, k)

less_by-asym :
    (s s' f f' : ℤ) (b b' l l' : Bool)
    → (l ≡ true → l' ≡ false)
    → less_by s s' f f' b b' l ≡ true
    → less_by s' s f' f b' b l' ≡ false
unfolding less_by
less_by-asym s s' f f' b b' l l' k =
    layer-asym (eqb_ℤ s s') (eqb_ℤ s' s) (ltb_ℤ s' s) (ltb_ℤ s s') _ _ (ℤ-same s s') (ℤ-asym s s') (
      layer-asym (eqb_ℤ f f') (eqb_ℤ f' f) (ltb_ℤ f' f) (ltb_ℤ f f') _ _ (ℤ-same f f') (ℤ-asym f f')
        (flag-asym b b' l l' k))

less_by-split :
    (s s' s'' f f' f'' : ℤ) (b b' b'' l l' l'' : Bool)
    → (l'' ≡ true → (l ≡ true) ⊎ (l' ≡ true))
    → less_by s s'' f f'' b b'' l'' ≡ true
    → (less_by s s' f f' b b' l ≡ true) ⊎ (less_by s' s'' f' f'' b' b'' l' ≡ true)
unfolding less_by
less_by-split s s' s'' f f' f'' b b' b'' l l' l'' k =
    layer-split (eqb_ℤ s s') (eqb_ℤ s' s'') (eqb_ℤ s s'') _ _ _ _ _ _ (ℤ-IsSplit s s' s'') (
      layer-split (eqb_ℤ f f') (eqb_ℤ f' f'') (eqb_ℤ f f'') _ _ _ _ _ _ (ℤ-IsSplit f f' f'')
        (flag-split b b' b'' l l' l'' k))

-- The order of claims is asymmetric, and a third claim is behind the first of two claims in order
-- or before the second.
pub claim_sort_less-IsStrictWeak : IsStrictWeak claim_sort_less
unfolding claim_sort_less
claim_sort_less-IsStrictWeak = record {
  asym = λ a b.
      less_by-asym (claim_score a) (claim_score b) a.valid_from_block b.valid_from_block
        (is_some a.valid_to_block) (is_some b.valid_to_block) (ltb_text a.name b.name)
        (ltb_text b.name a.name) (ltb_text_asym a.name b.name);
  split = λ a b c.
      less_by-split (claim_score a) (claim_score b) (claim_score c) a.valid_from_block
        b.valid_from_block c.valid_from_block (is_some a.valid_to_block) (is_some b.valid_to_block)
        (is_some c.valid_to_block) (ltb_text a.name b.name) (ltb_text b.name c.name)
        (ltb_text a.name c.name) (ltb_text_split a.name b.name c.name);
}

ℤ-IsSplit_up :
    (a b c : ℤ) → IsSplit (eqb_ℤ a b) (eqb_ℤ b c) (eqb_ℤ a c) (ltb_ℤ a b) (ltb_ℤ b c) (ltb_ℤ a c)
ℤ-IsSplit_up a b c = record { before = λ h. ground arith; equal = λ h. ground arith }

one_of : (a b c : ℤ) → ltb_ℤ a c ≡ true → (ltb_ℤ a b ≡ true) ⊎ (ltb_ℤ b c ≡ true)
one_of a b c h = ground arith

-- The order of the application is one too, the lower score and the earlier first block first.
pub application_less-IsStrictWeak : IsStrictWeak application_less
unfolding application_less
application_less-IsStrictWeak = record {
  asym = λ a b.
      layer-asym (eqb_ℤ (claim_score a) (claim_score b)) (eqb_ℤ (claim_score b) (claim_score a)) _ _
        _ _ (ℤ-same (claim_score a) (claim_score b)) (ℤ-asym (claim_score b) (claim_score a))
        (ℤ-asym b.valid_from_block a.valid_from_block);
  split = λ a b c.
      layer-split (eqb_ℤ (claim_score a) (claim_score b)) (eqb_ℤ (claim_score b) (claim_score c))
        (eqb_ℤ (claim_score a) (claim_score c)) _ _ _ _ _ _
        (ℤ-IsSplit_up (claim_score a) (claim_score b) (claim_score c))
        (one_of a.valid_from_block b.valid_from_block c.valid_from_block);
}

ℤ-cmp : (a b : ℤ) → eqb_ℤ a b ≡ false → ltb_ℤ a b ≡ false → ltb_ℤ b a ≡ true
ℤ-cmp a b h k = ground arith

ℤ-eq : (a b : ℤ) → eqb_ℤ a b ≡ true → a ≡ b
ℤ-eq a b h = ground arith

layer-tie :
    (a b : ℤ) (r r' : Bool)
    → layer (eqb_ℤ a b) (ltb_ℤ b a) r ≡ false
    → layer (eqb_ℤ a b) (ltb_ℤ a b) r' ≡ false
    → (a ≡ b) × (r ≡ false) × (r' ≡ false)
layer-tie a b r r' h k = elim (Bool-cases (eqb_ℤ a b)) [
  | inl e ↦ (ℤ-eq a b e, ground (arith, e), ground (arith, e))
  | inr e ↦ absurd (ground (arith, ℤ-cmp a b e))
]

last-tie :
    (a b : ℤ) (r : Bool) → layer (eqb_ℤ a b) (ltb_ℤ b a) r ≡ false → ltb_ℤ a b ≡ false → a ≡ b
last-tie a b r h k = elim (Bool-cases (eqb_ℤ a b)) [
  | inl e ↦ ℤ-eq a b e
  | inr e ↦ absurd (ground (arith, ℤ-cmp a b e))
]

-- A claim that neither order puts before another has its score and its first block.
pub same-rank :
    (a b : Claim)
    → claim_sort_less a b ≡ false
    → application_less a b ≡ false
    → (claim_score a ≡ claim_score b) × (a.valid_from_block ≡ b.valid_from_block)
unfolding claim_sort_less less_by application_less
same-rank a b h k =
    let (e, r, r') = layer-tie (claim_score a) (claim_score b) _ _ h k in
    (e, last-tie a.valid_from_block b.valid_from_block _ r r')
