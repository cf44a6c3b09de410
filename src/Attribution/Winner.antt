-- ===== src/Attribution/Winner.antt =====
-- Whom the service names for an address: `GetUserAttributionForBlock` against the claims themselves,
-- and the map of known users against the answer for the latest block.
use blob_indexer_api.Common.{
  if_false, ◌≡◌, refl, sym, ◌∙◌, ap, subst, ◌⊎◌, inl, inr, true, false, ◌&&◌, Option, none, some,
  List, [], ◌∷◌, map, arith, All, In, Bool-cases,
}
use blob_indexer_api.Common.Int.{ℤ, pos, ◌≤ℤ◌, ltb_ℤ}
use blob_indexer_api.Common.Maps.{lookup, insert, lookup-insert}
use blob_indexer_api.Common.Text.{Text, text_discrete, to_lower}
use blob_indexer_api.Common.Sorting.{
  prefer, best_of, Best, nothing, found, best_of-Best, merge_best, merge_best-prefer,
}
use blob_indexer_api.Attribution.{
  Claim, matches_block, claim_sort_less, normalize, better, best_loop, best_claims_at_block,
  set_claims, or_nobody, name_of, get_user_attribution, get_user_attribution_for_block, text_is,
}
use blob_indexer_api.Attribution.Order.{claim_sort_less-IsStrictWeak}
use blob_indexer_api.Attribution.Lookup.{applies, normalized, best_claim_for_block-set_claims}

-- The name of a claim that applies and that no other one that applies precedes, or no name.
pub data IsAttributed (cs : List Claim) (a : Text) (n : ℤ) : Text → Type 0 where
  nobody : All (λ c. applies a n c ≡ false) cs → IsAttributed cs a n []
  winner :
      (c : Claim)
      → In c cs
      → applies a n c ≡ true
      → All (λ d. (applies a n d ≡ false) ⊎ (claim_sort_less d c ≡ false)) cs
      → IsAttributed cs a n c.name

IsAttributed-best :
    (cs : List Claim) (a : Text) (n : ℤ) (r : Option Claim)
    → Best claim_sort_less (applies a n) cs r
    → IsAttributed cs a n (name_of (normalized r))
unfolding normalized normalize
IsAttributed-best cs a n r (nothing h) = nobody h
IsAttributed-best cs a n r (found c i e h) = winner c i e h

pub for_block-eq_best :
    (cs : List Claim) (tip : ℤ) (address : Text) (n : ℤ)
    → pos 0 ≤ℤ n
    → get_user_attribution_for_block (set_claims cs tip) address n
      ≡ name_of (normalized (best_of claim_sort_less (applies (to_lower address) n) cs))
unfolding get_user_attribution_for_block
for_block-eq_best cs tip address n h =
    if_false _ _ (not_negative n h)
    ∙ ap name_of (best_claim_for_block-set_claims cs tip (to_lower address) n)
  where
    not_negative : (n : ℤ) → pos 0 ≤ℤ n → ltb_ℤ n (pos 0) ≡ false
    not_negative n h = ground arith

-- After the claims are set, the user of an address, in any case of letters, at a block that is not
-- negative is the one of a claim that is about the address, is valid at the block and has no other
-- such claim before it in the order of claims; and nobody where no claim of the address is valid.
pub get_user_attribution_for_block-IsAttributed :
    (cs : List Claim) (tip : ℤ) (address : Text) (n : ℤ)
    → pos 0 ≤ℤ n
    → IsAttributed cs
        (to_lower address)
        n
        (get_user_attribution_for_block (set_claims cs tip) address n)
get_user_attribution_for_block-IsAttributed cs tip address n h =
    subst (IsAttributed cs (to_lower address) n) (sym (for_block-eq_best cs tip address n h)) (
      IsAttributed-best cs (to_lower address) n _ (
        best_of-Best claim_sort_less claim_sort_less-IsStrictWeak (applies (to_lower address) n)
          cs))

-- Every address is already in lower case, as `fetchBlobListClaims` leaves it.
abbrev pub AllNormalized : List Claim → Type 0
AllNormalized = All (λ c. to_lower c.address ≡ c.address)

merge_best-better :
    (c : Claim) (old r : Option Claim)
    → merge_best claim_sort_less (some (better c old)) r
      ≡ merge_best claim_sort_less old (prefer claim_sort_less c r)
unfolding better merge_best prefer
merge_best-better c none none = refl
merge_best-better c none (some d) = refl
merge_best-better c (some b) r =
    merge_best-prefer claim_sort_less claim_sort_less-IsStrictWeak c b r

applies-eq :
    (a : Text) (n : ℤ) (c : Claim)
    → to_lower c.address ≡ c.address
    → applies a n c ≡ (text_is c.address a && matches_block c n)
unfolding applies
applies-eq a n c e = ap (λ t. text_is t a && matches_block c n) e

lookup-best_loop :
    (a : Text) (n : ℤ) (cs : List Claim) (best : List (Text × Claim))
    → AllNormalized cs
    → lookup text_discrete a (best_loop n cs best)
      ≡ merge_best claim_sort_less
          (lookup text_discrete a best)
          (best_of claim_sort_less (applies a n) cs)
unfolding best_loop best_of merge_best
lookup-best_loop a n [] best h = ground arith
lookup-best_loop a n (c ∷ cs) best h = elim (Bool-cases (matches_block c n)) [
  | inl e ↦ rw e (elim (text_discrete c.address a) [
    | yes p ↦ ground (
      arith,
      lookup-best_loop a n cs (added c best) h.1,
      lookup-insert text_discrete c.address a (better c (lookup text_discrete c.address best)) best,
      applies-eq a n c h.0,
      e,
      p,
      ap (λ t. better c (lookup text_discrete t best)) p,
      merge_best-better c (lookup text_discrete a best) (best_of claim_sort_less (applies a n) cs),
    )
    | no p ↦ ground (
      arith,
      lookup-best_loop a n cs (added c best) h.1,
      lookup-insert text_discrete c.address a (better c (lookup text_discrete c.address best)) best,
      applies-eq a n c h.0,
      p,
    )
  ])
  | inr e ↦ ground (arith, lookup-best_loop a n cs best h.1, applies-eq a n c h.0, e)
]
  where
    added : Claim → List (Text × Claim) → List (Text × Claim)
    added c best =
        insert text_discrete c.address (better c (lookup text_discrete c.address best)) best

lookup-names :
    (a : Text) (m : List (Text × Claim))
    → or_nobody (lookup text_discrete a (map (λ (k, c). (k, c.name)) m))
      ≡ name_of (lookup text_discrete a m)
unfolding lookup
lookup-names a [] = refl
lookup-names a ((k, c) ∷ m) = ground (arith, lookup-names a m)

pub name_of-normalized : (r : Option Claim) → name_of (normalized r) ≡ name_of r
unfolding normalized normalize
name_of-normalized none = refl
name_of-normalized (some c) = refl

pub lookup-best_claims_at_block :
    (cs : List Claim) (n : ℤ) (a : Text)
    → AllNormalized cs
    → lookup text_discrete a (best_claims_at_block cs n) ≡ best_of claim_sort_less (applies a n) cs
unfolding best_claims_at_block lookup merge_best
lookup-best_claims_at_block cs n a h = lookup-best_loop a n cs [] h

-- With every claim's address in lower case, the user that the map of known users holds for an
-- address, after the claims are set at a latest block that is not negative, is the user that the
-- search in the sorted claims finds for the address at that block, wherever the claims were set.
pub get_user_attribution-eq_for_block :
    (cs : List Claim) (tip n : ℤ) (address : Text)
    → AllNormalized cs
    → pos 0 ≤ℤ n
    → get_user_attribution (set_claims cs n) address
      ≡ get_user_attribution_for_block (set_claims cs tip) address n
unfolding get_user_attribution set_claims
get_user_attribution-eq_for_block cs tip n address h p =
    lookup-names (to_lower address) (best_claims_at_block cs n)
    ∙ (ap name_of (lookup-best_claims_at_block cs n (to_lower address) h)
        ∙ (sym (name_of-normalized _) ∙ sym (for_block-eq_best cs tip address n p)))
