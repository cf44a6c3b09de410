-- ===== src/Attribution/Groups.antt =====
-- The groups of `claimsByAddress`, internal/attribution/blob_list.go: the claims of each address.
use blob_indexer_api.Common.{
  ◌≡◌, refl, sym, ◌∙◌, ap, if◌then◌else◌, List, [], ◌∷◌, ◌++◌, map, arith,
}
use blob_indexer_api.Common.Maps.{lookup, insert, lookup-insert}
use blob_indexer_api.Common.Text.{Text, text_discrete, to_lower}
use blob_indexer_api.Common.Sorting.{stable_sort}
use blob_indexer_api.Attribution.{
  Claim, claim_sort_less, sort_claims, ClaimMap, or_empty, normalize, group, claims_by_address,
  text_is,
}

-- The claims of one address, in their order, with their address in lower case.
unfoldable pub those : Text → List Claim → List Claim
those a [] = []
those a (c ∷ cs) =
    if text_is (to_lower c.address) a
    then record c { address = to_lower c.address } ∷ those a cs
    else those a cs

append_nil : (cs : List Claim) → cs ++ [] ≡ cs
append_nil [] = refl
append_nil (c ∷ cs) = ap (◌∷◌ c) (append_nil cs)

append_one : (xs : List Claim) (c : Claim) (ys : List Claim) → (xs ++ c ∷ []) ++ ys ≡ xs ++ c ∷ ys
append_one [] c ys = refl
append_one (x ∷ xs) c ys = ap (◌∷◌ x) (append_one xs c ys)

pub lookup-group :
    (a : Text) (cs : List Claim) (m : ClaimMap)
    → or_empty (lookup text_discrete a (group cs m))
      ≡ or_empty (lookup text_discrete a m) ++ those a cs
unfolding group those normalize
lookup-group a [] m = sym (append_nil (or_empty (lookup text_discrete a m)))
lookup-group a (c ∷ cs) m = elim (text_discrete (to_lower c.address) a) [
  | yes p ↦ ground (
    arith,
    lookup-group a cs (added c m),
    lookup-insert text_discrete (to_lower c.address) a (old c m ++ normalize c ∷ []) m,
    append_one (old c m) (normalize c) (those a cs),
    ap (λ k. or_empty (lookup text_discrete k m)) p,
  )
  | no p ↦ ground (
    arith,
    lookup-group a cs (added c m),
    lookup-insert text_discrete (to_lower c.address) a (old c m ++ normalize c ∷ []) m,
  )
]
  where
    old : Claim → ClaimMap → List Claim
    old c m = or_empty (lookup text_discrete (to_lower c.address) m)

    added : Claim → ClaimMap → ClaimMap
    added c m = insert text_discrete (to_lower c.address) (old c m ++ normalize c ∷ []) m

pub lookup-sorted :
    (a : Text) (m : ClaimMap)
    → or_empty (lookup text_discrete a (map (λ (k, g). (k, sort_claims g)) m))
      ≡ sort_claims (or_empty (lookup text_discrete a m))
unfolding lookup sort_claims stable_sort
lookup-sorted a [] = refl
lookup-sorted a ((k, g) ∷ m) = ground (arith, lookup-sorted a m)

-- The claims that an artifact has for an address, in the order of the artifact, as the map has them.
pub claims_by_address-those :
    (a : Text) (cs : List Claim)
    → or_empty (lookup text_discrete a (claims_by_address cs))
      ≡ stable_sort claim_sort_less (those a cs)
unfolding claims_by_address sort_claims lookup
claims_by_address-those a cs =
    lookup-sorted a (group cs []) ∙ ap (stable_sort claim_sort_less) (lookup-group a cs [])
