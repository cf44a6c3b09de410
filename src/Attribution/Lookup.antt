-- ===== src/Attribution/Lookup.antt =====
-- The service's two answers: the claims of an address at a block, searched in their sorted list, and
-- the users known at the latest block.
use blob_indexer_api.Common.{
  ◌≡◌, refl, ◌∙◌, ap, inl, inr, Bool, ◌&&◌, Option, none, some, List, [], ◌∷◌, arith, Option-cases,
}
use blob_indexer_api.Common.Int.{ℤ}
use blob_indexer_api.Common.Maps.{lookup}
use blob_indexer_api.Common.Text.{Text, text_discrete, to_lower}
use blob_indexer_api.Common.Sorting.{find, prefer, best_of, find-stable_sort}
use blob_indexer_api.Attribution.{
  Claim, matches_block, claim_sort_less, sort_claims, or_empty, normalize, group, claims_by_address,
  set_claims, best_claim_for_block, claim_score, text_is,
}
use blob_indexer_api.Attribution.Groups.{those, lookup-group, lookup-sorted}
use blob_indexer_api.Attribution.Order.{claim_sort_less-IsStrictWeak}

-- The claim is about the address and valid at the block.
unfoldable pub applies : Text → ℤ → Claim → Bool
applies a n c = text_is (to_lower c.address) a && matches_block c n

unfoldable pub normalized : Option Claim → Option Claim
normalized none = none
normalized (some c) = some (normalize c)

less-normalize : (c d : Claim) → claim_sort_less (normalize c) (normalize d) ≡ claim_sort_less c d
unfolding claim_sort_less normalize claim_score
less-normalize c d = refl

matches_block-normalize : (c : Claim) (n : ℤ) → matches_block (normalize c) n ≡ matches_block c n
unfolding matches_block normalize
matches_block-normalize c n = refl

best_of-those :
    (a : Text) (n : ℤ) (cs : List Claim)
    → best_of claim_sort_less (λ c. matches_block c n) (those a cs)
      ≡ normalized (best_of claim_sort_less (applies a n) cs)
unfolding best_of those applies normalized normalize prefer
best_of-those a n [] = refl
best_of-those a n (c ∷ cs) = elim (Option-cases (best_of claim_sort_less (applies a n) cs)) [
  | inl e ↦ ground (arith, best_of-those a n cs, e, matches_block-normalize c n)
  | inr (d, e) ↦
      ground (arith, best_of-those a n cs, e, matches_block-normalize c n, less-normalize d c)
]

-- The claim that the service finds for an address and a block is the best of those that apply.
pub best_claim_for_block-set_claims :
    (cs : List Claim) (tip : ℤ) (a : Text) (n : ℤ)
    → best_claim_for_block (set_claims cs tip) a n
      ≡ normalized (best_of claim_sort_less (applies a n) cs)
unfolding best_claim_for_block set_claims claims_by_address sort_claims lookup
best_claim_for_block-set_claims cs tip a n =
    ap (find (λ c. matches_block c n)) (lookup-sorted a (group cs []))
    ∙ (find-stable_sort claim_sort_less claim_sort_less-IsStrictWeak (λ c. matches_block c n)
          (or_empty (lookup text_discrete a (group cs [])))
        ∙ (ap (best_of claim_sort_less (λ c. matches_block c n)) (lookup-group a cs [])
            ∙ best_of-those a n cs))
