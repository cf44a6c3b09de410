-- ===== src/Attribution.antt =====
-- Attribution of blobs to known users, internal/attribution/blob_list.go and attribution.go: the
-- claims of the blob-list, which of them is valid at a block, their order, and the two maps that
-- the service answers from.
pub mod Order
pub mod Groups
pub mod Lookup
pub mod Winner
pub mod Changes
pub mod Sync
pub mod Refresh
pub mod Reapply
pub mod Consistent
pub mod Preserved
pub mod Users
pub mod Projection
mod Tests
use blob_indexer_api.Common.{
  ℕ, ◌+◌, ◌≡◌, Bool, true, false, ◌&&◌, not, if◌then◌else◌, is_some, Option, none, some, List, [],
  ◌∷◌, ◌++◌, map,
}
use mathlib.Core.Bool.{xor}
use blob_indexer_api.Common.Int.{ℤ, pos, negsuc, ltb_ℤ, leb_ℤ, ◌+ℤ◌}
use blob_indexer_api.Common.Maps.{lookup, insert}
use blob_indexer_api.Common.Text.{Text, codes, text_discrete, ltb_text, to_lower, equal_fold}
use blob_indexer_api.Common.Sorting.{stable_sort, find}
pub use blob_indexer_api.Common.Text.{text_is}

pub record Claim : Type 0 where
  pub chain_id : ℕ
  pub source : Text
  pub address : Text
  pub entity_id : Text
  pub name : Text
  pub category : Text
  pub role : Text
  pub confidence : Text
  pub status : Text
  pub valid_from_block : ℤ
  pub valid_to_block : Option ℤ

abbrev pub eqb_ℤ : ℤ → ℤ → Bool
eqb_ℤ a b = leb_ℤ a b && leb_ℤ b a

-- The block is behind the last valid one.
abbrev expired : Option ℤ → ℤ → Bool
expired none n = false
expired (some last) n = ltb_ℤ last n

-- A negative block number asks for what is valid now.
unfoldable pub matches_block : Claim → ℤ → Bool
matches_block claim n =
    if equal_fold claim.status (codes "disputed")
    then false
    else if ltb_ℤ n (pos 0)
    then equal_fold claim.status (codes "active")
      && (not (is_some claim.valid_to_block) && leb_ℤ claim.valid_from_block (pos 0))
    else if ltb_ℤ n claim.valid_from_block
    then false
    else not (expired claim.valid_to_block n)

status_score : Text → ℤ
status_score s =
    if text_is s (codes "active")
    then pos 100
    else if text_is s (codes "disputed")
    then negsuc 99
    else pos 0

confidence_score : Text → ℤ
confidence_score s =
    if text_is s (codes "confirmed")
    then pos 30
    else if text_is s (codes "probable")
    then pos 20
    else if text_is s (codes "possible")
    then pos 10
    else pos 0

unfoldable pub claim_score : Claim → ℤ
unfolding status_score confidence_score
claim_score claim =
    status_score (to_lower claim.status) +ℤ confidence_score (to_lower claim.confidence)

-- The comparison by score, first block, open end and name.
pub less_by : ℤ → ℤ → ℤ → ℤ → Bool → Bool → Bool → Bool
less_by score score' from from' bounded bounded' name_less =
    if not (eqb_ℤ score score')
    then ltb_ℤ score' score
    else if not (eqb_ℤ from from')
    then ltb_ℤ from' from
    else if xor bounded bounded'
    then not bounded
    else name_less

unfoldable pub claim_sort_less : Claim → Claim → Bool
unfolding less_by
claim_sort_less a b =
    less_by (claim_score a) (claim_score b) a.valid_from_block b.valid_from_block
      (is_some a.valid_to_block) (is_some b.valid_to_block) (ltb_text a.name b.name)

unfoldable pub sort_claims : List Claim → List Claim
unfolding claim_sort_less
sort_claims = stable_sort claim_sort_less

abbrev pub ClaimMap : Type 0
ClaimMap = List (Text × List Claim)

abbrev pub or_empty : Option (List Claim) → List Claim
or_empty none = []
or_empty (some cs) = cs

unfoldable pub normalize : Claim → Claim
normalize claim = record claim { address = to_lower claim.address }

-- The first loop of `claimsByAddress` and of `setClaims`.
unfoldable pub group : List Claim → ClaimMap → ClaimMap
unfolding normalize
group [] m = m
group (c ∷ cs) m =
    let address = to_lower c.address in
    group cs (
      insert text_discrete address (or_empty (lookup text_discrete address m) ++ normalize c ∷ [])
        m)

unfoldable pub claims_by_address : List Claim → ClaimMap
unfolding group sort_claims
claims_by_address cs = map (λ (address, group). (address, sort_claims group)) (group cs [])

unfoldable pub better : Claim → Option Claim → Claim
unfolding claim_sort_less
better c none = c
better c (some old) = if claim_sort_less c old then c else old

-- The loop of `bestClaimsAtBlock`.
unfoldable pub best_loop : ℤ → List Claim → List (Text × Claim) → List (Text × Claim)
unfolding matches_block better
best_loop n [] best = best
best_loop n (c ∷ cs) best = best_loop n cs (
    if matches_block c n
    then insert text_discrete c.address (better c (lookup text_discrete c.address best)) best
    else best)

unfoldable pub best_claims_at_block : List Claim → ℤ → List (Text × Claim)
unfolding best_loop
best_claims_at_block cs n = best_loop n cs []

pub record Service : Type 0 where
  pub known_users : List (Text × Text)
  pub claims_by_addr : ClaimMap

unfoldable pub set_claims : List Claim → ℤ → Service
unfolding claims_by_address best_claims_at_block
set_claims cs tip = record {
  known_users = map (λ (address, c). (address, c.name)) (best_claims_at_block cs tip);
  claims_by_addr = claims_by_address cs;
}

unfoldable pub best_claim_for_block : Service → Text → ℤ → Option Claim
unfolding matches_block find
best_claim_for_block s address n =
    find (λ c. matches_block c n) (or_empty (lookup text_discrete address s.claims_by_addr))

abbrev pub or_nobody : Option Text → Text
or_nobody none = []
or_nobody (some name) = name

abbrev pub name_of : Option Claim → Text
name_of none = []
name_of (some c) = c.name

unfoldable pub get_user_attribution : Service → Text → Text
get_user_attribution s address = or_nobody (lookup text_discrete (to_lower address) s.known_users)

unfoldable pub get_user_attribution_for_block : Service → Text → ℤ → Text
unfolding get_user_attribution best_claim_for_block
get_user_attribution_for_block s address n =
    if ltb_ℤ n (pos 0)
    then get_user_attribution s address
    else name_of (best_claim_for_block s (to_lower address) n)
