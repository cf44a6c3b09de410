-- ===== src/Attribution/Tests.antt =====
-- Two claims of one address, and rows of it.
use blob_indexer_api.Common.{
  ◌≡◌, refl, inl, inr, true, if◌then◌else◌, List, [], ◌∷◌, Option, none, some, arith, ◌↔◌, ◌≢◌, map,
  sym, subst, ℕ_discrete,
}
use mathlib.Core.Bool.{xor}
use blob_indexer_api.Common.Int.{ℤ, pos, leb_ℤ}
use blob_indexer_api.Common.Maps.{lookup, insert}
use blob_indexer_api.Common.Text.{
  Text, codes, text_discrete, to_lower, ltb_text, equal_fold, lower_char,
}
use blob_indexer_api.Common.Sorting.{Ordered, stable_sort, insert_by}
use blob_indexer_api.Attribution.{
  Claim, best_claims_at_block, set_claims, get_user_attribution, get_user_attribution_for_block,
  claim_score, sort_claims,
}
use blob_indexer_api.Attribution.Winner.{
  IsAttributed, get_user_attribution_for_block-IsAttributed, AllNormalized,
  get_user_attribution-eq_for_block,
}
use blob_indexer_api.Attribution.Changes.{
  changed_claim_addresses, changed_claim_addresses_iff, is_member, claims_of,
}
use blob_indexer_api.Attribution.Sync.{BlobRow, Tables, UserRow, shown, filter, current_block}
use blob_indexer_api.Attribution.Refresh.{
  Entry, entry_claim, artifact_claims, sync_blob_list_claims, sync_users,
}
use blob_indexer_api.Attribution.Consistent.{NoTies, RowsAgree}
use blob_indexer_api.Attribution.Preserved.{sync_blob_list_claims-RowsAgree}
use blob_indexer_api.Attribution.Users.{user_at, projected}
use blob_indexer_api.Attribution.Projection.{by_hand, sync_users_lem}

abbrev entry : Text → Text → ℤ → Option ℤ → Entry
entry name confidence from last = record {
  entity_id = codes "e";
  name = name;
  category = [];
  role = [];
  confidence = confidence;
  status = codes "active";
  valid_from_block = from;
  valid_to_block = last;
}

abbrev entries : List (Text × List Entry)
entries =
    (
      codes "0xA",
      entry (codes "Old") (codes "possible") (pos 10) (some (pos 20))
          ∷ entry (codes "Base") (codes "confirmed") (pos 15) none
          ∷ [],
    )
    ∷ []

abbrev two_claims : List Claim
two_claims =
    entry_claim 1 (codes "0xA") (entry (codes "Base") (codes "confirmed") (pos 15) none)
    ∷ entry_claim 1 (codes "0xA") (entry (codes "Old") (codes "possible") (pos 10) (some (pos 20)))
    ∷ []

before_base :
    get_user_attribution_for_block (set_claims two_claims (pos 30)) (codes "0xA") (pos 12)
    ≡ codes "Old"
unfolding get_user_attribution_for_block set_claims text_discrete equal_fold to_lower lookup
    claim_score stable_sort insert ℕ_discrete lower_char insert_by
before_base = refl

get_user_attribution_for_block-IsAttributed_example :
    IsAttributed two_claims
      (to_lower (codes "0xA"))
      (pos 12)
      (get_user_attribution_for_block (set_claims two_claims (pos 30)) (codes "0xA") (pos 12))
get_user_attribution_for_block-IsAttributed_example =
    get_user_attribution_for_block-IsAttributed two_claims (pos 30) (codes "0xA") (pos 12)
      (omega arith)

two_claims-AllNormalized : AllNormalized two_claims
unfolding to_lower lower_char
two_claims-AllNormalized = (refl, (refl, tt))

get_user_attribution-eq_for_block_example :
    get_user_attribution (set_claims two_claims (pos 18)) (codes "0xA")
    ≡ get_user_attribution_for_block (set_claims two_claims (pos 30)) (codes "0xA") (pos 18)
get_user_attribution-eq_for_block_example =
    get_user_attribution-eq_for_block two_claims (pos 30) (pos 18) (codes "0xA")
      two_claims-AllNormalized (omega arith)

changed_claim_addresses_iff_example :
    ((a : Text)
      → (is_member (changed_claim_addresses [] two_claims) a ≡ true)
        ↔ (claims_of [] a ≢ claims_of two_claims a))
    × Ordered ltb_text (changed_claim_addresses [] two_claims)
changed_claim_addresses_iff_example = changed_claim_addresses_iff [] two_claims

abbrev manual : UserRow
manual = record {
  address = codes "0xb";
  name = codes "Me";
  description = codes "by hand";
  category = [];
}

sync_users_example :
    user_at
      (codes "0xb")
      (sync_users (best_claims_at_block two_claims (pos 18)) (pos 18) (manual ∷ []))
    ≡ projected (lookup text_discrete (codes "0xb") (best_claims_at_block two_claims (pos 18))) (
        if leb_ℤ (pos 0) (pos 18)
        then by_hand (user_at (codes "0xb") (manual ∷ []))
        else user_at (codes "0xb") (manual ∷ []))
sync_users_example =
    sync_users_lem two_claims (pos 18) (manual ∷ []) (codes "0xb") (unfold user_at in (refl, tt))

abbrev row : BlobRow
row = record { from_address = codes "0xA"; block_number = pos 12; user_attribution = none }

abbrev tables : Tables
tables = record { claims = []; blobs = row ∷ []; pending = []; users = [] }

tables-RowsAgree : RowsAgree tables
unfolding get_user_attribution_for_block set_claims filter current_block lookup
tables-RowsAgree = (inr refl, tt)

sorted_entries : sort_claims (artifact_claims 1 entries) ≡ two_claims
unfolding sort_claims artifact_claims stable_sort claim_score text_discrete to_lower insert_by
    ℕ_discrete lower_char
sorted_entries = refl

two_claims-NoTies : NoTies two_claims (to_lower row.from_address) (pos 12)
two_claims-NoTies = (
  (inr (inr (inr (inr refl))), (inr (inr (inr (inl (ground arith)))), tt)),
  ((inr (inr (inr (inl (ground arith)))), (inr (inr (inr (inr refl))), tt)), tt),
)

sync_blob_list_claims-RowsAgree_example :
    RowsAgree (sync_blob_list_claims (sort_claims (artifact_claims 1 entries)) tables)
sync_blob_list_claims-RowsAgree_example =
    sync_blob_list_claims-RowsAgree 1 entries tables
      (
        subst (λ cs. NoTies cs (to_lower row.from_address) (pos 12)) (sym sorted_entries)
            two_claims-NoTies,
        tt,
      )
      tables-RowsAgree

-- Two claims with the same score and first block, one open-ended: the service names the open-ended
-- one and the row of the same block shows the other.
abbrev tied : List Claim
tied =
    entry_claim 1 (codes "0xA") (entry (codes "B") (codes "confirmed") (pos 10) (some (pos 20)))
    ∷ entry_claim 1 (codes "0xA") (entry (codes "A") (codes "confirmed") (pos 10) none)
    ∷ []

tie_service :
    get_user_attribution_for_block (set_claims (sort_claims tied) (pos 12)) (codes "0xA") (pos 12)
    ≡ codes "A"
unfolding get_user_attribution_for_block set_claims text_discrete equal_fold to_lower lookup
    claim_score stable_sort insert ℕ_discrete lower_char insert_by sort_claims xor
tie_service = refl

tie_row :
    map (λ r. shown r.user_attribution) (sync_blob_list_claims (sort_claims tied) tables).blobs
    ≡ codes "B" ∷ []
unfolding sync_blob_list_claims text_discrete equal_fold to_lower lookup claim_score stable_sort
    insert ℕ_discrete lower_char insert_by sort_claims changed_claim_addresses xor
tie_row = refl
