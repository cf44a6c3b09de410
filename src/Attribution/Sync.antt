-- ===== src/Attribution/Sync.antt =====
-- The statements of the transaction `syncBlobListClaims`, over the tables of one chain. The
-- counts that are only logged are left out, and with them the guard that skips the clearing of rows
-- when no address changed, which clears none.
use blob_indexer_api.Common.{
  Bool, true, false, ◌&&◌, not, if◌then◌else◌, ◌==◌, Option, none, some, List, [], ◌∷◌, ◌++◌,
  String,
}
use blob_indexer_api.Common.Int.{ℤ, pos, negsuc, ltb_ℤ, leb_ℤ}
use blob_indexer_api.Common.Text.{Text, codes, to_lower, equal_fold}
use blob_indexer_api.Common.Sorting.{stable_sort}
use blob_indexer_api.Attribution.{Claim, text_is, eqb_ℤ, claim_score}
use blob_indexer_api.Attribution.Changes.{is_member}

-- `blobs`, `mempool_blobs` and `blob_users`. A missing attribution is NULL.
pub record BlobRow : Type 0 where
  pub from_address : Text
  pub block_number : ℤ
  pub user_attribution : Option Text

pub record PendingRow : Type 0 where
  pub from_address : Text
  pub user_attribution : Option Text

pub record UserRow : Type 0 where
  pub address : Text
  pub name : Text
  pub description : Text
  pub category : Text

pub record Tables : Type 0 where
  pub claims : List Claim
  pub blobs : List BlobRow
  pub pending : List PendingRow
  pub users : List UserRow

abbrev pub blob_list_source : Text
blob_list_source = codes "blob-list"

unfoldable pub filter : {A : Type 0} → (A → Bool) → List A → List A
filter p [] = []
filter p (x ∷ xs) = let rest = filter p xs in if p x then x ∷ rest else rest

abbrev pub is_own : Claim → Bool
is_own c = text_is c.source blob_list_source

-- COALESCE(MAX(block_number), -1) over the rows at a block
unfoldable pub current_block : List BlobRow → ℤ
current_block [] = negsuc 0
current_block (r ∷ rows) =
    let rest = current_block rows in
    if leb_ℤ (pos 0) r.block_number && ltb_ℤ rest r.block_number then r.block_number else rest

-- COALESCE(user_attribution, '')
abbrev pub shown : Option Text → Text
shown none = []
shown (some name) = name

-- SET user_attribution = name where it is distinct
abbrev pub assign : Text → Option Text → Option Text
assign name old = if text_is (shown old) name then old else some name

abbrev pub assign_blob : Text → BlobRow → BlobRow
assign_blob name r = record r { user_attribution = assign name r.user_attribution }

abbrev pub assign_pending : Text → PendingRow → PendingRow
assign_pending name r = record r { user_attribution = assign name r.user_attribution }

unfoldable pub clear_blob : List Text → BlobRow → BlobRow
unfolding is_member
clear_blob changed r = if is_member changed (to_lower r.from_address) then assign_blob [] r else r

unfoldable pub clear_pending : List Text → PendingRow → PendingRow
unfolding is_member
clear_pending changed r =
    if is_member changed (to_lower r.from_address) then assign_pending [] r else r

abbrev pub before_end : Option ℤ → ℤ → Bool
before_end none n = true
before_end (some last) n = leb_ℤ n last

-- The WHERE of both statements of `updateBlobsForClaim`.
unfoldable pub selects : Claim → BlobRow → Bool
selects c r =
    text_is (to_lower r.from_address) c.address
    && (leb_ℤ c.valid_from_block r.block_number
        && (before_end c.valid_to_block r.block_number && leb_ℤ (pos 0) r.block_number))

unfoldable pub update_blobs_for_claim : Claim → BlobRow → BlobRow
unfolding selects
update_blobs_for_claim c r = if selects c r then assign_blob c.name r else r

unfoldable pub application_less : Claim → Claim → Bool
unfolding claim_score
application_less a b =
    if not (eqb_ℤ (claim_score a) (claim_score b))
    then ltb_ℤ (claim_score a) (claim_score b)
    else ltb_ℤ a.valid_from_block b.valid_from_block

unfoldable pub sort_claims_for_application : List Claim → List Claim
unfolding application_less
sort_claims_for_application = stable_sort application_less

-- The claims whose turn it is: of a changed address and not disputed.
unfoldable pub is_applied : List Text → Claim → Bool
unfolding is_member
is_applied changed c = is_member changed c.address && not (equal_fold c.status (codes "disputed"))

-- The loop over the claims, at one row: a statement changes each row by itself.
unfoldable pub apply_claims : List Text → List Claim → BlobRow → BlobRow
unfolding is_applied update_blobs_for_claim
apply_claims changed [] r = r
apply_claims changed (c ∷ cs) r =
    apply_claims changed cs (if is_applied changed c then update_blobs_for_claim c r else r)

-- The loop over the current users for the pending rows.
unfoldable pub apply_current : List Text → List (Text × Claim) → PendingRow → PendingRow
unfolding is_member
apply_current changed [] r = r
apply_current changed ((_, c) ∷ current) r = apply_current changed current (
    if is_member changed c.address && text_is (to_lower r.from_address) c.address
    then assign_pending c.name r
    else r)

unfoldable pub labelled : String → Text → List Text
labelled label [] = []
labelled label (c ∷ t) = (codes label ++ c ∷ t) ∷ []

-- `strings.Join` with "; "
unfoldable pub join : List Text → Text
join [] = []
join (t ∷ []) = t
join (t ∷ u ∷ ts) = t ++ codes "; " ++ join (u ∷ ts)

unfoldable pub description : Claim → Text
unfolding labelled join
description c =
    codes "source="
    ++ c.source
    ++ codes "; "
    ++ join (
        (codes "entity_id=" ++ c.entity_id) ∷ labelled "role=" c.role
        ++ labelled "confidence=" c.confidence
        ++ labelled "status=" c.status)

unfoldable pub starts_with : Text → Text → Bool
starts_with text [] = true
starts_with [] (p ∷ ps) = false
starts_with (c ∷ text) (p ∷ ps) = let rest = starts_with text ps in c == p && rest

-- `blobListUserDescriptionPrefix`
abbrev pub own_prefix : Text
own_prefix = codes "source=blob-list;"
