-- ===== src/Attribution/Refresh.antt =====
-- `RefreshBlobList`: the download read by `fetchBlobListClaims`, the transaction
-- `syncBlobListClaims` and the new maps of the service. The reply of the download and whether the
-- transaction commits are arguments; a transaction that fails changes nothing.
use blob_indexer_api.Common.{
  ℕ, Bool, true, false, ◌||◌, not, if◌then◌else◌, ◌==◌, Option, none, some, List, [], ◌∷◌, ◌++◌,
  map,
}
use blob_indexer_api.Common.Int.{ℤ, pos, leb_ℤ}
use blob_indexer_api.Common.Text.{decimal, Text, codes, to_lower}
use blob_indexer_api.Attribution.{
  Claim, Service, text_is, sort_claims, best_claims_at_block, set_claims,
}
use blob_indexer_api.Attribution.Changes.{changed_claim_addresses, is_member}
use blob_indexer_api.Attribution.Sync.{
  UserRow, Tables, blob_list_source, filter, is_own, current_block, clear_blob, clear_pending,
  sort_claims_for_application, apply_claims, apply_current, description, starts_with, own_prefix,
}

-- DELETE FROM blob_users: the rows that the registry wrote and that are not current.
unfoldable pub delete_stale_users : List Text → List UserRow → List UserRow
unfolding filter starts_with is_member
delete_stale_users current =
    filter (λ u. not (starts_with u.description own_prefix) || is_member current u.address)

unfoldable pub user_of : Claim → UserRow
unfolding description
user_of c = record {
  address = c.address;
  name = c.name;
  description = description c;
  category = c.category;
}

-- INSERT INTO blob_users ... ON CONFLICT DO UPDATE
unfoldable pub upsert_user : UserRow → List UserRow → List UserRow
upsert_user u [] = u ∷ []
upsert_user u (v ∷ us) =
    let rest = upsert_user u us in if text_is v.address u.address then u ∷ us else v ∷ rest

unfoldable pub upsert_users : List (Text × Claim) → List UserRow → List UserRow
unfolding upsert_user user_of
upsert_users [] us = us
upsert_users ((_, c) ∷ current) us = upsert_users current (upsert_user (user_of c) us)

unfoldable pub sync_users : List (Text × Claim) → ℤ → List UserRow → List UserRow
unfolding delete_stale_users upsert_users
sync_users current tip us = upsert_users current (
    if leb_ℤ (pos 0) tip then delete_stale_users (map (λ (address, _). address) current) us else us)

unfoldable pub sync_blob_list_claims : List Claim → Tables → Tables
unfolding filter current_block clear_blob clear_pending sort_claims_for_application apply_claims
    apply_current sync_users changed_claim_addresses best_claims_at_block
sync_blob_list_claims cs t =
    let previous = filter is_own t.claims in
    let tip = current_block t.blobs in
    let current = best_claims_at_block cs tip in
    let changed = changed_claim_addresses previous cs in
    record {
      claims = filter (λ c. not (is_own c)) t.claims ++ cs;
      users = sync_users current tip t.users;
      blobs =
          map (apply_claims changed (sort_claims_for_application cs))
            (map (clear_blob changed) t.blobs);
      pending = map (apply_current changed current) (map (clear_pending changed) t.pending);
    }

-- The decoded artifact.
pub record Entry : Type 0 where
  pub entity_id : Text
  pub name : Text
  pub category : Text
  pub role : Text
  pub confidence : Text
  pub status : Text
  pub valid_from_block : ℤ
  pub valid_to_block : Option ℤ

pub record Artifact : Type 0 where
  pub schema_version : ℕ
  pub submission_chain : Text
  pub addresses : List (Text × List Entry)

-- The reply of the server: no artifact for the chain, an error, or a decoded artifact.
pub data Reply : Type 0 where
  not_found failed : Reply
  decoded : Artifact → Reply

pub data Fetched : Type 0 where
  no_artifact fetch_error : Fetched
  claims : List Claim → Fetched

unfoldable pub expected_chain : ℕ → Text
unfolding decimal
expected_chain network = codes "eip155-" ++ decimal network

abbrev is_empty : Text → Bool
is_empty [] = true
is_empty (_ ∷ _) = false

abbrev pub skipped : Entry → Bool
skipped e = is_empty e.name || is_empty e.entity_id

abbrev pub entry_claim : ℕ → Text → Entry → Claim
entry_claim network address e = record {
  chain_id = network;
  source = blob_list_source;
  address = to_lower address;
  entity_id = e.entity_id;
  name = e.name;
  category = e.category;
  role = e.role;
  confidence = e.confidence;
  status = e.status;
  valid_from_block = e.valid_from_block;
  valid_to_block = e.valid_to_block;
}

unfoldable pub entry_claims : ℕ → Text → List Entry → List Claim
entry_claims network address [] = []
entry_claims network address (e ∷ es) =
    let rest = entry_claims network address es in
    if skipped e then rest else entry_claim network address e ∷ rest

unfoldable pub artifact_claims : ℕ → List (Text × List Entry) → List Claim
unfolding entry_claims
artifact_claims network [] = []
artifact_claims network ((address, es) ∷ rest) =
    entry_claims network address es ++ artifact_claims network rest

unfoldable pub fetch_blob_list_claims : ℕ → Reply → Fetched
unfolding artifact_claims expected_chain sort_claims
fetch_blob_list_claims network not_found = no_artifact
fetch_blob_list_claims network failed = fetch_error
fetch_blob_list_claims network (decoded a) =
    if not (a.schema_version == 1)
    then fetch_error
    else if not (text_is a.submission_chain (expected_chain network))
    then fetch_error
    else claims (sort_claims (artifact_claims network a.addresses))

-- The database, if the service has one, and the maps that it answers from.
pub record State : Type 0 where
  pub tables : Option Tables
  pub service : Service

-- With the claims in hand. The transaction sorts the claims in place for their application, so the
-- service takes them in that order; without a database its latest block is 0.
unfoldable pub with_claims : Bool → List Claim → State → State
unfolding sync_blob_list_claims set_claims sort_claims_for_application current_block
with_claims committed cs s = elim s.tables [
  | none ↦ record s { service = set_claims cs (pos 0) }
  | some t ↦
      if committed
      then record {
        tables = some (sync_blob_list_claims cs t);
        service = set_claims (sort_claims_for_application cs) (current_block t.blobs);
      }
      else s
]

unfoldable pub with_fetched : Bool → Fetched → State → State
unfolding with_claims
with_fetched committed no_artifact s = s
with_fetched committed fetch_error s = s
with_fetched committed (claims cs) s = with_claims committed cs s

unfoldable pub refresh_blob_list : ℕ → Bool → Reply → Bool → State → State
unfolding fetch_blob_list_claims with_fetched
refresh_blob_list network enabled reply committed s =
    if enabled then with_fetched committed (fetch_blob_list_claims network reply) s else s
