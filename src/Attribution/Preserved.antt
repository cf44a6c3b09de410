-- ===== src/Attribution/Preserved.antt =====
-- A refresh keeps the rows of `blobs` in agreement with the service.
use blob_indexer_api.Common.{
  ℕ, ◌≡◌, refl, Bool, true, false, not, List, [], ◌∷◌, ◌++◌, map, arith, All, All-append, All-map,
  if◌then◌else◌,
}
use blob_indexer_api.Common.Int.{ℤ}
use blob_indexer_api.Common.Text.{Text, to_lower, to_lower_idem}
use blob_indexer_api.Common.Sorting.{All-stable_sort}
use blob_indexer_api.Attribution.{Claim, text_is, claim_sort_less, sort_claims}
use blob_indexer_api.Attribution.Order.{claim_sort_less-IsStrictWeak}
use blob_indexer_api.Attribution.Changes.{changed_claim_addresses}
use blob_indexer_api.Attribution.Sync.{
  BlobRow, Tables, filter, is_own, current_block, blob_list_source, apply_claims, clear_blob,
  sort_claims_for_application,
}
use blob_indexer_api.Attribution.Refresh.{
  Entry, skipped, entry_claim, entry_claims, artifact_claims, sync_blob_list_claims,
}
use blob_indexer_api.Attribution.Consistent.{NoTies, RowAgrees, RowsAgree, sync_row, row-RowAgrees}

-- A claim as the download makes it: its address in lower case, its source the registry.
abbrev pub IsFetched : Claim → Type 0
IsFetched c = (to_lower c.address ≡ c.address) × (is_own c ≡ true)

All-if :
    (b : Bool) (xs ys : List Claim)
    → All IsFetched xs
    → All IsFetched ys
    → All IsFetched (if b then xs else ys)
All-if true xs ys h k = h
All-if false xs ys h k = k

own_source : text_is blob_list_source blob_list_source ≡ true
own_source = ground arith

All-entry_claims :
    (network : ℕ) (address : Text) (es : List Entry)
    → All IsFetched (entry_claims network address es)
unfolding entry_claims
All-entry_claims network address [] = tt
All-entry_claims network address (e ∷ es) =
    let rest = All-entry_claims network address es in
    All-if (skipped e) (entry_claims network address es)
      (entry_claim network address e ∷ entry_claims network address es) rest
      ((to_lower_idem address, own_source), rest)

All-artifact_claims :
    (network : ℕ) (m : List (Text × List Entry)) → All IsFetched (artifact_claims network m)
unfolding artifact_claims
All-artifact_claims network [] = tt
All-artifact_claims network ((address, es) ∷ m) =
    All-append IsFetched (entry_claims network address es) (artifact_claims network m)
      (All-entry_claims network address es) (All-artifact_claims network m)

pub sort_claims-IsFetched :
    (network : ℕ) (m : List (Text × List Entry))
    → All IsFetched (sort_claims (artifact_claims network m))
unfolding sort_claims
sort_claims-IsFetched network m =
    All-stable_sort claim_sort_less claim_sort_less-IsStrictWeak IsFetched
      (artifact_claims network m) (All-artifact_claims network m)

filter-own : (cs : List Claim) → All IsFetched cs → filter is_own cs ≡ cs
unfolding filter
filter-own [] h = refl
filter-own (c ∷ cs) h = ground (arith, filter-own cs h.1)

filter-others :
    (l cs : List Claim) → filter is_own (filter (λ c. not (is_own c)) l ++ cs) ≡ filter is_own cs
unfolding filter
filter-others [] cs = refl
filter-others (c ∷ l) cs = ground (arith, filter-others l cs)

rows-RowAgrees :
    (previous cs : List Claim) (tip tip' : ℤ) (rows : List BlobRow)
    → All IsFetched cs
    → All (λ r. NoTies cs (to_lower r.from_address) r.block_number) rows
    → All (RowAgrees previous tip) rows
    → All (RowAgrees cs tip') (
        map
          (apply_claims (changed_claim_addresses previous cs) (sort_claims_for_application cs))
          (map (clear_blob (changed_claim_addresses previous cs)) rows))
unfolding sync_row
rows-RowAgrees previous cs tip tip' [] f ties h = tt
rows-RowAgrees previous cs tip tip' (r ∷ rows) f ties h = (
  row-RowAgrees previous cs tip tip' r (All-map _ _ (λ c (e, e'). e) cs f) ties.0 h.0,
  rows-RowAgrees previous cs tip tip' rows f ties.1 h.1,
)

-- A synchronization with the claims of an artifact keeps it true that each row of `blobs` at a block
-- that is not negative shows whom the service, set to the stored claims, names for the row's address
-- and block; provided that no two of the artifact's claims that apply to one row are tied in score
-- and first block under different names.
pub sync_blob_list_claims-RowsAgree :
    (network : ℕ) (entries : List (Text × List Entry)) (t : Tables)
    → All
        (λ r.
          NoTies
            (sort_claims (artifact_claims network entries))
            (to_lower r.from_address)
            r.block_number)
        t.blobs
    → RowsAgree t
    → RowsAgree (sync_blob_list_claims (sort_claims (artifact_claims network entries)) t)
unfolding sync_blob_list_claims
sync_blob_list_claims-RowsAgree network entries t ties h =
    let cs = sort_claims (artifact_claims network entries) in
    let f : All IsFetched cs = sort_claims-IsFetched network entries in
    rw (filter-others t.claims cs, filter-own cs f)
      (rows-RowAgrees (filter is_own t.claims) cs (current_block t.blobs) _ t.blobs f ties h)
