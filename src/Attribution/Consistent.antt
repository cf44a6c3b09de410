-- ===== src/Attribution/Consistent.antt =====
-- The rows of `blobs` and the service agree: what each row shows is whom the service names for its
-- address and its block, and a synchronization keeps it so.
use blob_indexer_api.Common.{
  if_false, ◌≡◌, ◌≢◌, refl, sym, ◌∙◌, ap, ◌⊎◌, inl, inr, Bool, true, false, Option, List, [], arith,
  All, All-map, All-In, Bool-cases,
}
use blob_indexer_api.Common.Int.{ℤ, pos, ◌≤ℤ◌, ltb_ℤ}
use blob_indexer_api.Common.Text.{Text, to_lower}
use blob_indexer_api.Common.Sorting.{
  best_of, Best, best_of-Best, stable_sort, stable_sort-Ordered, find,
}
use blob_indexer_api.Common.Latest.{
  find_last, Latest, find_last-Latest, In-of_stable_sort, In-stable_sort,
}
use blob_indexer_api.Attribution.{
  Claim, claim_sort_less, claim_score, set_claims, get_user_attribution_for_block, name_of,
  best_claim_for_block, matches_block,
}
use blob_indexer_api.Attribution.Order.{
  claim_sort_less-IsStrictWeak, application_less-IsStrictWeak, same-rank,
}
use blob_indexer_api.Attribution.Lookup.{applies}
use blob_indexer_api.Attribution.Winner.{AllNormalized, name_of-normalized, for_block-eq_best}
use blob_indexer_api.Attribution.Groups.{claims_by_address-those}
use blob_indexer_api.Attribution.Changes.{
  changed_claim_addresses, is_member, is_member-changed, claims_of, same_claims_iff,
}
use blob_indexer_api.Attribution.Sync.{
  BlobRow, Tables, shown, clear_blob, assign_blob, filter, is_own, current_block, application_less,
  sort_claims_for_application, apply_claims,
}
use blob_indexer_api.Attribution.Reapply.{
  reaches, name_or, shown-apply_claims, shown-assign, reaches-eq_applies, apply_claims-other,
  apply_claims-keeps,
}

-- Of two claims that apply at the same place, the score, the first block or nothing but the name is
-- the same.
abbrev pub Untied : Text → ℤ → Claim → Claim → Type 0
Untied a n c d =
    (applies a n c ≡ false)
    ⊎ ((applies a n d ≡ false)
        ⊎ ((claim_score c ≢ claim_score d)
            ⊎ ((c.valid_from_block ≢ d.valid_from_block) ⊎ (c.name ≡ d.name))))

abbrev pub NoTies : List Claim → Text → ℤ → Type 0
NoTies cs a n = All (λ c. All (λ d. Untied a n c d) cs) cs

module _ (cs : List Claim) (a : Text) (n : ℤ) (p : Claim → Bool)
    (same : All (λ c. p c ≡ applies a n c) cs) (no_ties : NoTies cs a n) where
  names-eq :
      (o o' : Option Claim)
      → Latest application_less p (sort_claims_for_application cs) o
      → Best claim_sort_less (applies a n) cs o'
      → name_or [] o ≡ name_of o'
  unfolding sort_claims_for_application
  names-eq o o' (Latest.nothing h) (Best.nothing k) = refl
  names-eq o o' (Latest.nothing h) (Best.found w i e k) = absurd (
      ground (
        arith,
        All-In (λ c. p c ≡ false) (stable_sort application_less cs) w h
            (In-stable_sort application_less w cs i),
        All-In (λ c. p c ≡ applies a n c) cs w same i,
        e,
      ))
  names-eq o o' (Latest.found l i e h) (Best.nothing k) =
      let there = In-of_stable_sort application_less l cs i in
      absurd (
        ground (
          arith,
          All-In (λ c. applies a n c ≡ false) cs l k there,
          All-In (λ c. p c ≡ applies a n c) cs l same there,
          e,
        ))
  names-eq o o' (Latest.found l i e h) (Best.found w j f k) =
      let there = In-of_stable_sort application_less l cs i in
      let q : p l ≡ applies a n l = All-In (λ c. p c ≡ applies a n c) cs l same there in
      let q' : p w ≡ applies a n w = All-In (λ c. p c ≡ applies a n c) cs w same j in
      let front : (applies a n l ≡ false) ⊎ (claim_sort_less l w ≡ false) =
        All-In (λ y. (applies a n y ≡ false) ⊎ (claim_sort_less y w ≡ false)) cs l k there in
      let back : (p w ≡ false) ⊎ (application_less l w ≡ false) =
        All-In (λ y. (p y ≡ false) ⊎ (application_less l y ≡ false))
          (stable_sort application_less cs) w h (In-stable_sort application_less w cs j) in
      let untied : Untied a n l w =
        All-In (λ d. Untied a n l d) cs w
          (All-In (λ c. All (λ d. Untied a n c d) cs) cs l no_ties there) j in
      ground (arith, e, f, q, q', front, back, untied, same-rank l w)

  -- Without ties the claim that is applied last has the name of the best claim.
  name_of_last :
      name_or [] (find_last p (sort_claims_for_application cs))
      ≡ name_of (best_of claim_sort_less (applies a n) cs)
  name_of_last =
      names-eq _ _
        (find_last-Latest application_less application_less-IsStrictWeak p
          (sort_claims_for_application cs)
          (unfold sort_claims_for_application in
            stable_sort-Ordered application_less application_less-IsStrictWeak cs))
        (best_of-Best claim_sort_less claim_sort_less-IsStrictWeak (applies a n) cs)

unfoldable pub sync_row : List Text → List Claim → BlobRow → BlobRow
sync_row changed cs r = apply_claims changed (sort_claims_for_application cs) (clear_blob changed r)

-- A row of a changed address shows the name of the best claim.
changed_row :
    (changed : List Text) (cs : List Claim) (r : BlobRow)
    → is_member changed (to_lower r.from_address) ≡ true
    → pos 0 ≤ℤ r.block_number
    → AllNormalized cs
    → NoTies cs (to_lower r.from_address) r.block_number
    → shown (sync_row changed cs r).user_attribution
      ≡ name_of (best_of claim_sort_less (applies (to_lower r.from_address) r.block_number) cs)
unfolding sync_row clear_blob
changed_row changed cs r m h norm ties = rw m (
    shown-apply_claims changed (sort_claims_for_application cs) (assign_blob [] r)
    ∙ (ap
          (λ t.
            name_or t
              (find_last (reaches changed (assign_blob [] r)) (sort_claims_for_application cs)))
          (shown-assign [] r.user_attribution)
        ∙ name_of_last cs (to_lower r.from_address) r.block_number
            (reaches changed (assign_blob [] r))
            (All-map (λ c. to_lower c.address ≡ c.address) _
              (λ c e. reaches-eq_applies changed (assign_blob [] r) c m h e) cs norm)
            ties))

other_row :
    (changed : List Text) (cs : List Claim) (r : BlobRow)
    → is_member changed (to_lower r.from_address) ≡ false
    → sync_row changed cs r ≡ r
unfolding sync_row clear_blob
other_row changed cs r m = rw m (apply_claims-other changed (sort_claims_for_application cs) r m)

-- What the row shows is whom the service names.
abbrev pub RowAgrees : List Claim → ℤ → BlobRow → Type 0
RowAgrees cs tip r =
    (ltb_ℤ r.block_number (pos 0) ≡ true)
    ⊎ (shown r.user_attribution
        ≡ get_user_attribution_for_block (set_claims cs tip) r.from_address r.block_number)

abbrev pub RowsAgree : Tables → Type 0
RowsAgree t = All (RowAgrees (filter is_own t.claims) (current_block t.blobs)) t.blobs

nonnegative : (n : ℤ) → ltb_ℤ n (pos 0) ≡ false → pos 0 ≤ℤ n
nonnegative n h = ground arith

for_block-claims_of :
    (cs : List Claim) (tip : ℤ) (address : Text) (n : ℤ)
    → pos 0 ≤ℤ n
    → get_user_attribution_for_block (set_claims cs tip) address n
      ≡ name_of (find (λ c. matches_block c n) (claims_of cs (to_lower address)))
unfolding get_user_attribution_for_block best_claim_for_block set_claims
for_block-claims_of cs tip address n h =
    if_false _ _ (not_negative n h)
    ∙ ap (λ l. name_of (find (λ c. matches_block c n) l))
        (claims_by_address-those (to_lower address) cs)
  where
    not_negative : (n : ℤ) → pos 0 ≤ℤ n → ltb_ℤ n (pos 0) ≡ false
    not_negative n h = ground arith

sync_row-keeps :
    (changed : List Text) (cs : List Claim) (r : BlobRow)
    → ((sync_row changed cs r).from_address ≡ r.from_address)
      × ((sync_row changed cs r).block_number ≡ r.block_number)
unfolding sync_row clear_blob
sync_row-keeps changed cs r =
    ground
      (arith, apply_claims-keeps changed (sort_claims_for_application cs) (clear_blob changed r))

RowAgrees-at :
    (cs : List Claim) (tip : ℤ) (r s : BlobRow)
    → (s.from_address ≡ r.from_address) × (s.block_number ≡ r.block_number)
    → (ltb_ℤ r.block_number (pos 0) ≡ true)
      ⊎ (shown s.user_attribution
          ≡ get_user_attribution_for_block (set_claims cs tip) r.from_address r.block_number)
    → RowAgrees cs tip s
RowAgrees-at cs tip r s (e, e') h = rw (e, e') h

module _ (previous cs : List Claim) (tip tip' : ℤ) (r : BlobRow) (norm : AllNormalized cs)
    (ties : NoTies cs (to_lower r.from_address) r.block_number) (h : RowAgrees previous tip r)
    (p : pos 0 ≤ℤ r.block_number) where
  changed : List Text
  changed = changed_claim_addresses previous cs

  before : (n : ℤ) {t u : Text} → pos 0 ≤ℤ n → (ltb_ℤ n (pos 0) ≡ true) ⊎ (t ≡ u) → t ≡ u
  before n q (inl e) = absurd (ground arith)
  before n q (inr e) = e

  shown-sync_row :
      shown (sync_row changed cs r).user_attribution
      ≡ get_user_attribution_for_block (set_claims cs tip') r.from_address r.block_number
  unfolding changed
  shown-sync_row = elim (Bool-cases (is_member changed (to_lower r.from_address))) [
    | inl m ↦
        changed_row changed cs r m p norm ties
        ∙ (sym (name_of-normalized _)
            ∙ sym (for_block-eq_best cs tip' r.from_address r.block_number p))
    | inr m ↦
        let same : claims_of previous (to_lower r.from_address)
            ≡ claims_of cs (to_lower r.from_address) =
          ground (
            arith,
            m,
            is_member-changed previous cs (to_lower r.from_address),
            same_claims_iff (claims_of previous (to_lower r.from_address))
                (claims_of cs (to_lower r.from_address)),
          ) in
        ap (λ x. shown x.user_attribution) (other_row changed cs r m)
        ∙ (before r.block_number p h
            ∙ (for_block-claims_of previous tip r.from_address r.block_number p
                ∙ (ap (λ l. name_of (find (λ c. matches_block c r.block_number) l)) same
                    ∙ sym (for_block-claims_of cs tip' r.from_address r.block_number p))))
  ]

pub row-RowAgrees :
    (previous cs : List Claim) (tip tip' : ℤ) (r : BlobRow)
    → AllNormalized cs
    → NoTies cs (to_lower r.from_address) r.block_number
    → RowAgrees previous tip r
    → RowAgrees cs tip' (sync_row (changed_claim_addresses previous cs) cs r)
unfolding changed
row-RowAgrees previous cs tip tip' r norm ties h =
    RowAgrees-at cs tip' r (sync_row (changed_claim_addresses previous cs) cs r)
      (sync_row-keeps (changed_claim_addresses previous cs) cs r)
      (elim (Bool-cases (ltb_ℤ r.block_number (pos 0))) [
        | inl e ↦ inl e
        | inr e ↦
            inr (shown-sync_row previous cs tip tip' r norm ties h (nonnegative r.block_number e))
      ])
