-- ===== src/Attribution/Reapply.antt =====
-- What the transaction leaves in a row of `blobs`: the user of the claim that is applied last, and
-- whether it is the one that the service names for the address and the block.
use blob_indexer_api.Common.{
  ◌≡◌, refl, ◌∙◌, ap, inl, inr, Bool, true, false, ◌&&◌, not, if◌then◌else◌, Option, none, some,
  List, [], ◌∷◌, arith, Bool-cases,
}
use blob_indexer_api.Common.Int.{ℤ, pos, ◌≤ℤ◌, ltb_ℤ, leb_ℤ}
use blob_indexer_api.Common.Text.{Text, codes, text_discrete, to_lower, equal_fold}
use blob_indexer_api.Common.Latest.{find_last}
use blob_indexer_api.Attribution.{Claim, matches_block, expired}
use blob_indexer_api.Attribution.Lookup.{applies}
use blob_indexer_api.Attribution.Changes.{is_member}
use blob_indexer_api.Attribution.Sync.{
  BlobRow, shown, assign, before_end, selects, update_blobs_for_claim, is_applied, apply_claims,
}

pub shown-assign : (name : Text) (old : Option Text) → shown (assign name old) ≡ name
shown-assign name old = ground arith

-- The claim changes the row when its turn comes.
pub reaches : List Text → BlobRow → Claim → Bool
unfolding is_applied selects
reaches changed r c = is_applied changed c && selects c r

abbrev pub name_or : Text → Option Claim → Text
name_or name none = name
name_or name (some c) = c.name

step : List Text → Claim → BlobRow → BlobRow
step changed c r = if is_applied changed c then update_blobs_for_claim c r else r

reaches-step :
    (changed : List Text) (c : Claim) (r : BlobRow)
    → reaches changed (step changed c r) ≡ reaches changed r
unfolding step update_blobs_for_claim reaches
reaches-step changed c r = elim (Bool-cases (is_applied changed c)) [
  | inl e ↦ rw e (elim (Bool-cases (selects c r)) [ inl e' ↦ rw e' refl | inr e' ↦ rw e' refl ])
  | inr e ↦ rw e refl
]

shown-step :
    (changed : List Text) (c : Claim) (r : BlobRow)
    → shown (step changed c r).user_attribution
      ≡ (if reaches changed r c then c.name else shown r.user_attribution)
unfolding step update_blobs_for_claim reaches
shown-step changed c r = ground (arith, shown-assign c.name r.user_attribution)

name_or-last :
    (b : Bool) (c : Claim) (name : Text) (o : Option Claim)
    → name_or (if b then c.name else name) o
      ≡ name_or name (elim o [ some d ↦ some d | none ↦ if b then some c else none ])
name_or-last true c name none = refl
name_or-last false c name none = refl
name_or-last b c name (some d) = refl

pub shown-apply_claims :
    (changed : List Text) (cs : List Claim) (r : BlobRow)
    → shown (apply_claims changed cs r).user_attribution
      ≡ name_or (shown r.user_attribution) (find_last (reaches changed r) cs)
unfolding apply_claims find_last step
shown-apply_claims changed [] r = refl
shown-apply_claims changed (c ∷ cs) r =
    shown-apply_claims changed cs (step changed c r)
    ∙ (ap (λ p. name_or (shown (step changed c r).user_attribution) (find_last p cs))
          (reaches-step changed c r)
        ∙ (ap (λ t. name_or t (find_last (reaches changed r) cs)) (shown-step changed c r)
            ∙ name_or-last (reaches changed r c) c (shown r.user_attribution)
                (find_last (reaches changed r) cs)))

in_range :
    (from n : ℤ) (last : Option ℤ)
    → pos 0 ≤ℤ n
    → (leb_ℤ from n && (before_end last n && leb_ℤ (pos 0) n))
      ≡ (if ltb_ℤ n from then false else not (expired last n))
in_range from n none h = ground arith
in_range from n (some l) h = ground arith

matches_block_of_nonnegative :
    (c : Claim) (n : ℤ)
    → pos 0 ≤ℤ n
    → matches_block c n ≡ (
        not (equal_fold c.status (codes "disputed"))
        && (leb_ℤ c.valid_from_block n && (before_end c.valid_to_block n && leb_ℤ (pos 0) n)))
unfolding matches_block
matches_block_of_nonnegative c n h =
    ground (arith, in_range c.valid_from_block n c.valid_to_block h)

-- Where a row is of a changed address and at a block that is not negative, a claim reaches it
-- exactly if the claim applies there.
pub reaches-eq_applies :
    (changed : List Text) (r : BlobRow) (c : Claim)
    → is_member changed (to_lower r.from_address) ≡ true
    → pos 0 ≤ℤ r.block_number
    → to_lower c.address ≡ c.address
    → reaches changed r c ≡ applies (to_lower r.from_address) r.block_number c
unfolding reaches applies
reaches-eq_applies changed r c m h e = elim (text_discrete c.address (to_lower r.from_address)) [
  | yes p ↦
      ground
        (arith, e, p, m, ap (is_member changed) p, matches_block_of_nonnegative c r.block_number h)
  | no p ↦ ground (arith, e, p)
]

step-other :
    (changed : List Text) (c : Claim) (r : BlobRow)
    → is_member changed (to_lower r.from_address) ≡ false
    → step changed c r ≡ r
unfolding step is_applied update_blobs_for_claim selects
step-other changed c r m = elim (text_discrete (to_lower r.from_address) c.address) [
  | yes p ↦ ground (arith, m, ap (is_member changed) p)
  | no p ↦ ground (arith, p)
]

-- A row of an address that did not change is left as it is.
pub apply_claims-other :
    (changed : List Text) (cs : List Claim) (r : BlobRow)
    → is_member changed (to_lower r.from_address) ≡ false
    → apply_claims changed cs r ≡ r
unfolding apply_claims step
apply_claims-other changed [] r m = refl
apply_claims-other changed (c ∷ cs) r m =
    ap (apply_claims changed cs) (step-other changed c r m) ∙ apply_claims-other changed cs r m

-- A row keeps its address and its block.
pub apply_claims-keeps :
    (changed : List Text) (cs : List Claim) (r : BlobRow)
    → ((apply_claims changed cs r).from_address ≡ r.from_address)
      × ((apply_claims changed cs r).block_number ≡ r.block_number)
unfolding apply_claims update_blobs_for_claim
apply_claims-keeps changed [] r = (refl, refl)
apply_claims-keeps changed (c ∷ cs) r = ground (
  arith,
  apply_claims-keeps changed cs (if is_applied changed c then update_blobs_for_claim c r else r),
)
