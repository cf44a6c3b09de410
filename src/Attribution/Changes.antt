-- ===== src/Attribution/Changes.antt =====
-- `sameClaims` and `changedClaimAddresses`: the addresses whose claims differ between two artifacts.
use blob_indexer_api.Common.{
  ◌≡◌, refl, ◌∙◌, ap, ◌↔◌, Bool, true, false, ◌&&◌, not, if◌then◌else◌, is_some, Option, none, some,
  List, [], ◌∷◌, arith, ◌==◌, ◌||◌, Option-cases, inl, inr, ◌≢◌,
}
use blob_indexer_api.Common.Int.{ℤ}
use blob_indexer_api.Common.Maps.{lookup, insert, lookup-insert}
use blob_indexer_api.Common.Text.{Text, text_discrete, ltb_text, ltb_text_asym, ltb_text_split}
use blob_indexer_api.Common.Sorting.{stable_sort, insert_by, stable_sort-Ordered, Ordered}
use blob_indexer_api.Attribution.{
  Claim, text_is, eqb_ℤ, ClaimMap, or_empty, claims_by_address, claim_sort_less,
}
use blob_indexer_api.Attribution.Groups.{those, claims_by_address-those}
unfoldable pub use blob_indexer_api.Common.Text.{is_member}

same_end : Option ℤ → Option ℤ → Bool
same_end none none = true
same_end (some a) (some b) = eqb_ℤ a b
same_end _ _ = false

unfoldable pub same_claim : Claim → Claim → Bool
unfolding same_end
same_claim a b =
    a.chain_id == b.chain_id
    && (text_is a.source b.source
        && (text_is a.address b.address
            && (text_is a.entity_id b.entity_id
                && (text_is a.name b.name
                    && (text_is a.category b.category
                        && (text_is a.role b.role
                            && (text_is a.confidence b.confidence
                                && (text_is a.status b.status
                                    && (eqb_ℤ a.valid_from_block b.valid_from_block
                                        && same_end a.valid_to_block b.valid_to_block)))))))))

unfoldable pub same_claims : List Claim → List Claim → Bool
unfolding same_claim
same_claims [] [] = true
same_claims (a ∷ xs) (b ∷ ys) = same_claim a b && same_claims xs ys
same_claims _ _ = false

-- The keys of both maps, each once.
unfoldable pub add_keys : ClaimMap → List (Text × Unit {0}) → List (Text × Unit {0})
add_keys [] set = set
add_keys ((a, _) ∷ m) set = add_keys m (insert text_discrete a tt set)

-- The loop over the set of addresses.
unfoldable pub changed_among : ClaimMap → ClaimMap → List (Text × Unit {0}) → List Text
unfolding same_claims
changed_among before now [] = []
changed_among before now ((a, _) ∷ set) =
    let rest = changed_among before now set in
    if same_claims (or_empty (lookup text_discrete a before))
      (or_empty (lookup text_discrete a now))
    then rest
    else a ∷ rest

unfoldable pub changed_claim_addresses : List Claim → List Claim → List Text
unfolding add_keys changed_among claims_by_address
changed_claim_addresses previous current =
    let before = claims_by_address previous in
    let now = claims_by_address current in
    stable_sort ltb_text (changed_among before now (add_keys now (add_keys before [])))

eqb_ℤ_iff : (a b : ℤ) → (eqb_ℤ a b ≡ true) ↔ (a ≡ b)
eqb_ℤ_iff a b = ground arith

same_end_iff : (a b : Option ℤ) → (same_end a b ≡ true) ↔ (a ≡ b)
unfolding same_end
same_end_iff none none = ground arith
same_end_iff (some a) (some b) = ground (arith, eqb_ℤ_iff a b)
same_end_iff none (some b) = ground arith
same_end_iff (some b) none = ground arith

same_claim_iff : (a b : Claim) → (same_claim a b ≡ true) ↔ (a ≡ b)
unfolding same_claim
same_claim_iff a b = ground (
  arith,
  eqb_ℤ_iff a.valid_from_block b.valid_from_block,
  same_end_iff a.valid_to_block b.valid_to_block,
)

pub same_claims_iff : (xs ys : List Claim) → (same_claims xs ys ≡ true) ↔ (xs ≡ ys)
unfolding same_claims
same_claims_iff [] [] = ground arith
same_claims_iff [] (b ∷ ys) = ground arith
same_claims_iff (a ∷ xs) [] = ground arith
same_claims_iff (a ∷ xs) (b ∷ ys) = ground (arith, same_claim_iff a b, same_claims_iff xs ys)

is_member-insert_by :
    (a b : Text) (bs : List Text)
    → is_member (insert_by ltb_text b bs) a ≡ (if text_is b a then true else is_member bs a)
unfolding insert_by is_member
is_member-insert_by a b [] = refl
is_member-insert_by a b (c ∷ bs) = ground (arith, is_member-insert_by a b bs)

is_member-sort :
    (a : Text) (bs : List Text) → is_member (stable_sort ltb_text bs) a ≡ is_member bs a
unfolding stable_sort is_member
is_member-sort a [] = refl
is_member-sort a (b ∷ bs) =
    is_member-insert_by a b (stable_sort ltb_text bs)
    ∙ ap (λ r. if text_is b a then true else r) (is_member-sort a bs)

is_key : {V : Type 0} → List (Text × V) → Text → Bool
is_key m a = is_some (lookup text_discrete a m)

is_key-add_keys :
    (a : Text) (m : ClaimMap) (set : List (Text × Unit {0}))
    → is_key (add_keys m set) a ≡ (is_key m a || is_key set a)
unfolding add_keys is_key lookup
is_key-add_keys a [] set = refl
is_key-add_keys a ((b, g) ∷ m) set = ground (
  arith,
  is_key-add_keys a m (insert text_discrete b tt set),
  lookup-insert text_discrete b a tt set,
)

-- The two artifacts list the same claims of the address.
unfoldable pub unchanged : ClaimMap → ClaimMap → Text → Bool
unfolding same_claims
unchanged before now a =
    same_claims (or_empty (lookup text_discrete a before)) (or_empty (lookup text_discrete a now))

is_member-changed_among :
    (before now : ClaimMap) (set : List (Text × Unit {0})) (a : Text)
    → is_member (changed_among before now set) a ≡ (is_key set a && not (unchanged before now a))
unfolding changed_among is_member is_key unchanged lookup
is_member-changed_among before now [] a = refl
is_member-changed_among before now ((b, _) ∷ set) a = elim (text_discrete b a) [
  | yes p ↦ ground (arith, is_member-changed_among before now set a, ap (unchanged before now) p)
  | no p ↦ ground (arith, is_member-changed_among before now set a, p)
]

unchanged_of_no_key :
    (before now : ClaimMap) (a : Text)
    → (is_key before a || is_key now a) ≡ false
    → unchanged before now a ≡ true
unfolding is_key unchanged
unchanged_of_no_key before now a h = elim (Option-cases (lookup text_discrete a before)) [
  | inl p ↦ elim (Option-cases (lookup text_discrete a now)) [
    | inl q ↦ rw (p, q) refl
    | inr (g, q) ↦ ground (arith, q, h)
  ]
  | inr (g, p) ↦ ground (arith, p, h)
]

-- The claims that an artifact has for an address in any case of letters, in the order of claims.
abbrev pub claims_of : List Claim → Text → List Claim
claims_of cs a = stable_sort claim_sort_less (those a cs)

pub is_member-changed :
    (previous current : List Claim) (a : Text)
    → is_member (changed_claim_addresses previous current) a
      ≡ not (same_claims (claims_of previous a) (claims_of current a))
unfolding changed_claim_addresses unchanged
is_member-changed previous current a =
    let before = claims_by_address previous in
    let now = claims_by_address current in
    let set = add_keys now (add_keys before []) in
    ground (
      arith,
      is_member-sort a (changed_among before now set),
      is_member-changed_among before now set a,
      is_key-add_keys a now (add_keys before []),
      is_key-add_keys a before [],
      unchanged_of_no_key before now a,
      claims_by_address-those a previous,
      claims_by_address-those a current,
    )

-- An address is among the changed ones exactly if the two artifacts differ in its claims, any of
-- their fields and their number included, and the changed addresses are in ascending order.
pub changed_claim_addresses_iff :
    (previous current : List Claim)
    → ((a : Text)
        → (is_member (changed_claim_addresses previous current) a ≡ true)
          ↔ (claims_of previous a ≢ claims_of current a))
      × Ordered ltb_text (changed_claim_addresses previous current)
changed_claim_addresses_iff previous current = (
  λ a. ground (
    arith,
    is_member-changed previous current a,
    same_claims_iff (claims_of previous a) (claims_of current a),
  ),
  ascending,
)
  where
    ascending : Ordered ltb_text (changed_claim_addresses previous current)
    ascending =
        unfold changed_claim_addresses in
        stable_sort-Ordered ltb_text
          (record { asym = ltb_text_asym; split = λ a b c. ltb_text_split a b c }) _
