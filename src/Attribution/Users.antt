-- ===== src/Attribution/Users.antt =====
-- `blob_users` as a map: what an insertion, a deletion and the loop over the current claims do to the
-- row of an address, and the keys of the map that the loop runs over.
use blob_indexer_api.Common.{
  ◌≡◌, refl, sym, ap, inl, inr, Bool, ◌&&◌, not, if◌then◌else◌, is_some, Option, none, some, List,
  [], ◌∷◌, ◌++◌, arith, Bool-cases, Option-cases, subst,
}
use blob_indexer_api.Common.Int.{ℤ}
use blob_indexer_api.Common.Maps.{lookup, insert, lookup-insert, ite_yes, ite_no}
use blob_indexer_api.Common.Text.{Text, text_discrete, to_lower}
use blob_indexer_api.Attribution.{Claim, Service, text_is, better, best_loop, matches_block}
use blob_indexer_api.Attribution.Sync.{UserRow, filter, description}
use blob_indexer_api.Attribution.Refresh.{user_of, upsert_user, upsert_users}

-- The row of an address, the primary key of the chain's users.
unfoldable pub user_at : Text → List UserRow → Option UserRow
user_at a [] = none
user_at a (u ∷ us) = let rest = user_at a us in if text_is u.address a then some u else rest

abbrev pub UniqueUsers : List UserRow → Type 0
UniqueUsers [] = Unit
UniqueUsers (u ∷ us) = (user_at u.address us ≡ none) × UniqueUsers us

-- Each pair of the map is under the claim's own address, and no address has two.
abbrev pub IsKeyed : List (Text × Claim) → Type 0
IsKeyed [] = Unit
IsKeyed ((k, c) ∷ m) = (k ≡ c.address) × (lookup text_discrete k m ≡ none) × IsKeyed m

update_user : UserRow → List UserRow → List UserRow
update_user u [] = []
update_user u (v ∷ us) =
    let rest = update_user u us in if text_is v.address u.address then u ∷ us else v ∷ rest

-- `AddKnownUser`, with its statement failing or not: the insertion also fails on an address that the
-- table has and the map of known users has not.
unfoldable pub add_known_user :
    Bool → Text → Text → Text → Text → Service → List UserRow → Service × List UserRow
unfolding user_at update_user
add_known_user works address name description category s us =
    let a = to_lower address in
    let u : UserRow = record {
      address = a;
      name = name;
      description = description;
      category = category;
    } in
    if is_some (lookup text_discrete a s.known_users)
    then (s, if works then update_user u us else us)
    else if works && not (is_some (user_at a us))
    then (record s { known_users = insert text_discrete a name s.known_users }, us ++ u ∷ [])
    else (s, us)

insert-IsKeyed :
    (c : Claim) (m : List (Text × Claim)) → IsKeyed m → IsKeyed (insert text_discrete c.address c m)
unfolding insert lookup
insert-IsKeyed c [] h = (refl, refl, tt)
insert-IsKeyed c ((k, d) ∷ m) h = elim (text_discrete k c.address) [
  | yes p ↦
      let free : lookup text_discrete c.address m ≡ none =
        subst (λ t. lookup text_discrete t m ≡ none) p h.1 in
      subst IsKeyed (sym (ite_yes (text_discrete k c.address) _ _ p)) (refl, free, h.2)
  | no p ↦
      let free : lookup text_discrete k (insert text_discrete c.address c m) ≡ none =
        ground (arith, lookup-insert text_discrete c.address k c m, h.1, p) in
      subst IsKeyed (sym (ite_no (text_discrete k c.address) _ _ p))
        (h.0, free, insert-IsKeyed c m h.2)
]

user_at-upsert_user :
    (a : Text) (u : UserRow) (us : List UserRow)
    → user_at a (upsert_user u us) ≡ (if text_is u.address a then some u else user_at a us)
unfolding user_at upsert_user
user_at-upsert_user a u [] = refl
user_at-upsert_user a u (v ∷ us) = ground (arith, user_at-upsert_user a u us)

-- The row of the claim, or the row that was there.
abbrev pub projected : Option Claim → Option UserRow → Option UserRow
projected none old = old
projected (some c) old = some (record {
  address = c.address;
  name = c.name;
  description = description c;
  category = c.category;
})

pub user_at-upsert_users :
    (a : Text) (m : List (Text × Claim)) (us : List UserRow)
    → IsKeyed m
    → user_at a (upsert_users m us) ≡ projected (lookup text_discrete a m) (user_at a us)
unfolding upsert_users lookup user_of
user_at-upsert_users a [] us h = refl
user_at-upsert_users a ((k, c) ∷ m) us h = elim (text_discrete k a) [
  | yes p ↦ ground (
    arith,
    user_at-upsert_users a m (upsert_user (user_of c) us) h.2,
    user_at-upsert_user a (user_of c) us,
    h.0,
    h.1,
    ap (λ t. lookup text_discrete t m) p,
  )
  | no p ↦ ground (
    arith,
    user_at-upsert_users a m (upsert_user (user_of c) us) h.2,
    user_at-upsert_user a (user_of c) us,
    h.0,
    p,
  )
]

abbrev pub keep_if : (UserRow → Bool) → Option UserRow → Option UserRow
keep_if q none = none
keep_if q (some u) = if q u then some u else none

pub user_at-filter :
    (a : Text) (q : UserRow → Bool) (us : List UserRow)
    → UniqueUsers us
    → user_at a (filter q us) ≡ keep_if q (user_at a us)
unfolding filter user_at
user_at-filter a q [] h = refl
user_at-filter a q (u ∷ us) h = elim (text_discrete u.address a) [
  | yes p ↦ ground (arith, user_at-filter a q us h.1, h.0, ap (λ t. user_at t us) p)
  | no p ↦ ground (arith, p, user_at-filter a q us h.1)
]

lookup-IsKeyed :
    (a : Text) (m : List (Text × Claim)) (c : Claim)
    → IsKeyed m
    → lookup text_discrete a m ≡ some c
    → c.address ≡ a
unfolding lookup
lookup-IsKeyed a [] c h e = cc
lookup-IsKeyed a ((k, d) ∷ m) c h e = elim (text_discrete k a) [
  | yes p ↦ ground (arith, p, e, h.0)
  | no p ↦ ground (arith, p, e, lookup-IsKeyed a m c h.2)
]

better-address :
    (c : Claim) (best : List (Text × Claim))
    → IsKeyed best
    → (better c (lookup text_discrete c.address best)).address ≡ c.address
unfolding better
better-address c best h = elim (Option-cases (lookup text_discrete c.address best)) [
  | inl e ↦ ground (arith, e)
  | inr (d, e) ↦ ground (arith, e, lookup-IsKeyed c.address best d h e)
]

pub best_loop-IsKeyed :
    (n : ℤ) (cs : List Claim) (best : List (Text × Claim))
    → IsKeyed best
    → IsKeyed (best_loop n cs best)
unfolding best_loop
best_loop-IsKeyed n [] best h = h
best_loop-IsKeyed n (c ∷ cs) best h = elim (Bool-cases (matches_block c n)) [
  | inl e ↦
      let d = better c (lookup text_discrete c.address best) in
      rw e (
        best_loop-IsKeyed n cs _ (
          subst (λ k. IsKeyed (insert text_discrete k d best)) (better-address c best h)
            (insert-IsKeyed d best h)))
  | inr e ↦ rw e (best_loop-IsKeyed n cs best h)
]
