-- ===== src/Attribution/Projection.antt =====
-- The projection of the current claims into `blob_users`, and the rows that are added by hand.
use blob_indexer_api.Common.{
  ℕ, ◌≡◌, refl, sym, ◌∙◌, ap, ◌⊎◌, inl, inr, Bool, true, false, ◌||◌, not, if◌then◌else◌, is_some,
  Option, none, some, List, [], ◌∷◌, map, arith, Option-cases,
}
use blob_indexer_api.Common.Int.{ℤ, pos, leb_ℤ}
use blob_indexer_api.Common.Maps.{lookup}
use blob_indexer_api.Common.Text.{Text, text_discrete}
use blob_indexer_api.Attribution.{Claim, best_claims_at_block}
use blob_indexer_api.Attribution.Changes.{is_member}
use blob_indexer_api.Attribution.Sync.{UserRow, starts_with, own_prefix, description}
use blob_indexer_api.Attribution.Refresh.{
  Entry, entry_claim, delete_stale_users, user_of, sync_users,
}
use blob_indexer_api.Attribution.Users.{
  user_at, UniqueUsers, IsKeyed, projected, keep_if, user_at-filter, user_at-upsert_users,
  best_loop-IsKeyed,
}

is_member-keys :
    (a : Text) (m : List (Text × Claim))
    → is_member (map (λ (k, _). k) m) a ≡ is_some (lookup text_discrete a m)
unfolding is_member lookup
is_member-keys a [] = refl
is_member-keys a ((k, c) ∷ m) = ground (arith, is_member-keys a m)

user_at-address :
    (a : Text) (us : List UserRow) (u : UserRow) → user_at a us ≡ some u → u.address ≡ a
unfolding user_at
user_at-address a [] u e = cc
user_at-address a (v ∷ us) u e = elim (text_discrete v.address a) [
  | yes p ↦ ground (arith, p, e)
  | no p ↦ ground (arith, p, e, user_at-address a us u)
]

-- A row survives unless the registry wrote it.
abbrev pub by_hand : Option UserRow → Option UserRow
by_hand none = none
by_hand (some u) = if starts_with u.description own_prefix then none else some u

-- An address that is not current keeps its row exactly if it was added by hand.
stale_row :
    (a : Text) (current : List Text) (us : List UserRow)
    → UniqueUsers us
    → is_member current a ≡ false
    → user_at a (delete_stale_users current us) ≡ by_hand (user_at a us)
unfolding delete_stale_users
stale_row a current us h m = user_at-filter a _ us h ∙ same (user_at a us) (user_at-address a us)
  where
    absent : (u : UserRow) → u.address ≡ a → is_member current u.address ≡ false
    absent u e = ap (is_member current) e ∙ m

    flag :
        (b m : Bool) (u : UserRow)
        → m ≡ false
        → (if not b || m then some u else none) ≡ (if b then none else some u)
    flag b m u e = ground (arith, e)

    same :
        (o : Option UserRow)
        → ((u : UserRow) → o ≡ some u → u.address ≡ a)
        → keep_if (λ u. not (starts_with u.description own_prefix) || is_member current u.address) o
          ≡ by_hand o
    same none k = refl
    same (some u) k = flag (starts_with u.description own_prefix) _ u (absent u (k u refl))

reconciled :
    (a : Text) (tip : ℤ) (m : List (Text × Claim)) (us : List UserRow)
    → IsKeyed m
    → UniqueUsers us
    → user_at a (sync_users m tip us)
      ≡ projected
          (lookup text_discrete a m)
          (if leb_ℤ (pos 0) tip then by_hand (user_at a us) else user_at a us)
unfolding sync_users
reconciled a tip m us k h =
    user_at-upsert_users a m _ k ∙ old (leb_ℤ (pos 0) tip) (Option-cases (lookup text_discrete a m))
  where
    old :
        (b : Bool)
        → (lookup text_discrete a m ≡ none) ⊎ ((c : Claim) × (lookup text_discrete a m ≡ some c))
        → projected
            (lookup text_discrete a m)
            (user_at a (if b then delete_stale_users (map (λ (k, _). k) m) us else us))
          ≡ projected
              (lookup text_discrete a m)
              (if b then by_hand (user_at a us) else user_at a us)
    old false o = refl
    old true (inl e) =
        ap (projected (lookup text_discrete a m))
          (stale_row a (map (λ (k, _). k) m) us h (is_member-keys a m ∙ ap is_some e))
    old true (inr (c, e)) =
        ap (λ o. projected o (user_at a (delete_stale_users (map (λ (k, _). k) m) us))) e
        ∙ sym (ap (λ o. projected o (by_hand (user_at a us))) e)

-- The description of a claim as the download makes it marks its row as one of the registry's.
pub entry_claim-own :
    (network : ℕ) (address : Text) (e : Entry)
    → by_hand (some (user_of (entry_claim network address e))) ≡ none
unfolding user_of description starts_with
entry_claim-own network address e = refl

-- After a synchronization at a latest block that is not negative, an address with a current claim has
-- a user with the name, the category and the description of its claim, and an address without one
-- keeps its row if it was not written by the registry, and has none otherwise; while no block is
-- indexed, no row is lost. Before it, no address had two rows.
pub sync_users_lem :
    (cs : List Claim) (tip : ℤ) (us : List UserRow) (a : Text)
    → UniqueUsers us
    → user_at a (sync_users (best_claims_at_block cs tip) tip us)
      ≡ projected
          (lookup text_discrete a (best_claims_at_block cs tip))
          (if leb_ℤ (pos 0) tip then by_hand (user_at a us) else user_at a us)
unfolding best_claims_at_block
sync_users_lem cs tip us a h =
    reconciled a tip (best_claims_at_block cs tip) us (best_loop-IsKeyed tip cs [] tt) h
