-- ===== src/Api/Cors/Origins.antt =====
-- The origins that a policy allows, against the configuration it was read from.
use blob_indexer_api.Common.{◌≡◌, ◌≢◌, refl, ap, ◌⊎◌, ◌↔◌, true, false, List, [], ◌∷◌, arith}
use blob_indexer_api.Common.Text.{Text, is_member, to_lower, trim_space, text_discrete}
use blob_indexer_api.Api.Wildcard.{is_empty, Matches}
use blob_indexer_api.Api.Wildcard.Matching.{wildcard_match_iff}
use blob_indexer_api.Api.Cors.{
  CorsConfig, OriginScan, any_text, add_member, add_origin, read_origins, matches_any,
  new_cors_policy, is_origin_allowed, normalize_origin_patterns,
}

abbrev pub Any : (Text → Type 0) → List Text → Type 0
Any P [] = ⊥
Any P (t ∷ ts) = P t ⊎ Any P ts

-- A configured origin that is a name, the same in any case of letters.
abbrev pub IsLiteral : Text → Text → Type 0
IsLiteral k t = (t ≢ []) × (t ≢ any_text) × (to_lower t ≡ k)

pub is_member-add_member :
    (a k : Text) (set : List Text)
    → (is_member (add_member a set) k ≡ true) ↔ ((is_member set k ≡ true) ⊎ (a ≡ k))
unfolding add_member is_member
is_member-add_member a k set = elim (text_discrete a k) [
  | yes p ↦ ground (arith, p, ap (is_member set) p)
  | no p ↦ ground (arith, p)
]

pub not_empty : (t : Text) → (is_empty t ≡ false) ↔ (t ≢ [])
not_empty [] = (λ h. cc, λ n. absurd (n refl))
not_empty (x ∷ t) = (λ _ p. cc, λ _. refl)

literals-add_origin :
    (t k : Text) (s : OriginScan)
    → (is_member (add_origin t s).literals k ≡ true)
      ↔ ((is_member s.literals k ≡ true) ⊎ IsLiteral k t)
unfolding add_origin
literals-add_origin t k s =
    ground (arith, is_member-add_member (to_lower t) k s.literals, not_empty t)

all-add_origin :
    (t : Text) (s : OriginScan) → ((add_origin t s).all ≡ true) ↔ ((s.all ≡ true) ⊎ (t ≡ any_text))
unfolding add_origin
all-add_origin [] s = ground arith
all-add_origin (c ∷ t) s = ground arith

pub literals-read_origins :
    (ts : List Text) (k : Text) (s : OriginScan)
    → (is_member (read_origins ts s).literals k ≡ true)
      ↔ ((is_member s.literals k ≡ true) ⊎ Any (λ t. IsLiteral k (trim_space t)) ts)
unfolding read_origins
literals-read_origins [] k s = ground arith
literals-read_origins (t ∷ ts) k s = ground (
  arith,
  literals-add_origin (trim_space t) k s,
  literals-read_origins ts k (add_origin (trim_space t) s),
)

pub all-read_origins :
    (ts : List Text) (s : OriginScan)
    → ((read_origins ts s).all ≡ true) ↔ ((s.all ≡ true) ⊎ Any (λ t. trim_space t ≡ any_text) ts)
unfolding read_origins
all-read_origins [] s = ground arith
all-read_origins (t ∷ ts) s =
    ground
      (arith, all-add_origin (trim_space t) s, all-read_origins ts (add_origin (trim_space t) s))

-- A configured pattern that means the origin.
abbrev pub IsPattern : Text → Text → Type 0
IsPattern o t = (to_lower (trim_space t) ≢ []) × Matches (to_lower (trim_space t)) o

matches_any-patterns :
    (ts : List Text) (o : Text)
    → (matches_any (normalize_origin_patterns ts) o ≡ true) ↔ Any (IsPattern o) ts
unfolding matches_any normalize_origin_patterns
matches_any-patterns [] o = ground arith
matches_any-patterns (t ∷ ts) o = ground (
  arith,
  not_empty (to_lower (trim_space t)),
  wildcard_match_iff (to_lower (trim_space t)) o,
  matches_any-patterns ts o,
)

-- What the configuration says of an origin.
abbrev pub IsConfigured : CorsConfig → Text → Type 0
IsConfigured cfg o =
    (cfg.allow_all_origins ≡ true)
    ⊎ (Any (λ t. trim_space t ≡ any_text) cfg.allowed_origins
        ⊎ (Any (λ t. IsLiteral (to_lower o) (trim_space t)) cfg.allowed_origins
            ⊎ Any (IsPattern (to_lower o)) cfg.allowed_origin_patterns))

-- The policy read from a configuration allows exactly the origins that are not empty and that the
-- configuration names: all of them if it says so or has a star among its origins, else one of its
-- literal origins in any case of letters, or what one of its patterns means.
pub is_origin_allowed_iff :
    (cfg : CorsConfig) (o : Text)
    → (is_origin_allowed (new_cors_policy cfg) o ≡ true) ↔ ((o ≢ []) × IsConfigured cfg o)
unfolding is_origin_allowed new_cors_policy
is_origin_allowed_iff cfg o = ground (
  arith,
  not_empty o,
  all-read_origins cfg.allowed_origins (start cfg),
  literals-read_origins cfg.allowed_origins (to_lower o) (start cfg),
  matches_any-patterns cfg.allowed_origin_patterns (to_lower o),
  none_yet (to_lower o),
)
  where
    start : CorsConfig → OriginScan
    start cfg = record { all = cfg.allow_all_origins; literals = []; first_literal = [] }

    none_yet : (k : Text) → is_member [] k ≡ false
    none_yet k = unfold is_member in refl
