-- ===== src/Api/Cors/Pinned.antt =====
-- What a policy that is pinned to an origin holds, internal/api/cors.go.
use blob_indexer_api.Common.{
  ◌≡◌, ◌≢◌, refl, sym, ◌∙◌, ap, ◌⊎◌, inl, ◌↔◌, true, false, not, if◌then◌else◌, List, [], ◌∷◌,
  length, arith,
}
use blob_indexer_api.Common.Text.{Text, is_member, to_lower, trim_space}
use blob_indexer_api.Api.Cors.{
  CorsConfig, Policy, OriginScan, add_origin, read_origins, matches_any, new_cors_policy,
  is_origin_allowed, is_method_allowed, normalize_origin_patterns,
}
use blob_indexer_api.Api.Cors.Answer.{
  Request, Headers, forwarded, is_preflight, with_pinned, with_exposed, set_allowed_origin_headers,
  cors_middleware,
}
use blob_indexer_api.Api.Cors.Origins.{not_empty, is_member-add_member}

-- The first literal origin that was read is among the literal origins, once there is one.
abbrev IsScanned : OriginScan → Type 0
IsScanned s =
    ((s.first_literal ≡ []) × (s.literals ≡ []))
    ⊎ ((s.first_literal ≢ []) × (is_member s.literals (to_lower s.first_literal) ≡ true))

IsScanned-add_origin : (t : Text) (s : OriginScan) → IsScanned s → IsScanned (add_origin t s)
unfolding add_origin
IsScanned-add_origin t s h = ground (
  arith,
  h,
  not_empty t,
  not_empty s.first_literal,
  is_member-add_member (to_lower t) (to_lower t) s.literals,
  is_member-add_member (to_lower t) (to_lower s.first_literal) s.literals,
)

IsScanned-read_origins :
    (ts : List Text) (s : OriginScan) → IsScanned s → IsScanned (read_origins ts s)
unfolding read_origins
IsScanned-read_origins [] s h = h
IsScanned-read_origins (t ∷ ts) s h =
    IsScanned-read_origins ts (add_origin (trim_space t) s)
      (IsScanned-add_origin (trim_space t) s h)

only_member : (l : List Text) (k : Text) → length l ≡ 1 → is_member l k ≡ true → l ≡ k ∷ []
unfolding is_member
only_member [] k e h = absurd (omega arith)
only_member (x ∷ []) k e h = ground (arith, h)
only_member (x ∷ y ∷ l) k e h = absurd (omega arith)

pub lower_empty : (t : Text) → to_lower t ≡ [] → t ≡ []
unfolding to_lower
lower_empty [] e = refl
lower_empty (c ∷ t) e = absurd (ground (arith, e))

no_patterns : (l : List Text) (o : Text) → length l ≡ 0 → matches_any l o ≡ false
unfolding matches_any
no_patterns [] o e = refl
no_patterns (p ∷ l) o e = absurd (omega arith)

abbrev pub scan_of : CorsConfig → OriginScan
scan_of cfg =
    read_origins cfg.allowed_origins
      (record { all = cfg.allow_all_origins; literals = []; first_literal = [] })

pub record IsPinned (cfg : CorsConfig) : Type 0 where
  pub first : (new_cors_policy cfg).pinned_origin ≡ (scan_of cfg).first_literal
  pub one : length (scan_of cfg).literals ≡ 1
  pub not_all : (scan_of cfg).all ≡ false
  pub patterns : length (normalize_origin_patterns cfg.allowed_origin_patterns) ≡ 0

pub pinned_origin-IsPinned :
    (cfg : CorsConfig) → (new_cors_policy cfg).pinned_origin ≢ [] → IsPinned cfg
unfolding new_cors_policy
pinned_origin-IsPinned cfg n = record {
  first = ground (arith, n);
  one = ground (arith, n);
  not_all = ground (arith, n);
  patterns = ground (arith, n);
}

pub only_literal :
    (cfg : CorsConfig)
    → (new_cors_policy cfg).pinned_origin ≢ []
    → (scan_of cfg).literals ≡ to_lower (new_cors_policy cfg).pinned_origin ∷ []
only_literal cfg n =
    let i = pinned_origin-IsPinned cfg n in
    let scanned : IsScanned (scan_of cfg) =
      IsScanned-read_origins cfg.allowed_origins _ (inl (refl, refl)) in
    let member : is_member (scan_of cfg).literals (to_lower (scan_of cfg).first_literal) ≡ true =
      ground (arith, scanned, i.first, n) in
    only_member (scan_of cfg).literals (to_lower (scan_of cfg).first_literal) i.one member
    ∙ ap (λ t. to_lower t ∷ []) (sym i.first)

pub single : (k t : Text) → (is_member (k ∷ []) t ≡ true) ↔ (k ≡ t)
unfolding is_member
single k t = ground arith

lower_nil : (o : Text) → o ≡ [] → to_lower o ≡ []
unfolding to_lower
lower_nil o e = ap to_lower e

only_allowed :
    (p : Policy) (k o : Text)
    → k ≢ []
    → p.allow_all_origins ≡ false
    → p.allowed_origins ≡ k ∷ []
    → ((t : Text) → matches_any p.allowed_origin_patterns t ≡ false)
    → (is_origin_allowed p o ≡ true) ↔ (to_lower o ≡ k)
unfolding is_origin_allowed
only_allowed p k o n a l m = ground (
  arith,
  n,
  a,
  ap (λ x. is_member x (to_lower o)) l,
  single k (to_lower o),
  m (to_lower o),
  not_empty o,
  lower_nil o,
)

pub only_origin :
    (cfg : CorsConfig) (o : Text)
    → (new_cors_policy cfg).pinned_origin ≢ []
    → (is_origin_allowed (new_cors_policy cfg) o ≡ true)
      ↔ (to_lower o ≡ to_lower (new_cors_policy cfg).pinned_origin)
unfolding new_cors_policy
only_origin cfg o n =
    let i = pinned_origin-IsPinned cfg n in
    only_allowed (new_cors_policy cfg) (to_lower (new_cors_policy cfg).pinned_origin) o
      (λ e. n (lower_empty (new_cors_policy cfg).pinned_origin e)) i.not_all (only_literal cfg n)
      (λ t. no_patterns (normalize_origin_patterns cfg.allowed_origin_patterns) t i.patterns)

pub pinned_answer :
    (p : Policy) (r : Request) (h : Headers)
    → p.pinned_origin ≢ []
    → is_preflight r ≡ false
    → cors_middleware p r h ≡ (if not p.enabled then forwarded h else forwarded (with_pinned p r h))
unfolding cors_middleware
pinned_answer p r h n e = ground (arith, e, not_empty p.pinned_origin)

pub with_pinned-method :
    (p : Policy) (r r' : Request) (h : Headers)
    → r.method ≡ r'.method
    → with_pinned p r h ≡ with_pinned p r' h
unfolding with_pinned
with_pinned-method p r r' h m =
    ap
      (λ t.
        if is_method_allowed p t
        then with_exposed p (set_allowed_origin_headers p p.pinned_origin h)
        else h)
      m
