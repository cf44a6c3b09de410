-- ===== src/Api/Cors/Tests.antt =====
-- A configuration with one literal origin, one with a pattern, and requests to them.
use blob_indexer_api.Common.{inr, ◌≡◌, ◌≢◌, refl, ◌↔◌, true, false, none, [], ◌∷◌, ℕ_discrete}
use blob_indexer_api.Common.Int.{pos}
use blob_indexer_api.Common.Text.{trim_space, Text, codes, to_lower, text_discrete}
use blob_indexer_api.Api.Wildcard.{wildcard_match, Matches}
use blob_indexer_api.Api.Wildcard.Matching.{wildcard_match_iff}
use blob_indexer_api.Api.Cors.{CorsConfig, new_cors_policy, is_origin_allowed}
use blob_indexer_api.Api.Cors.Answer.{Request, Headers, cors_middleware}
use blob_indexer_api.Api.Cors.Origins.{IsConfigured, is_origin_allowed_iff}
use blob_indexer_api.Api.Cors.Constant.{cors_middleware_pinned}
use blob_indexer_api.Api.Cors.Single.{SingleOrigin}
use blob_indexer_api.Api.Cors.Requests.{IsPreflight}

abbrev single_origin : CorsConfig
single_origin = record {
  enabled = true;
  allowed_origins = codes " https://App.io" ∷ [];
  allowed_origin_patterns = [];
  allow_all_origins = false;
  allowed_methods = codes "get" ∷ [];
  allowed_headers = codes "accept" ∷ [];
  exposed_headers = codes "ETag" ∷ [];
  allow_credentials = false;
  max_age_seconds = pos 600;
}

abbrev patterned : CorsConfig
patterned = record single_origin { allowed_origin_patterns = codes "https://*.app.io" ∷ [] }

abbrev request : Text → Request
request o = record { method = codes "GET"; origin = o; request_method = []; request_headers = [] }

abbrev no_headers : Headers
no_headers = record {
  vary = [];
  allow_origin = none;
  allow_credentials = false;
  expose_headers = none;
  allow_methods = none;
  allow_headers = none;
  max_age = none;
}

wildcard_match_iff_example :
    (wildcard_match (codes "https://*.app.io") (codes "https://a.b.app.io") ≡ true)
    ↔ Matches (codes "https://*.app.io") (codes "https://a.b.app.io")
wildcard_match_iff_example =
    wildcard_match_iff (codes "https://*.app.io") (codes "https://a.b.app.io")

overlap_refused : wildcard_match (codes "ab*ba") (codes "aba") ≡ false
unfolding wildcard_match text_discrete ℕ_discrete
overlap_refused = refl

is_origin_allowed_iff_example :
    (is_origin_allowed (new_cors_policy patterned) (codes "https://x.app.io") ≡ true)
    ↔ ((codes "https://x.app.io" ≢ []) × IsConfigured patterned (codes "https://x.app.io"))
is_origin_allowed_iff_example = is_origin_allowed_iff patterned (codes "https://x.app.io")

single : SingleOrigin single_origin (codes "https://App.io")
unfolding trim_space
single = record {
  not_all = refl;
  no_star = (λ e. cc, tt);
  alike = (inr refl, tt);
  first = inr (λ e. cc, refl);
  no_patterns = tt;
}

no-IsPreflight : (o : Text) → ¬ IsPreflight (request o)
no-IsPreflight o (e, _, _) = absurd (unfold text_discrete in cc)

cors_middleware_pinned_example :
    ((o : Text)
      → (is_origin_allowed (new_cors_policy single_origin) o ≡ true)
        ↔ (to_lower o ≡ to_lower (codes "https://App.io")))
    × (cors_middleware (new_cors_policy single_origin) (request []) no_headers
        ≡ cors_middleware
            (new_cors_policy single_origin)
            (request (codes "https://b.io"))
            no_headers)
cors_middleware_pinned_example =
    cors_middleware_pinned single_origin (codes "https://App.io") (request [])
      (request (codes "https://b.io")) no_headers single (no-IsPreflight [])
      (no-IsPreflight (codes "https://b.io")) refl
