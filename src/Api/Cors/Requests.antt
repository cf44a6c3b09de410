-- ===== src/Api/Cors/Requests.antt =====
-- What the configuration says of a request: its method, its headers, and whether it is a preflight,
-- internal/api/cors.go.
use blob_indexer_api.Common.{
  ◌≡◌, ◌≢◌, refl, ap, ◌⊎◌, ◌↔◌, true, List, [], ◌∷◌, length, map, arith, All,
}
use blob_indexer_api.Common.Text.{
  Text, codes, is_member, to_upper, trim_space, text_discrete, split_at,
}
use blob_indexer_api.Api.Wildcard.{is_empty}
use blob_indexer_api.Api.Cors.{
  CorsConfig, any_text, kept, new_cors_policy, normalize_methods, normalize_headers, header_set,
  canonical_header_key, is_method_allowed, are_headers_allowed, all_in,
  parse_access_control_request_headers,
}
use blob_indexer_api.Api.Cors.Origins.{Any, not_empty, is_member-add_member}
use blob_indexer_api.Api.Cors.Answer.{Request, is_preflight}

abbrev pub IsPreflight : Request → Type 0
IsPreflight r =
    (r.method ≡ codes "OPTIONS") × (trim_space r.origin ≢ []) × (trim_space r.request_method ≢ [])

pub is_preflight_iff : (r : Request) → (is_preflight r ≡ true) ↔ IsPreflight r
unfolding is_preflight
is_preflight_iff r =
    ground (arith, not_empty (trim_space r.origin), not_empty (trim_space r.request_method))

-- The method, in any case of letters, is among the configured ones, or a star is.
abbrev pub IsMethod : CorsConfig → Text → Type 0
IsMethod cfg m =
    (to_upper (trim_space m) ≢ [])
    × (Any (λ t. to_upper (trim_space t) ≡ any_text) cfg.allowed_methods
        ⊎ Any (λ t. to_upper (trim_space t) ≡ to_upper (trim_space m)) cfg.allowed_methods)

-- A header in canonical form is that of a configured one.
abbrev pub IsHeader : CorsConfig → Text → Type 0
IsHeader cfg h =
    Any
      (λ t.
        (trim_space t ≢ [])
        × (trim_space t ≢ any_text)
        × (canonical_header_key (trim_space t) ≡ canonical_header_key h))
      cfg.allowed_headers

-- A star is configured, or every header of the list, in canonical form, is configured.
abbrev pub AreHeaders : CorsConfig → Text → Type 0
AreHeaders cfg value =
    Any (λ t. trim_space t ≡ any_text) cfg.allowed_headers
    ⊎ All (λ t. (trim_space t ≡ []) ⊎ IsHeader cfg (canonical_header_key (trim_space t)))
        (split_at b',' value)

is_member-kept :
    (f : Text → Text) (ts : List Text) (k : Text)
    → (is_member (kept f ts) k ≡ true) ↔ ((k ≢ []) × Any (λ t. f t ≡ k) ts)
unfolding kept is_member
is_member-kept f [] k = ground arith
is_member-kept f (t ∷ ts) k = ground (arith, not_empty (f t), not_empty k, is_member-kept f ts k)

pub is_method_allowed_iff :
    (cfg : CorsConfig) (m : Text)
    → (is_method_allowed (new_cors_policy cfg) m ≡ true) ↔ IsMethod cfg m
unfolding is_method_allowed new_cors_policy normalize_methods
is_method_allowed_iff cfg m = ground (
  arith,
  not_empty (to_upper (trim_space m)),
  is_member-kept (λ t. to_upper (trim_space t)) cfg.allowed_methods any_text,
  is_member-kept (λ t. to_upper (trim_space t)) cfg.allowed_methods (to_upper (trim_space m)),
)

is_member-header_set :
    (ts : List Text) (k : Text)
    → (is_member (header_set (kept trim_space ts)) k ≡ true)
      ↔ Any
          (λ t.
            (trim_space t ≢ [])
            × (trim_space t ≢ any_text)
            × (canonical_header_key (trim_space t) ≡ k))
          ts
unfolding kept header_set is_member
is_member-header_set [] k = ground arith
is_member-header_set (t ∷ ts) k = elim (text_discrete (trim_space t) []) [
  | yes e ↦ ground (arith, e, ap is_empty e, not_empty (trim_space t), is_member-header_set ts k)
  | no e ↦ ground (
    arith,
    e,
    not_empty (trim_space t),
    is_member-header_set ts k,
    is_member-add_member (canonical_header_key (trim_space t)) k (header_set (kept trim_space ts)),
  )
]

all_in-pieces :
    (cfg : CorsConfig) (ts : List Text)
    → (all_in
          (header_set (kept trim_space cfg.allowed_headers))
          (map canonical_header_key (kept trim_space ts))
        ≡ true)
      ↔ All (λ t. (trim_space t ≡ []) ⊎ IsHeader cfg (canonical_header_key (trim_space t))) ts
unfolding kept all_in
all_in-pieces cfg [] = ground arith
all_in-pieces cfg (t ∷ ts) = ground (
  arith,
  not_empty (trim_space t),
  all_in-pieces cfg ts,
  is_member-header_set cfg.allowed_headers
      (canonical_header_key (canonical_header_key (trim_space t))),
)

no_headers : (set hs : List Text) → length hs ≡ 0 → all_in set hs ≡ true
unfolding all_in
no_headers set [] e = refl
no_headers set (h ∷ hs) e = absurd (omega arith)

pub are_headers_allowed_iff :
    (cfg : CorsConfig) (value : Text)
    → (are_headers_allowed (new_cors_policy cfg) (parse_access_control_request_headers value)
        ≡ true)
      ↔ AreHeaders cfg value
unfolding are_headers_allowed new_cors_policy normalize_headers parse_access_control_request_headers
are_headers_allowed_iff cfg value =
    let asked = map canonical_header_key (kept trim_space (split_at b',' value)) in
    ground (
      arith,
      is_member-kept trim_space cfg.allowed_headers any_text,
      all_in-pieces cfg (split_at b',' value),
      no_headers (header_set (kept trim_space cfg.allowed_headers)) asked,
    )
