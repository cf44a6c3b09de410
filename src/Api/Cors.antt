-- ===== src/Api/Cors.antt =====
-- The CORS middleware, internal/api/cors.go. A request is the headers that the middleware reads, and
-- the answer those that it writes and whether the next handler runs.
pub mod Origins
pub mod Answer
pub mod Permitted
pub mod Pinned
pub mod Single
pub mod Requests
pub mod Constant
mod Tests
use blob_indexer_api.Common.{
  ℕ, Bool, true, false, ◌&&◌, ◌||◌, not, if◌then◌else◌, leb, Option, none, some, List, [], ◌∷◌,
  ◌++◌, map, length, ◌==◌,
}
use blob_indexer_api.Common.Int.{ℤ, pos, ltb_ℤ}
use blob_indexer_api.Common.Text.{
  Text, codes, text_is, is_member, to_lower, to_upper, upper_char, lower_char, trim_space, split_at,
  join_comma,
}
use blob_indexer_api.Api.Wildcard.{is_empty, wildcard_match}

pub record CorsConfig : Type 0 where
  pub enabled : Bool
  pub allowed_origins : List Text
  pub allowed_origin_patterns : List Text
  pub allow_all_origins : Bool
  pub allowed_methods : List Text
  pub allowed_headers : List Text
  pub exposed_headers : List Text
  pub allow_credentials : Bool
  pub max_age_seconds : ℤ

pub record Policy : Type 0 where
  pub enabled : Bool
  pub allowed_origins : List Text
  pub allowed_origin_patterns : List Text
  pub allow_all_origins : Bool
  pub allowed_methods : List Text
  pub allowed_method_set : List Text
  pub allowed_headers : List Text
  pub allowed_header_set : List Text
  pub allowed_headers_all : Bool
  pub exposed_headers : List Text
  pub allow_credentials : Bool
  pub max_age_seconds : ℤ
  pub pinned_origin : Text

-- The loop that the three normalisations share: the values that a mapping leaves, if not empty.
unfoldable pub kept : (Text → Text) → List Text → List Text
kept f [] = []
kept f (t ∷ ts) = let rest = kept f ts in if is_empty (f t) then rest else f t ∷ rest

unfoldable pub normalize_origin_patterns : List Text → List Text
unfolding kept
normalize_origin_patterns = kept (λ t. to_lower (trim_space t))

unfoldable pub normalize_methods : List Text → List Text
unfolding kept
normalize_methods = kept (λ t. to_upper (trim_space t))

unfoldable pub normalize_headers : List Text → List Text
unfolding kept
normalize_headers = kept trim_space

-- A new key of a map to empty structs.
unfoldable pub add_member : Text → List Text → List Text
unfolding is_member
add_member a set = if is_member set a then set else a ∷ set

-- What the loop over the configured origins has found.
pub record OriginScan : Type 0 where
  pub all : Bool
  pub literals : List Text
  pub first_literal : Text

abbrev pub any_text : Text
any_text = codes "*"

unfoldable pub add_origin : Text → OriginScan → OriginScan
unfolding add_member
add_origin origin o =
    if is_empty origin
    then o
    else if text_is origin any_text
    then record o { all = true }
    else record o {
      literals = add_member (to_lower origin) o.literals;
      first_literal = if is_empty o.first_literal then origin else o.first_literal;
    }

unfoldable pub read_origins : List Text → OriginScan → OriginScan
unfolding add_origin trim_space
read_origins [] o = o
read_origins (t ∷ ts) o = read_origins ts (add_origin (trim_space t) o)

-- The characters of a token, of which `http.CanonicalHeaderKey` wants every header name to consist.
is_token_char : ℕ → Bool
is_token_char c =
    leb b'a' c && leb c b'z'
    || (leb b'A' c && leb c b'Z'
        || (leb b'0' c && leb c b'9'
            || is_member (map (λ x. x ∷ []) (codes "!#$%&'*+-.^_`|~")) (c ∷ [])))

is_token : Text → Bool
unfolding is_token_char
is_token [] = true
is_token (c ∷ t) = is_token_char c && is_token t

canonical_from : Bool → Text → Text
canonical_from up [] = []
canonical_from up (c ∷ t) =
    (if up then upper_char c else lower_char c) ∷ canonical_from (c == b'-') t

unfoldable pub canonical_header_key : Text → Text
unfolding is_token canonical_from
canonical_header_key t = if is_token t then canonical_from true t else t

-- The headers that the loop puts in the set: all but the star.
unfoldable pub header_set : List Text → List Text
unfolding add_member
header_set [] = []
header_set (h ∷ hs) =
    let rest = header_set hs in
    if text_is h any_text then rest else add_member (canonical_header_key h) rest

unfoldable pub new_cors_policy : CorsConfig → Policy
unfolding normalize_origin_patterns normalize_methods normalize_headers read_origins header_set
new_cors_policy cfg =
    let patterns = normalize_origin_patterns cfg.allowed_origin_patterns in
    let methods = normalize_methods cfg.allowed_methods in
    let headers = normalize_headers cfg.allowed_headers in
    let origins : OriginScan =
      read_origins cfg.allowed_origins
        (record { all = cfg.allow_all_origins; literals = []; first_literal = [] }) in
    record {
      enabled = cfg.enabled;
      allowed_origins = origins.literals;
      allowed_origin_patterns = patterns;
      allow_all_origins = origins.all;
      allowed_methods = methods;
      allowed_method_set = methods;
      allowed_headers = headers;
      allowed_header_set = header_set headers;
      allowed_headers_all = is_member headers any_text;
      exposed_headers = normalize_headers cfg.exposed_headers;
      allow_credentials = cfg.allow_credentials;
      max_age_seconds = cfg.max_age_seconds;
      pinned_origin =
          if not origins.all && (length origins.literals == 1 && length patterns == 0)
          then origins.first_literal
          else [];
    }

unfoldable pub matches_any : List Text → Text → Bool
unfolding wildcard_match
matches_any [] origin = false
matches_any (p ∷ ps) origin =
    let rest = matches_any ps origin in if wildcard_match p origin then true else rest

unfoldable pub is_origin_allowed : Policy → Text → Bool
unfolding is_member matches_any to_lower
is_origin_allowed p origin =
    if is_empty origin
    then false
    else if p.allow_all_origins
    then true
    else if is_member p.allowed_origins (to_lower origin)
    then true
    else matches_any p.allowed_origin_patterns (to_lower origin)

unfoldable pub is_method_allowed : Policy → Text → Bool
unfolding is_member to_upper trim_space
is_method_allowed p method =
    let m = to_upper (trim_space method) in
    if is_empty m
    then false
    else if is_member p.allowed_method_set any_text
    then true
    else is_member p.allowed_method_set m

all_in : List Text → List Text → Bool
unfolding is_member
all_in set [] = true
all_in set (h ∷ hs) = is_member set (canonical_header_key h) && all_in set hs

unfoldable pub are_headers_allowed : Policy → List Text → Bool
unfolding all_in
are_headers_allowed p headers =
    if p.allowed_headers_all || length headers == 0
    then true
    else all_in p.allowed_header_set headers

unfoldable pub parse_access_control_request_headers : Text → List Text
unfolding kept
parse_access_control_request_headers value =
    map canonical_header_key (kept trim_space (split_at b',' value))
