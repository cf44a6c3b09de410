-- ===== src/Api/Cors/Answer.antt =====
-- The answer of the middleware: `addVary`, the preflight and the other requests.
use blob_indexer_api.Common.{
  Bool, true, ◌&&◌, not, if◌then◌else◌, Option, some, List, [], ◌∷◌, ◌++◌,
}
use blob_indexer_api.Common.Int.{ℤ, pos, ltb_ℤ}
use blob_indexer_api.Common.Text.{
  Text, codes, text_is, is_member, to_lower, trim_space, split_at, join_comma,
}
use blob_indexer_api.Api.Wildcard.{is_empty}
use blob_indexer_api.Api.Cors.{
  Policy, kept, is_origin_allowed, is_method_allowed, are_headers_allowed,
  parse_access_control_request_headers,
}

-- The headers of a request that the middleware reads; one that is absent is empty.
pub record Request : Type 0 where
  pub method : Text
  pub origin : Text
  pub request_method : Text
  pub request_headers : Text

-- The headers that it writes, each with its value; `vary` has the values of all lines.
pub record Headers : Type 0 where
  pub vary : List Text
  pub allow_origin : Option Text
  pub allow_credentials : Bool
  pub expose_headers : Option Text
  pub allow_methods : Option Text
  pub allow_headers : Option Text
  pub max_age : Option ℤ

-- An answer of its own without content, or the answer of the next handler, under the headers.
pub data Answer : Type 0 where
  no_content : Headers → Answer
  forwarded : Headers → Answer

unfoldable pub parts_of : List Text → List Text
unfolding kept trim_space split_at
parts_of [] = []
parts_of (line ∷ lines) = kept trim_space (split_at b',' line) ++ parts_of lines

-- The values that are not seen yet, in any case of letters, in their order.
unfoldable pub unseen : List Text → List Text → List Text
unfolding is_member to_lower
unseen seen [] = []
unseen seen (v ∷ vs) =
    let again = unseen seen vs in
    let fresh = unseen (to_lower v ∷ seen) vs in
    if is_member seen (to_lower v) then again else v ∷ fresh

vary_of : List Text → List Text → List Text
vary_of lines [] = lines
vary_of lines (v ∷ vs) = join_comma (v ∷ vs) ∷ []

unfoldable pub add_vary : List Text → Headers → Headers
unfolding parts_of unseen vary_of
add_vary values h = record h {
  vary = vary_of h.vary (unseen [] (parts_of h.vary ++ kept trim_space values));
}

unfoldable pub is_preflight : Request → Bool
unfolding trim_space
is_preflight r =
    text_is r.method (codes "OPTIONS")
    && (not (is_empty (trim_space r.origin)) && not (is_empty (trim_space r.request_method)))

unfoldable pub set_allowed_origin_headers : Policy → Text → Headers → Headers
set_allowed_origin_headers p origin h = record h {
  allow_origin = some origin;
  allow_credentials = if p.allow_credentials then true else h.allow_credentials;
}

abbrev listed : List Text → Option Text → Option Text
listed [] old = old
listed (t ∷ ts) old = some (join_comma (t ∷ ts))

unfoldable pub with_exposed : Policy → Headers → Headers
with_exposed p h = record h { expose_headers = listed p.exposed_headers h.expose_headers }

-- The headers of a preflight that is allowed.
unfoldable pub with_permissions : Policy → List Text → Headers → Headers
with_permissions p requested h = record h {
  allow_methods = listed p.allowed_methods h.allow_methods;
  allow_headers =
      if p.allowed_headers_all
      then some (join_comma requested)
      else listed p.allowed_headers h.allow_headers;
  max_age = if ltb_ℤ (pos 0) p.max_age_seconds then some p.max_age_seconds else h.max_age;
}

unfoldable pub permits_preflight : Policy → Request → Bool
unfolding is_origin_allowed is_method_allowed are_headers_allowed
    parse_access_control_request_headers
permits_preflight p r =
    is_origin_allowed p (trim_space r.origin)
    && (is_method_allowed p (trim_space r.request_method)
        && are_headers_allowed p (parse_access_control_request_headers r.request_headers))

unfoldable pub handle_preflight : Policy → Request → Headers → Headers
unfolding add_vary permits_preflight set_allowed_origin_headers with_permissions
handle_preflight p r h =
    let h' =
      add_vary
        (codes "Origin"
          ∷ codes "Access-Control-Request-Method"
          ∷ codes "Access-Control-Request-Headers"
          ∷ [])
        h in
    if permits_preflight p r
    then with_permissions p (parse_access_control_request_headers r.request_headers)
        (set_allowed_origin_headers p (trim_space r.origin) h')
    else h'

unfoldable pub with_pinned : Policy → Request → Headers → Headers
unfolding is_method_allowed set_allowed_origin_headers with_exposed
with_pinned p r h =
    if is_method_allowed p r.method
    then with_exposed p (set_allowed_origin_headers p p.pinned_origin h)
    else h

unfoldable pub with_origin : Policy → Request → Headers → Headers
unfolding is_origin_allowed is_method_allowed set_allowed_origin_headers with_exposed add_vary
with_origin p r h =
    let origin = trim_space r.origin in
    let h' = add_vary (codes "Origin" ∷ []) h in
    if is_empty origin
    then h
    else if is_origin_allowed p origin && is_method_allowed p r.method
    then with_exposed p (set_allowed_origin_headers p origin h')
    else h'

unfoldable pub cors_middleware : Policy → Request → Headers → Answer
unfolding is_preflight handle_preflight with_pinned with_origin
cors_middleware p r h =
    if not p.enabled
    then forwarded h
    else if is_preflight r
    then no_content (handle_preflight p r h)
    else if not (is_empty p.pinned_origin)
    then forwarded (with_pinned p r h)
    else forwarded (with_origin p r h)
