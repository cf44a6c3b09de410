-- ===== src/Api/Cors/Permitted.antt =====
-- When an answer of the CORS middleware names an origin, and which, internal/api/cors.go.
use blob_indexer_api.Common.{◌≡◌, ◌≢◌, false, Option, none, some, []}
use blob_indexer_api.Common.Text.{Text, trim_space}
use blob_indexer_api.Api.Cors.{CorsConfig}
use blob_indexer_api.Api.Cors.Answer.{Request, Headers, Answer, no_content, forwarded}
use blob_indexer_api.Api.Cors.Origins.{IsConfigured}
use blob_indexer_api.Api.Cors.Single.{SingleOrigin}
use blob_indexer_api.Api.Cors.Requests.{IsPreflight, IsMethod, AreHeaders}

abbrev pub headers_of : Answer → Headers
headers_of (no_content h) = h
headers_of (forwarded h) = h

-- The origin of a request is given and configured.
abbrev pub FromConfigured : CorsConfig → Request → Type 0
FromConfigured cfg r = (trim_space r.origin ≢ []) × IsConfigured cfg (trim_space r.origin)

-- The preflight asks for nothing that is not configured.
abbrev pub MayProceed : CorsConfig → Request → Type 0
MayProceed cfg r =
    FromConfigured cfg r
    × IsMethod cfg (trim_space r.request_method)
    × AreHeaders cfg r.request_headers

-- The origin that an answer names, by what the configuration says of the request.
pub data IsPermitted (cfg : CorsConfig) (r : Request) : Option Text → Type 0 where
  disabled : cfg.enabled ≡ false → IsPermitted cfg r none
  preflight_allowed :
      IsPreflight r → MayProceed cfg r → IsPermitted cfg r (some (trim_space r.origin))
  preflight_refused : IsPreflight r → ¬ MayProceed cfg r → IsPermitted cfg r none
  only_origin :
      (k : Text)
      → ¬ IsPreflight r
      → SingleOrigin cfg k
      → IsMethod cfg r.method
      → IsPermitted cfg r (some k)
  only_origin_refused :
      (k : Text)
      → ¬ IsPreflight r
      → SingleOrigin cfg k
      → ¬ IsMethod cfg r.method
      → IsPermitted cfg r none
  own_origin :
      ¬ IsPreflight r
      → ((k : Text) → ¬ SingleOrigin cfg k)
      → FromConfigured cfg r
      → IsMethod cfg r.method
      → IsPermitted cfg r (some (trim_space r.origin))
  own_origin_refused :
      ¬ IsPreflight r
      → ((k : Text) → ¬ SingleOrigin cfg k)
      → ¬ (FromConfigured cfg r × IsMethod cfg r.method)
      → IsPermitted cfg r none
