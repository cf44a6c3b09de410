-- ===== src/Api/Cors/Constant.antt =====
-- A configuration with a single literal origin: the answers do not depend on who asks,
-- internal/api/cors.go.
use blob_indexer_api.Common.{
  ◌≡◌, ◌≢◌, sym, ◌∙◌, ap, ◌↔◌, true, false, not, if◌then◌else◌, subst, Bool-cases, inl, inr, [],
}
use blob_indexer_api.Common.Text.{Text, to_lower}
use blob_indexer_api.Api.Cors.{CorsConfig, new_cors_policy, is_origin_allowed}
use blob_indexer_api.Api.Cors.Answer.{Request, Headers, forwarded, is_preflight, cors_middleware}
use blob_indexer_api.Api.Cors.Pinned.{only_origin, pinned_answer, with_pinned-method}
use blob_indexer_api.Api.Cors.Requests.{IsPreflight, is_preflight_iff}
use blob_indexer_api.Api.Cors.Single.{SingleOrigin, pinned_of_single, single_not_blank}

not_preflight : (r : Request) → ¬ IsPreflight r → is_preflight r ≡ false
not_preflight r n = elim (Bool-cases (is_preflight r)) [
  | inl e ↦ absurd (n ((is_preflight_iff r).0 e))
  | inr e ↦ e
]

-- With a single literal origin, and neither a star nor a pattern configured, the policy allows exactly
-- that origin, in any case of letters, and the answers to any two requests that are no preflights
-- and have the same method carry the same headers, whatever their origins are.
pub cors_middleware_pinned :
    (cfg : CorsConfig) (k : Text) (r r' : Request) (h : Headers)
    → SingleOrigin cfg k
    → ¬ IsPreflight r
    → ¬ IsPreflight r'
    → r.method ≡ r'.method
    → ((o : Text) → (is_origin_allowed (new_cors_policy cfg) o ≡ true) ↔ (to_lower o ≡ to_lower k))
      × (cors_middleware (new_cors_policy cfg) r h ≡ cors_middleware (new_cors_policy cfg) r' h)
cors_middleware_pinned cfg k r r' h s e e' m =
    let p = new_cors_policy cfg in
    let is_k = pinned_of_single cfg k s in
    let n : p.pinned_origin ≢ [] = λ z. single_not_blank cfg k s (sym is_k ∙ z) in
    (
      λ o.
          subst (λ t. (is_origin_allowed p o ≡ true) ↔ (to_lower o ≡ to_lower t)) is_k
            (only_origin cfg o n),
      pinned_answer p r h n (not_preflight r e)
          ∙ (ap (λ x. if not p.enabled then forwarded h else forwarded x)
                (with_pinned-method p r r' h m)
              ∙ sym (pinned_answer p r' h n (not_preflight r' e'))),
    )
