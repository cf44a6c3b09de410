-- ===== src/Api/RateLimit/Bucket.antt =====
-- What a bucket lets through over time.
use blob_indexer_api.Common.{
  ℕ, ◌+◌, ◌*◌, ◌-◌, ◌≤◌, ◌≡◌, refl, sym, ◌∙◌, ap, subst, false, some, List, [], ◌∷◌, String,
  string_discrete, arith, if_false,
}
use blob_indexer_api.Common.Maps.{lookup, insert, lookup-insert}
use blob_indexer_api.Api.RateLimit.{
  Visitor, RateLimiter, replenished, spend, use_visitor, allow_one, allow,
}
use blob_indexer_api.Api.RateLimit.Table.{one_if, lookup-All}
use blob_indexer_api.Api.RateLimit.Bounded.{IsValid}

-- How many of the requests of one address, at the given times, are allowed.
unfoldable pub allowed_in : String → List ℕ → RateLimiter → ℕ
unfolding allow
allowed_in ip [] rl = 0
allowed_in ip (now ∷ ts) rl = one_if (allow now ip rl).1 + allowed_in ip ts (allow now ip rl).0

abbrev pub Ascending : ℕ → List ℕ → Type 0
Ascending t [] = Unit
Ascending t (u ∷ ts) = (t ≤ u) × Ascending u ts

abbrev pub last_time : ℕ → List ℕ → ℕ
last_time t [] = t
last_time t (u ∷ ts) = last_time u ts

last_time-le : (t : ℕ) (ts : List ℕ) → Ascending t ts → t ≤ last_time t ts
last_time-le t [] h = omega arith
last_time-le t (u ∷ ts) h = omega (arith, last_time-le u ts h.1, h.0)

-- What a request takes out of the bucket was in it, or came in since the last request.
spend-le :
    (now : ℕ) (rl : RateLimiter) (v : Visitor)
    → (spend now rl v).0.tokens + one_if (spend now rl v).1 * rl.token
      ≤ v.tokens + (now - v.last_seen) * rl.rate
unfolding spend replenished
spend-le now rl v = ground arith

spend-last_seen : (now : ℕ) (rl : RateLimiter) (v : Visitor) → (spend now rl v).0.last_seen ≡ now
unfolding spend
spend-last_seen now rl v = ground arith

allow_known :
    (now : ℕ) (ip : String) (rl : RateLimiter) (v : Visitor)
    → rl.disabled ≡ false
    → lookup string_discrete ip rl.visitors ≡ some v
    → allow now ip rl ≡ use_visitor now ip v rl
unfolding allow allow_one
allow_known now ip rl v e known = if_false _ _ e ∙ ap (allow_one now ip rl) known

distribute : (a b r : ℕ) → (a + b) * r ≡ a * r + b * r
distribute a b r = omega arith

spans : (a b c r : ℕ) → a ≤ b → b ≤ c → (c - a) * r ≡ (b - a) * r + (c - b) * r
spans a b c r h k =
    let e : c - a ≡ (b - a) + (c - b) = omega arith in
    ap (λ n. n * r) e ∙ distribute (b - a) (c - b) r

abbrev Spent : String → List ℕ → RateLimiter → Type 0
Spent ip ts rl =
    (v : Visitor)
    → rl.disabled ≡ false
    → lookup string_discrete ip rl.visitors ≡ some v
    → Ascending v.last_seen ts
    → allowed_in ip ts rl * rl.token ≤ v.tokens + (last_time v.last_seen ts - v.last_seen) * rl.rate

-- The requests behind one that the visitor makes.
Spent-later :
    (ip : String) (now : ℕ) (ts : List ℕ) (rl : RateLimiter) (v : Visitor)
    → Spent ip ts (use_visitor now ip v rl).0
    → rl.disabled ≡ false
    → Ascending now ts
    → allowed_in ip ts (use_visitor now ip v rl).0 * rl.token
      ≤ (spend now rl v).0.tokens + (last_time now ts - now) * rl.rate
unfolding use_visitor
Spent-later ip now ts rl v later e h =
    let v' = (spend now rl v).0 in
    let seen : v'.last_seen ≡ now = spend-last_seen now rl v in
    subst
      (λ t.
        allowed_in ip ts (use_visitor now ip v rl).0 * rl.token
        ≤ v'.tokens + (last_time t ts - t) * rl.rate)
      seen (later v' e (stored v') (subst (λ t. Ascending t ts) (sym seen) h))
  where
    stored :
        (w : Visitor) → lookup string_discrete ip (insert string_discrete ip w rl.visitors) ≡ some w
    stored w = ground (arith, lookup-insert string_discrete ip ip w rl.visitors)

use_visitor-answer :
    (now : ℕ) (ip : String) (v : Visitor) (rl : RateLimiter)
    → (use_visitor now ip v rl).1 ≡ (spend now rl v).1
unfolding use_visitor
use_visitor-answer now ip v rl = refl

allowed-tokens : (ip : String) (ts : List ℕ) (rl : RateLimiter) → Spent ip ts rl
unfolding allowed_in
allowed-tokens ip [] rl v e known h = omega arith
allowed-tokens ip (now ∷ ts) rl v e known h =
    subst
      (λ x.
        (one_if x.1 + allowed_in ip ts x.0) * rl.token
        ≤ v.tokens + (last_time now ts - v.last_seen) * rl.rate)
      (sym (allow_known now ip rl v e known))
      (omega (
        arith,
        distribute (one_if (use_visitor now ip v rl).1)
            (allowed_in ip ts (use_visitor now ip v rl).0) rl.token,
        ap (λ b. one_if b * rl.token) (use_visitor-answer now ip v rl),
        Spent-later ip now ts rl v (allowed-tokens ip ts (use_visitor now ip v rl).0) e h.1,
        spend-le now rl v,
        spans v.last_seen now (last_time now ts) rl.rate h.0 (last_time-le now ts h.1),
      ))

-- Of the requests that a known visitor makes one after another, the limiter allows no more than fit
-- into a full bucket and what comes in from the visitor's last request to the last of these.
pub allowed_in-le :
    (ip : String) (ts : List ℕ) (rl : RateLimiter) (v : Visitor)
    → IsValid rl
    → rl.disabled ≡ false
    → lookup string_discrete ip rl.visitors ≡ some v
    → Ascending v.last_seen ts
    → allowed_in ip ts rl * rl.token
      ≤ rl.burst * rl.token + (last_time v.last_seen ts - v.last_seen) * rl.rate
allowed_in-le ip ts rl v i e known h = omega (
  arith,
  allowed-tokens ip ts rl v e known h,
  lookup-All (λ v. v.tokens ≤ rl.burst * rl.token) ip rl.visitors v i.buckets known,
)
