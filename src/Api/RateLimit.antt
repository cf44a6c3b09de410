-- ===== src/Api/RateLimit.antt =====
-- The rate limiter of the API, internal/api/ratelimit.go: a bounded table of token buckets with the
-- order of their last use. Time is a number, `token` is what one request costs, and `rate` what a
-- bucket gains in one unit of time, so that a rate may be any fraction.
pub mod Table
pub mod Bucket
pub mod Bounded
mod Tests
use blob_indexer_api.Common.{
  ℕ, ◌+◌, ◌-◌, ◌*◌, Bool, true, false, not, ◌&&◌, ◌||◌, if◌then◌else◌, ltb, leb, ◌==◌, min, is_some,
  Option, none, some, List, [], ◌∷◌, length, String, string_discrete, ite,
}
use blob_indexer_api.Common.Maps.{lookup, insert, delete}

pub record Visitor : Type 0 where
  pub tokens : ℕ
  pub last_seen : ℕ

-- A bound of 0 is none. The order of use has the most recent visitor first.
pub record RateLimiter : Type 0 where
  pub visitors : List (String × Visitor)
  pub lru : List String
  pub token : ℕ
  pub rate : ℕ
  pub burst : ℕ
  pub max_visitors : ℕ
  pub disabled : Bool

abbrev pub default_max_visitors : ℕ
default_max_visitors = 100_000

unfoldable pub new_rate_limiter : ℕ → ℕ → ℕ → RateLimiter
new_rate_limiter token rate burst = record {
  visitors = [];
  lru = [];
  token = token;
  rate = rate;
  burst = burst;
  max_visitors = default_max_visitors;
  disabled = rate == 0 || burst == 0;
}

-- `list.Remove` of the element of a visitor.
unfoldable pub unlink : String → List String → List String
unlink ip [] = []
unlink ip (x ∷ xs) = let rest = unlink ip xs in ite (string_discrete x ip) xs (x ∷ rest)

unfoldable pub back : List String → Option String
back [] = none
back (x ∷ []) = some x
back (x ∷ y ∷ xs) = back (y ∷ xs)

-- `list.Remove` of the last element.
unfoldable pub drop_back : List String → List String
drop_back [] = []
drop_back (x ∷ []) = []
drop_back (x ∷ y ∷ xs) = x ∷ drop_back (y ∷ xs)

unfoldable pub evict_if_full : RateLimiter → RateLimiter
unfolding back drop_back delete
evict_if_full rl =
    if rl.max_visitors == 0 || ltb (length rl.visitors) rl.max_visitors
    then rl
    else elim (back rl.lru) [
      | none ↦ rl
      | some ip ↦ record rl {
        visitors = delete string_discrete ip rl.visitors;
        lru = drop_back rl.lru;
      }
    ]

-- The first request of an address.
unfoldable pub admit_new : ℕ → String → RateLimiter → RateLimiter
unfolding insert
admit_new now ip rl = record rl {
  visitors =
      insert string_discrete ip (record { tokens = (rl.burst - 1) * rl.token; last_seen = now })
        rl.visitors;
  lru = ip ∷ rl.lru;
}

unfoldable pub replenished : ℕ → RateLimiter → Visitor → ℕ
replenished now rl v =
    let tokens = v.tokens + (now - v.last_seen) * rl.rate in
    if ltb (rl.burst * rl.token) tokens then rl.burst * rl.token else tokens

-- A visitor's bucket after a request, and whether the request is allowed.
unfoldable pub spend : ℕ → RateLimiter → Visitor → Visitor × Bool
unfolding replenished
spend now rl v =
    let tokens = replenished now rl v in
    if ltb tokens rl.token
    then (record { tokens = tokens; last_seen = now }, false)
    else (record { tokens = tokens - rl.token; last_seen = now }, true)

unfoldable pub use_visitor : ℕ → String → Visitor → RateLimiter → RateLimiter × Bool
unfolding spend insert unlink
use_visitor now ip v rl =
    let (v', ok) = spend now rl v in
    (
      record rl {
        visitors = insert string_discrete ip v' rl.visitors;
        lru = ip ∷ unlink ip rl.lru;
      },
      ok,
    )

unfoldable pub allow_one : ℕ → String → RateLimiter → Option Visitor → RateLimiter × Bool
unfolding evict_if_full admit_new use_visitor
allow_one now ip rl none = (admit_new now ip (evict_if_full rl), true)
allow_one now ip rl (some v) = use_visitor now ip v rl

unfoldable pub allow : ℕ → String → RateLimiter → RateLimiter × Bool
unfolding lookup allow_one
allow now ip rl =
    if rl.disabled then (rl, true) else allow_one now ip rl (lookup string_discrete ip rl.visitors)

-- The visitors that a round of `cleanup` finds idle, and their removal.
unfoldable pub idle : ℕ → ℕ → List (String × Visitor) → List String
idle now limit [] = []
idle now limit ((ip, v) ∷ m) =
    let rest = idle now limit m in if ltb limit (now - v.last_seen) then ip ∷ rest else rest

unfoldable pub forget : String → RateLimiter → RateLimiter
unfolding delete unlink
forget ip rl = record rl {
  visitors = delete string_discrete ip rl.visitors;
  lru = unlink ip rl.lru;
}

unfoldable pub forget_all : List String → RateLimiter → RateLimiter
unfolding forget
forget_all [] rl = rl
forget_all (ip ∷ ips) rl = forget_all ips (forget ip rl)

unfoldable pub cleanup : ℕ → ℕ → RateLimiter → RateLimiter
unfolding idle forget_all
cleanup now three_minutes rl = forget_all (idle now three_minutes rl.visitors) rl

-- What happens to the limiter: a request of an address, or a round of the cleanup.
pub data Event : Type 0 where
  request : ℕ → String → Event
  round : ℕ → ℕ → Event

unfoldable pub run : List Event → RateLimiter → RateLimiter
unfolding allow cleanup
run [] rl = rl
run (request now ip ∷ es) rl = run es (allow now ip rl).0
run (round now limit ∷ es) rl = run es (cleanup now limit rl)
