-- ===== src/Api/RateLimit/Tests.antt =====
-- A limiter of two requests and one more for each unit of time.
use blob_indexer_api.Common.{
  ◌+◌, ◌*◌, ◌-◌, ◌≤◌, ◌≡◌, refl, false, some, List, [], ◌∷◌, string_discrete, arith,
}
use blob_indexer_api.Common.Maps.{lookup}
use blob_indexer_api.Api.RateLimit.{
  Visitor, RateLimiter, new_rate_limiter, Event, request, round, run,
}
use blob_indexer_api.Api.RateLimit.Bounded.{IsValid, run-new-IsValid}
use blob_indexer_api.Api.RateLimit.Bucket.{allowed_in, last_time, allowed_in-le}

abbrev events : List Event
events = request 0 "a" ∷ request 1 "b" ∷ round 500 180 ∷ request 501 "a" ∷ []

run-new-IsValid_example : IsValid (run events (new_rate_limiter 10 10 2))
run-new-IsValid_example = run-new-IsValid 10 10 2 events

abbrev after_first : RateLimiter
after_first = run (request 0 "a" ∷ []) (new_rate_limiter 10 10 2)

abbrev fresh : Visitor
fresh = record { tokens = 10; last_seen = 0 }

one_left : lookup string_discrete "a" after_first.visitors ≡ some fresh
unfolding run new_rate_limiter string_discrete
one_left = refl

enabled : after_first.disabled ≡ false
unfolding run new_rate_limiter
enabled = refl

two_of_four : allowed_in "a" (0 ∷ 0 ∷ 1 ∷ 1 ∷ []) after_first ≡ 2
unfolding allowed_in run new_rate_limiter string_discrete
two_of_four = refl

allowed_in-le_example :
    allowed_in "a" (0 ∷ 0 ∷ 1 ∷ 1 ∷ []) after_first * after_first.token
    ≤ after_first.burst * after_first.token
      + (last_time 0 (0 ∷ 0 ∷ 1 ∷ 1 ∷ []) - 0) * after_first.rate
allowed_in-le_example =
    allowed_in-le "a" (0 ∷ 0 ∷ 1 ∷ 1 ∷ []) after_first fresh
      (run-new-IsValid 10 10 2 (request 0 "a" ∷ [])) enabled one_left
      (omega arith, (omega arith, (omega arith, (omega arith, tt))))
