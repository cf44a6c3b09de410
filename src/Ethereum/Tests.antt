-- ===== src/Ethereum/Tests.antt =====
-- A node that refuses twice and then answers, and one that refuses always.
use blob_indexer_api.Common.{ℕ, zero, suc, ◌≡◌, refl, false, none, some, Option}
use blob_indexer_api.Common.Int.{pos, to_int64}
use blob_indexer_api.Common.Text.{Text, codes}
use blob_indexer_api.Ethereum.{
  Attempt, response, round_trip, retry_seconds, too_many_requests, default_backoff,
}
use blob_indexer_api.Ethereum.Retries.{IsOver, round_trip-IsOver}

abbrev no_date : Text → Option ℕ
no_date t = none

abbrev replied : ℕ → ℕ → Text → Attempt
replied time status header = record {
  start = time;
  cancelled_waiting = false;
  limiter_fails = false;
  reply = some (status, header);
  received = time;
  cancelled_pausing = false;
}

refuses_twice : ℕ → Attempt
refuses_twice zero = replied 10 too_many_requests (codes "2")
refuses_twice (suc zero) = replied 3_000_000_000 too_many_requests (codes "")
refuses_twice (suc (suc n)) = replied 9_000_000_000 200 (codes "")

third_answers : (round_trip no_date (pos 3) 1_000_000_000 refuses_twice 0).result ≡ response 200
unfolding round_trip to_int64 retry_seconds refuses_twice
third_answers = refl

wraps : default_backoff 1_000_000_000 34 ≡ to_int64 17_179_869_184_000_000_000
unfolding default_backoff
wraps = refl

round_trip-IsOver_example :
    IsOver refuses_twice 4 0 (round_trip no_date (pos 3) 1_000_000_000 refuses_twice 0)
round_trip-IsOver_example = round_trip-IsOver no_date 3 1_000_000_000 refuses_twice 0
