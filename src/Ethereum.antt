-- ===== src/Ethereum.antt =====
-- The clients of nodes, internal/ethereum: the transport that retries throttled requests, of
-- ratelimit.go. What each attempt meets is an argument: the clock, the end of the caller's context,
-- the limiter, the reply, and how `http.ParseTime` reads a date.
pub mod Retries
mod Tests
use blob_indexer_api.Common.{
  ℕ, zero, suc, ◌+◌, ◌-◌, ◌*◌, ◌%◌, ◌^◌, Bool, true, false, ◌&&◌, ◌||◌, not, if◌then◌else◌, ltb,
  leb, ◌==◌, Option, none, some, List, [], ◌∷◌, max,
}
use blob_indexer_api.Common.Int.{ℤ, pos, negsuc, pos_part, neg_part, ltb_ℤ, ◌+ℤ◌, to_int64}
use blob_indexer_api.Common.Text.{Text, digits_value}

-- `initialBackoff * (1 << attempt)`
unfoldable pub default_backoff : ℕ → ℕ → ℤ
unfolding to_int64
default_backoff initial attempt = to_int64 (initial * 2 ^ attempt)

positive_value : Text → Option ℕ
unfolding digits_value
positive_value [] = none
positive_value (c ∷ t) = if c == b'+' then nonempty_value t else digits_value 0 (c ∷ t)
  where
    nonempty_value : Text → Option ℕ
    nonempty_value [] = none
    nonempty_value (d ∷ u) = digits_value 0 (d ∷ u)

-- The seconds of the header if it is a positive `int`.
unfoldable pub retry_seconds : Text → Option ℕ
unfolding positive_value
retry_seconds t = elim (positive_value t) [
  | none ↦ none
  | some n ↦ if ltb 0 n && ltb n (2 ^ 63) then some n else none
]

abbrev second : ℕ
second = 1_000_000_000

-- What one attempt meets.
pub record Attempt : Type 0 where
  -- when the attempt starts, and whether the context ends while it waits
  pub start : ℕ
  pub cancelled_waiting : Bool
  pub limiter_fails : Bool
  pub reply : Option (ℕ × Text)
  -- when the reply is there, and whether the context ends in the pause behind it
  pub received : ℕ
  pub cancelled_pausing : Bool

-- An error, no response at all, or a response with its status.
pub data Result : Type 0 where
  failed nothing : Result
  response : ℕ → Result

pub record Trip : Type 0 where
  pub backoff_until : ℕ
  pub requests : ℕ
  pub result : Result

abbrev pub too_many_requests : ℕ
too_many_requests = 429

module _ (parse_time : Text → Option ℕ) where
  -- The time that a date leaves, if any.
  until_date : ℕ → Option ℕ → ℤ → ℤ
  until_date now none fallback = fallback
  until_date now (some t) fallback = if ltb now t then pos (t - now) else fallback

  unfoldable pub parse_retry_after : ℕ → Text → ℤ → ℤ
  unfolding retry_seconds until_date to_int64
  parse_retry_after now [] fallback = fallback
  parse_retry_after now (c ∷ t) fallback = elim (retry_seconds (c ∷ t)) [
    | some n ↦ to_int64 (n * second)
    | none ↦ until_date now (parse_time (c ∷ t)) fallback
  ]

  -- The shared time before which nothing is sent, moved on by a backoff.
  unfoldable pub push_backoff : ℕ → ℤ → ℕ → ℕ
  push_backoff now backoff until =
      if ltb_ℤ (pos until) (pos now +ℤ backoff) then pos_part (pos now +ℤ backoff) else until

  unfoldable pub backoff_of : ℕ → ℕ → Attempt → Text → ℤ
  unfolding parse_retry_after default_backoff
  backoff_of initial attempt a header =
      parse_retry_after a.received header (default_backoff initial attempt)

  abbrev pub last_result : Option ℕ → Result
  last_result none = nothing
  last_result (some status) = response status

  -- The loop, with the attempts that are left.
  unfoldable pub attempts : ℕ → ℕ → ℕ → (ℕ → Attempt) → Option ℕ → ℕ → ℕ → Trip
  unfolding push_backoff backoff_of
  attempts zero attempt initial env last until sent = record {
    backoff_until = until;
    requests = sent;
    result = last_result last;
  }
  attempts (suc left) attempt initial env last until sent =
      let a = env attempt in
      if ltb a.start until && a.cancelled_waiting || a.limiter_fails
      then record { backoff_until = until; requests = sent; result = failed }
      else elim a.reply [
        | none ↦ record { backoff_until = until; requests = sent + 1; result = failed }
        | some (status, header) ↦
            let until' = push_backoff a.received (backoff_of initial attempt a header) until in
            let again = attempts left (attempt + 1) initial env (some status) until' (sent + 1) in
            if not (status == too_many_requests)
            then record { backoff_until = until; requests = sent + 1; result = response status }
            else if ltb 0 left && a.cancelled_pausing
            then record { backoff_until = until'; requests = sent + 1; result = failed }
            else again
      ]

  -- A negative number of retries makes no attempt.
  unfoldable pub round_trip : ℤ → ℕ → (ℕ → Attempt) → ℕ → Trip
  unfolding attempts
  round_trip (pos max_retries) initial env until =
      attempts (suc max_retries) 0 initial env none until 0
  round_trip (negsuc _) initial env until = attempts 0 0 initial env none until 0
