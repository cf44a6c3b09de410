-- ===== src/Ethereum/Retries.antt =====
-- How a round trip of the retrying transport ends.
use blob_indexer_api.Common.{
  ℕ, zero, suc, ◌+◌, ◌-◌, ◌≤◌, ◌≡◌, ◌≢◌, refl, ◌∙◌, ap, ◌⊎◌, inl, inr, ◌&&◌, ◌||◌, not, ltb, ◌==◌,
  Option, none, some, arith, Option-cases, by_test,
}
use blob_indexer_api.Common.Int.{ℤ, pos}
use blob_indexer_api.Common.Text.{Text}
use blob_indexer_api.Ethereum.{
  Attempt, Result, failed, nothing, response, Trip, too_many_requests, push_backoff, backoff_of,
  attempts, round_trip,
}

-- The last request that was sent got this status.
abbrev pub Answered : (ℕ → Attempt) → ℕ → ℕ → Type 0
Answered env sent status = (header : Text) × ((env (sent - 1)).reply ≡ some (status, header))

-- The three ends: an error, the status of the last request, which is a refusal only if no attempt was
-- left, and nothing where no attempt was allowed.
pub data IsEnd (env : ℕ → Attempt) (allowed : ℕ) (requests : ℕ) : Result → Type 0 where
  by_error : IsEnd env allowed requests failed
  by_status :
      (status : ℕ)
      → Answered env requests status
      → (status ≢ too_many_requests) ⊎ (requests ≡ allowed)
      → IsEnd env allowed requests (response status)
  without_attempt : allowed ≡ 0 → IsEnd env allowed requests nothing

pub record IsOver (env : ℕ → Attempt) (allowed until : ℕ) (t : Trip) : Type 0 where
  pub few : t.requests ≤ allowed
  pub later : until ≤ t.backoff_until
  pub end : IsEnd env allowed t.requests t.result

-- What is known of the last response when `sent` requests were sent.
abbrev Last : (ℕ → Attempt) → ℕ → Option ℕ → Type 0
Last env sent none = sent ≡ 0
Last env sent (some status) = Answered env sent status

module _ (parse_time : Text → Option ℕ) (initial : ℕ) (env : ℕ → Attempt) (allowed : ℕ) where
  push_backoff-le : (now : ℕ) (b : ℤ) (until : ℕ) → until ≤ push_backoff parse_time now b until
  unfolding push_backoff
  push_backoff-le now b until = ground arith

  weaken : {u u' : ℕ} (t : Trip) → u ≤ u' → IsOver env allowed u' t → IsOver env allowed u t
  weaken t h o = record { few = o.few; later = omega (arith, h, o.later); end = o.end }

  there :
      (sent status : ℕ) (header : Text)
      → (env sent).reply ≡ some (status, header)
      → Answered env (sent + 1) status
  there sent status header e =
      let before : sent + 1 - 1 ≡ sent = omega arith in (header, ap (λ i. (env i).reply) before ∙ e)

  attempts-IsOver :
      (left sent : ℕ) (last : Option ℕ) (until : ℕ)
      → sent + left ≡ allowed
      → Last env sent last
      → IsOver env allowed until (attempts parse_time left sent initial env last until sent)
  unfolding attempts
  attempts-IsOver zero sent none until e h = record {
    few = omega arith;
    later = omega arith;
    end = without_attempt (omega arith);
  }
  attempts-IsOver zero sent (some status) until e h = record {
    few = omega arith;
    later = omega arith;
    end = by_status status h (inr (omega arith));
  }
  attempts-IsOver (suc left) sent last until e h =
      by_test (IsOver env allowed until)
        (ltb (env sent).start until && (env sent).cancelled_waiting || (env sent).limiter_fails) _ _
        (λ _. record { few = omega arith; later = omega arith; end = by_error })
        (λ _. elim (Option-cases (env sent).reply) [
          | inl e' ↦ rw e' (record { few = omega arith; later = omega arith; end = by_error })
          | inr ((status, header), e') ↦
              let a = env sent in
              let backoff = backoff_of parse_time initial sent a header in
              let until' = push_backoff parse_time a.received backoff until in
              let moved : until ≤ until' = push_backoff-le a.received backoff until in
              let answered = there sent status header e' in
              rw e' (
                by_test (IsOver env allowed until) (not (status == too_many_requests)) _ _
                  (λ other. record {
                    few = omega arith;
                    later = omega arith;
                    end = by_status status answered (inl (ground (arith, other)));
                  })
                  (λ _.
                    by_test (IsOver env allowed until) (ltb 0 left && a.cancelled_pausing) _ _
                      (λ _. record { few = omega arith; later = moved; end = by_error })
                      (λ _. weaken _ moved (
                        attempts-IsOver left (sent + 1) (some status) until' (omega arith)
                          answered))))
        ])

-- A round trip with a number of retries that is not negative sends no more requests than one and its
-- retries, never moves the shared time of the backoff back, and ends with an error or with the status
-- of the last request that it sent; it gives a refusal back only when every retry was used.
pub round_trip-IsOver :
    (parse_time : Text → Option ℕ) (max_retries initial : ℕ) (env : ℕ → Attempt) (until : ℕ)
    → IsOver env (suc max_retries) until (round_trip parse_time (pos max_retries) initial env until)
unfolding round_trip
round_trip-IsOver parse_time max_retries initial env until =
    attempts-IsOver parse_time initial env (suc max_retries) (suc max_retries) 0 none until
      (omega arith) refl
