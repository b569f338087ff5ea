-- ===== src/Client/Waiting.antt =====
-- The time that `fetch_url` of src/client.rs waits between its attempts.
use anml_client_rust.Common.{
  ℕ, zero, suc, ◌+◌, ◌-◌, ◌≤◌, ◌&&◌, not, Option, none, some, List, [], All, length, ◌≡◌, refl, inl,
  inr, ltb, Text, text_eq, codes, arith, Bool-cases, Option-cases,
}
use anml_client_rust.Document.{AnmlDocument}
use anml_client_rust.Config.{origin_text}
use anml_client_rust.Config.Builder.{ClientConfig}
use anml_client_rust.Error.{AnmlClientError, timeout, Result, Result-cases}
use anml_client_rust.Client.Breaker.{CircuitBreaker, is_open}
use anml_client_rust.Client.Checks.{is_retryable_error}
use anml_client_rust.Client.Delay.{
  DelayFloats, RetryPolicy, delay_for_attempt, delay_for_attempt-le,
}
use anml_client_rust.Client.Fetch.{Web, HttpMiddleware, as_secs, execute_fetch}
use anml_client_rust.Client.Retries.{Fetched, slept, retry_loop, accept_header, fetch_url}

-- One delay for each attempt behind the first, each at most `most`; and no attempt too many.
pub record IsPatient (most max_retries : ℕ) (f : Fetched) : Type 0 where
  pub waits_le : All (λ d. d ≤ most) f.waits
  pub waits_length : length f.waits ≡ f.attempts - 1
  pub attempts_le : f.attempts ≤ suc max_retries

module _ (attempt_outcome : ℕ → Result AnmlDocument) (clock : ℕ → ℕ) (delay : ℕ → ℕ)
    (max_retries : ℕ) (origin : Text) (no_attempt : AnmlClientError) (most : ℕ)
    (bounded : (n : ℕ) → delay n ≤ most) where
  slept-le :
      (attempt : ℕ) (waits : List ℕ)
      → All (λ d. d ≤ most) waits
      → All (λ d. d ≤ most) (slept delay attempt waits)
  slept-le zero waits h = h
  slept-le (suc n) waits h = ground (arith, bounded (suc n - 1))

  length-slept :
      (attempt : ℕ) (waits : List ℕ)
      → length waits ≡ attempt - 1
      → length (slept delay attempt waits) ≡ suc attempt - 1
  length-slept zero waits h = omega (arith, h)
  length-slept (suc n) waits h = ground (arith, h)

  ends_here :
      (first : ℕ) (waits : List ℕ) (breaker : CircuitBreaker) (outcome : Result AnmlDocument)
      → suc first ≤ suc max_retries
      → All (λ d. d ≤ most) waits
      → length waits ≡ first - 1
      → IsPatient most max_retries (record {
        breaker = breaker;
        outcome = outcome;
        attempts = suc first;
        waits = slept delay first waits;
      })
  ends_here first waits breaker outcome h k n = record {
    waits_le = slept-le first waits k;
    waits_length = length-slept first waits n;
    attempts_le = h;
  }

  retry_loop-IsPatient :
      (rounds first : ℕ) (last_err : Option AnmlClientError) (waits : List ℕ)
      (breaker : CircuitBreaker)
      → first + rounds ≡ suc max_retries
      → All (λ d. d ≤ most) waits
      → length waits ≡ first - 1
      → IsPatient most max_retries (
          retry_loop attempt_outcome clock delay max_retries origin no_attempt rounds first last_err
            waits breaker)
  unfolding retry_loop
  retry_loop-IsPatient zero first last_err waits breaker h k n = record {
    waits_le = k;
    waits_length = n;
    attempts_le = omega (arith, h);
  }
  retry_loop-IsPatient (suc rounds) first last_err waits breaker h k n =
      elim (Result-cases (attempt_outcome first)) [
        | inl (doc, fetched) ↦
            rw (retry_loop, fetched) (ends_here first waits _ _ (omega (arith, h)) k n)
        | inr (e, failed) ↦ elim (Bool-cases (is_retryable_error e && ltb first max_retries)) [
          | inr stop ↦
              rw (retry_loop, failed, stop) (ends_here first waits _ _ (omega (arith, h)) k n)
          | inl again ↦
              rw (retry_loop, failed, again)
                (retry_loop-IsPatient rounds (suc first) (some e) (slept delay first waits) breaker
                  (omega (arith, h)) (slept-le first waits k) (length-slept first waits n))
        ]
      ]

refused-IsPatient :
    (most max_retries : ℕ) (f : Fetched)
    → f.waits ≡ []
    → f.attempts ≡ 0
    → IsPatient most max_retries f
refused-IsPatient most max_retries f w a = record {
  waits_le = rw w tt;
  waits_length = rw (w, a) refl;
  attempts_le = omega (arith, a);
}

module _ (floats : DelayFloats) (web : Web) (config : ClientConfig)
    (middleware : List HttpMiddleware) (policy : RetryPolicy) (clock : ℕ → ℕ) where
  -- A fetch makes at most one attempt more than the retries of the policy. It waits once before each
  -- attempt but the first, each time at most the greatest delay of the policy, whatever the arithmetic
  -- on floats yields.
  pub fetch_url-IsPatient :
      (now : ℕ) (url : Text) (breaker : CircuitBreaker)
      → IsPatient policy.max_delay policy.max_retries
          (fetch_url floats web config middleware policy clock now url breaker)
  unfolding fetch_url
  fetch_url-IsPatient now url breaker = elim (Option-cases (web.parse_url url)) [
    | inl failed ↦ rw (fetch_url, failed) (refused-IsPatient _ _ _ refl refl)
    | inr (parsed, p) ↦
        elim (Bool-cases
          (not (text_eq parsed.scheme (codes "https")) && not config.allow_plaintext_http)) [
            | inl plain ↦ rw (fetch_url, p, plain) (refused-IsPatient _ _ _ refl refl)
            | inr secure ↦ elim (Bool-cases (is_open now (origin_text parsed) breaker)) [
              | inl open_ ↦ rw (fetch_url, p, secure, open_) (refused-IsPatient _ _ _ refl refl)
              | inr closed ↦
                  rw (fetch_url, p, secure, closed)
                    (retry_loop-IsPatient
                      (λ attempt.
                        execute_fetch web config middleware attempt url accept_header parsed.scheme)
                      clock (delay_for_attempt floats policy) policy.max_retries
                      (origin_text parsed)
                      (timeout (codes "fetch") (as_secs config.timeouts.per_request))
                      policy.max_delay (delay_for_attempt-le floats policy) (suc policy.max_retries)
                      0 none [] breaker (omega arith) tt refl)
            ]
          ]
  ]
