-- ===== src/Client/Retries.antt =====
-- `fetch_url` and `fetch` of src/client.rs: the checks before the first request, and the loop of
-- attempts with the delays between them and the circuit breaker.
use anml_client_rust.Common.{
  ℕ, zero, suc, ◌-◌, true, false, ◌&&◌, not, Option, none, some, List, [], ◌∷◌, ◌++◌, ltb,
  if◌then◌else◌, Text, text_eq, codes, starts_with, trim_end_matches,
}
use anml_client_rust.Document.{AnmlDocument}
use anml_client_rust.Config.{origin_text}
use anml_client_rust.Config.Builder.{ClientConfig}
use anml_client_rust.Error.{
  AnmlClientError, transport_insecure, malformed_document, timeout, Result, ok, err,
}
use anml_client_rust.Client.Breaker.{CircuitBreaker, is_open, record_success, record_failure}
use anml_client_rust.Client.Checks.{is_retryable_error}
use anml_client_rust.Client.Delay.{DelayFloats, RetryPolicy, delay_for_attempt}
use anml_client_rust.Client.Fetch.{Web, HttpMiddleware, as_secs, anml_content_type, execute_fetch}

-- What a fetch leaves: the breaker, the result, the number of attempts made, and the delay before
-- each of them but the first, the newest first.
pub record Fetched : Type 0 where
  pub breaker : CircuitBreaker
  pub outcome : Result AnmlDocument
  pub attempts : ℕ
  pub waits : List ℕ

-- The error behind the loop.
abbrev pub last_or : Option AnmlClientError → AnmlClientError → AnmlClientError
last_or none e = e
last_or (some last) e = last

-- The delays, with the one before this attempt.
abbrev pub slept : (ℕ → ℕ) → ℕ → List ℕ → List ℕ
slept delay attempt waits = if ltb 0 attempt then delay (attempt - 1) ∷ waits else waits

module _ (attempt_outcome : ℕ → Result AnmlDocument) (clock : ℕ → ℕ) (delay : ℕ → ℕ)
    (max_retries : ℕ) (origin : Text) (no_attempt : AnmlClientError) where
  -- The rounds that are left of `for attempt in 0..=max_retries`.
  unfoldable pub retry_loop : ℕ → ℕ → Option AnmlClientError → List ℕ → CircuitBreaker → Fetched
  retry_loop zero attempt last_err waits breaker = record {
    breaker = breaker;
    outcome = err (last_or last_err no_attempt);
    attempts = attempt;
    waits = waits;
  }
  retry_loop (suc rounds) attempt last_err waits breaker = elim (attempt_outcome attempt) [
    | ok doc ↦ record {
      breaker = record_success origin breaker;
      outcome = ok doc;
      attempts = suc attempt;
      waits = slept delay attempt waits;
    }
    | err e ↦ elim (is_retryable_error e && ltb attempt max_retries) [
      | true ↦ retry_loop rounds (suc attempt) (some e) (slept delay attempt waits) breaker
      | false ↦ record {
        breaker =
            if is_retryable_error e then record_failure (clock attempt) origin breaker else breaker;
        outcome = err e;
        attempts = suc attempt;
        waits = slept delay attempt waits;
      }
    ]
  ]

abbrev pub accept_header : Text
accept_header = anml_content_type ++ codes "; version=\"1.0\""

module _ (floats : DelayFloats) (web : Web) (config : ClientConfig)
    (middleware : List HttpMiddleware) (policy : RetryPolicy) (clock : ℕ → ℕ) where
  -- Nothing is sent.
  abbrev pub refused : CircuitBreaker → AnmlClientError → Fetched
  refused breaker e = record { breaker = breaker; outcome = err e; attempts = 0; waits = [] }

  unfoldable pub fetch_url : ℕ → Text → CircuitBreaker → Fetched
  unfolding retry_loop
  fetch_url now url breaker = elim (web.parse_url url) [
    | none ↦ refused breaker malformed_document
    | some parsed ↦
        elim (not (text_eq parsed.scheme (codes "https")) && not config.allow_plaintext_http) [
          | true ↦ refused breaker (transport_insecure url)
          | false ↦ elim (is_open now (origin_text parsed) breaker) [
            | true ↦ refused breaker (timeout (codes "circuit_breaker") (as_secs breaker.cooldown))
            | false ↦
                retry_loop
                  (λ attempt.
                    execute_fetch web config middleware attempt url accept_header parsed.scheme)
                  clock (delay_for_attempt floats policy) policy.max_retries (origin_text parsed)
                  (timeout (codes "fetch") (as_secs config.timeouts.per_request))
                  (suc policy.max_retries) 0 none [] breaker
          ]
        ]
  ]

  -- The URL of a path below the base.
  abbrev pub joined : Text → Text → Text
  joined base path =
      if starts_with (b'/' ∷ []) path
      then trim_end_matches b'/' base ++ path
      else trim_end_matches b'/' base ++ (b'/' ∷ path)

  unfoldable pub fetch : ℕ → Text → CircuitBreaker → Fetched
  unfolding fetch_url
  fetch now path breaker = elim config.base_url [
    | none ↦ refused breaker malformed_document
    | some base ↦ fetch_url now (joined base path) breaker
  ]
