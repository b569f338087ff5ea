-- ===== src/Client/Settled.antt =====
-- How the loop of attempts of `fetch_url` in src/client.rs ends.
use anml_client_rust.Common.{
  ℕ, zero, suc, ◌+◌, ◌≤◌, ◌<◌, Bool, true, false, ◌&&◌, not, Option, none, some, List, [], ◌≡◌,
  refl, ◌⊎◌, inl, inr, ltb, if◌then◌else◌, Text, text_eq, codes, arith, Bool-cases, Option-cases,
  ap, ◌∙◌, subst, sym,
}
use anml_client_rust.Document.{AnmlDocument}
use anml_client_rust.Config.{Origin, origin_text}
use anml_client_rust.Config.Builder.{ClientConfig}
use anml_client_rust.Error.{
  AnmlClientError, transport_insecure, malformed_document, timeout, Result, ok, err, Result-cases,
}
use anml_client_rust.Client.Breaker.{CircuitBreaker, is_open, record_success, record_failure}
use anml_client_rust.Client.Checks.{is_retryable_error}
use anml_client_rust.Client.Delay.{DelayFloats, RetryPolicy, delay_for_attempt}
use anml_client_rust.Client.Fetch.{Web, HttpMiddleware, as_secs, execute_fetch}
use anml_client_rust.Client.Retries.{Fetched, slept, retry_loop, accept_header, refused, fetch_url}

le_cases : (a b : ℕ) → a ≤ b → (b ≡ a) ⊎ (suc a ≤ b)
le_cases a b h = elim (Bool-cases (ltb a b)) [
  | inl less ↦ inr (ground arith)
  | inr same ↦ inl (ground arith)
]

-- The outcome is a transient error.
abbrev pub transient : Result AnmlDocument → Bool
transient (ok doc) = false
transient (err e) = is_retryable_error e

-- The breaker is told once, of the last attempt: of a document, or of a transient error.
abbrev pub told : ℕ → Text → Result AnmlDocument → CircuitBreaker → CircuitBreaker
told now origin (ok doc) breaker = record_success origin breaker
told now origin (err e) breaker =
    if is_retryable_error e then record_failure now origin breaker else breaker

module _ (attempt_outcome : ℕ → Result AnmlDocument) (clock : ℕ → ℕ) (delay : ℕ → ℕ)
    (max_retries : ℕ) (origin : Text) (no_attempt : AnmlClientError) where
  -- From attempt `first` on, attempt `k` is the first that does not fail with a transient error, or
  -- it is the last that is allowed; the result is its outcome.
  pub record Settles (first : ℕ) (breaker : CircuitBreaker) (f : Fetched) : Type 0 where
    pub last : ℕ
    pub from : first ≤ last
    pub allowed : last ≤ max_retries
    pub retried : (j : ℕ) → first ≤ j → j < last → transient (attempt_outcome j) ≡ true
    pub settled : (transient (attempt_outcome last) ≡ false) ⊎ (last ≡ max_retries)
    pub outcome : f.outcome ≡ attempt_outcome last
    pub attempts : f.attempts ≡ suc last
    pub breaker_told : f.breaker ≡ told (clock last) origin (attempt_outcome last) breaker

  ends_here :
      (first : ℕ) (waits : List ℕ) (breaker : CircuitBreaker) (f : Fetched)
      → first ≤ max_retries
      → (transient (attempt_outcome first) ≡ false) ⊎ (first ≡ max_retries)
      → f ≡ record {
        breaker = told (clock first) origin (attempt_outcome first) breaker;
        outcome = attempt_outcome first;
        attempts = suc first;
        waits = waits;
      }
      → Settles first breaker f
  ends_here first waits breaker f k end e = record {
    last = first;
    from = omega arith;
    allowed = k;
    retried = λ j a b. absurd (omega (arith, a, b));
    settled = end;
    outcome = ap (λ g. g.outcome) e;
    attempts = ap (λ g. g.attempts) e;
    breaker_told = ap (λ g. g.breaker) e;
  }

  goes_on :
      (first : ℕ) (breaker : CircuitBreaker) (f : Fetched)
      → transient (attempt_outcome first) ≡ true
      → Settles (suc first) breaker f
      → Settles first breaker f
  goes_on first breaker f again s = record {
    last = s.last;
    from = omega (arith, s.from);
    allowed = s.allowed;
    retried = λ j a b. elim (le_cases first j a) [
      | inl same ↦ rw same again
      | inr above ↦ s.retried j above b
    ];
    settled = s.settled;
    outcome = s.outcome;
    attempts = s.attempts;
    breaker_told = s.breaker_told;
  }

  last_allowed :
      (first : ℕ)
      → first ≤ max_retries
      → (e : AnmlClientError) → attempt_outcome first ≡ err e
      → is_retryable_error e && ltb first max_retries ≡ false
      → (transient (attempt_outcome first) ≡ false) ⊎ (first ≡ max_retries)
  last_allowed first k e failed stop = elim (Bool-cases (is_retryable_error e)) [
    | inr permanent ↦ inl (rw failed permanent)
    | inl again ↦ inr (ground arith)
  ]

  retry_loop-Settles :
      (rounds first : ℕ) (last_err : Option AnmlClientError) (waits : List ℕ)
      (breaker : CircuitBreaker)
      → first + rounds ≡ suc max_retries
      → first ≤ max_retries
      → Settles first breaker (
          retry_loop attempt_outcome clock delay max_retries origin no_attempt rounds first last_err
            waits breaker)
  unfolding retry_loop
  retry_loop-Settles zero first last_err waits breaker h k = absurd (omega (arith, h, k))
  retry_loop-Settles (suc rounds) first last_err waits breaker h k =
      elim (Result-cases (attempt_outcome first)) [
        | inl (doc, fetched) ↦
            ends_here first (slept delay first waits) breaker _ k (inl (rw fetched refl))
              (rw (fetched, retry_loop) refl)
        | inr (e, failed) ↦ elim (Bool-cases (is_retryable_error e && ltb first max_retries)) [
          | inr stop ↦
              ends_here first (slept delay first waits) breaker _ k
                (last_allowed first k e failed stop) (rw (failed, retry_loop, stop) refl)
          | inl again ↦ goes_on first breaker _ (rw failed (ground arith)) (
              rw (retry_loop, failed, again)
                (retry_loop-Settles rounds (suc first) (some e) (slept delay first waits) breaker
                  (omega (arith, h)) (ground arith)))
        ]
      ]

module _ (floats : DelayFloats) (web : Web) (config : ClientConfig)
    (middleware : List HttpMiddleware) (policy : RetryPolicy) (clock : ℕ → ℕ) where
  -- Before the first request: the URL, the scheme, and the breaker of the origin.
  abbrev pub Admitted : ℕ → Text → CircuitBreaker → Origin → Type 0
  Admitted now url breaker parsed =
      (web.parse_url url ≡ some parsed)
      × ((text_eq parsed.scheme (codes "https") ≡ true) ⊎ (config.allow_plaintext_http ≡ true))
      × (is_open now (origin_text parsed) breaker ≡ false)

  same_url :
      (a b : Origin) (url : Text) → web.parse_url url ≡ some a → web.parse_url url ≡ some b → a ≡ b
  same_url a b url p q = ground (arith, p, q)

  by_scheme :
      (a b : Origin) (url : Text)
      → web.parse_url url ≡ some a
      → web.parse_url url ≡ some b
      → not (text_eq a.scheme (codes "https")) && not config.allow_plaintext_http ≡ true
      → ¬ ((text_eq b.scheme (codes "https") ≡ true) ⊎ (config.allow_plaintext_http ≡ true))
  by_scheme a b url p q plain s =
      let plain' =
        subst
          (λ o. not (text_eq o.scheme (codes "https")) && not config.allow_plaintext_http ≡ true)
          (same_url a b url p q) plain in
      ground arith

  by_breaker :
      (now : ℕ) (breaker : CircuitBreaker) (a b : Origin) (url : Text)
      → web.parse_url url ≡ some a
      → web.parse_url url ≡ some b
      → is_open now (origin_text a) breaker ≡ true
      → ¬ (is_open now (origin_text b) breaker ≡ false)
  by_breaker now breaker a b url p q open_ closed =
      let open' =
        subst (λ o. is_open now (origin_text o) breaker ≡ true) (same_url a b url p q) open_ in
      ground arith

  -- A fetch whose URL does not parse, or is not HTTPS where that is demanded, or whose origin's
  -- breaker is open makes no attempt, fails, and leaves the breaker. Any other makes attempts until
  -- one ends with something else than a transient error, or the last allowed one has ended: all
  -- attempts before it failed with transient errors, the result is its outcome, and the breaker
  -- is told of its outcome only.
  pub fetch_url-Settles :
      (now : ℕ) (url : Text) (breaker : CircuitBreaker)
      → ((e : AnmlClientError) × (fetch_url floats web config middleware policy clock now url
              breaker
            ≡ refused floats web config middleware policy clock breaker e)
          × ((parsed : Origin) → ¬ Admitted now url breaker parsed))
        ⊎ ((parsed : Origin) × Admitted now url breaker parsed
            × Settles
                (λ attempt.
                  execute_fetch web config middleware attempt url accept_header parsed.scheme)
                clock
                (delay_for_attempt floats policy)
                policy.max_retries
                (origin_text parsed)
                (timeout (codes "fetch") (as_secs config.timeouts.per_request))
                0
                breaker
                (fetch_url floats web config middleware policy clock now url breaker))
  unfolding fetch_url
  fetch_url-Settles now url breaker = elim (Option-cases (web.parse_url url)) [
    | inl failed ↦ inl (
      malformed_document,
      rw (fetch_url, failed) refl,
      λ parsed (q, r, t). ground (arith, sym q ∙ failed),
    )
    | inr (parsed, p) ↦
        elim (Bool-cases
          (not (text_eq parsed.scheme (codes "https")) && not config.allow_plaintext_http)) [
            | inl plain ↦ inl (
              transport_insecure url,
              rw (fetch_url, p, plain) refl,
              λ parsed' (p', s, o). by_scheme parsed parsed' url p p' plain s,
            )
            | inr secure ↦ elim (Bool-cases (is_open now (origin_text parsed) breaker)) [
              | inl open_ ↦ inl (
                timeout (codes "circuit_breaker") (as_secs breaker.cooldown),
                rw (fetch_url, p, secure, open_) refl,
                λ parsed' (p', s, o). by_breaker now breaker parsed parsed' url p p' open_ o,
              )
              | inr closed ↦ inr (
                parsed,
                (p, ground arith, closed),
                rw (fetch_url, p, secure, closed)
                    (retry_loop-Settles _ _ _ _ _ _ (suc policy.max_retries) 0 none [] breaker
                      (omega arith) (omega arith)),
              )
            ]
          ]
  ]
