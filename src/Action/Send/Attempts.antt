-- ===== src/Action/Send/Attempts.antt =====
-- Which requests `execute_http_request` of src/action/mod.rs sends.
use anml_client_rust.Common.{
  ℕ, true, ◌&&◌, Option, none, some, List, [], ◌∷◌, ◌==◌, ◌≡◌, refl, ◌⊎◌, inl, inr, Text, codes,
  arith, Bool-cases, Option-cases, subst, sym, ap,
}
use anml_client_rust.Config.{Origin}
use anml_client_rust.Error.{trust_insufficient, http, timeout, Result, ok, err}
use anml_client_rust.Auth.{AuthProvider}
use anml_client_rust.Config.{AuthRefreshResult, refreshed, failed}
use anml_client_rust.Client.Fetch.{Response, Exchange, answered, broken, late, as_secs}
use anml_client_rust.Action.Send.{
  HttpRequest, Net, Call, needs_auth, is_required, body_of, built_request, credentials_of,
  first_request, second_request, execute_http_request,
}

abbrev nothing : Option HttpRequest
nothing = none

module _ (net : Net) (call : Call) where
  -- The service asked for credentials, and the provider has refreshed them.
  abbrev pub Renewed : Response → Type 0
  Renewed response =
      (response.status ≡ 401)
      × (needs_auth call.auth_type ≡ true)
      × ((provider : AuthProvider) × (origin : Origin) × (call.auth_provider ≡ some provider)
          × (net.parse_url call.endpoint ≡ some origin)
          × (provider.on_unauthorized origin ≡ refreshed))

  second_request-Renewed :
      (response : Response) (r : HttpRequest)
      → second_request net call response ≡ some r
      → Renewed response × ((creds : List (Text × Text)) × (r ≡ built_request net call creds))
  unfolding second_request
  second_request-Renewed response r h =
      elim (Bool-cases ((response.status == 401) && needs_auth call.auth_type)) [
        | inr other ↦
            let k : nothing ≡ some r = (rw (second_request, other) at h) in ground (arith, k)
        | inl asked ↦ by_provider asked call.auth_provider refl
      ]
    where
      by_answer :
          (response.status == 401) && needs_auth call.auth_type ≡ true
          → (provider : AuthProvider) → call.auth_provider ≡ some provider
          → (origin : Origin) → net.parse_url call.endpoint ≡ some origin
          → (a : AuthRefreshResult) → provider.on_unauthorized origin ≡ a
          → Renewed response × ((creds : List (Text × Text)) × (r ≡ built_request net call creds))
      by_answer asked provider p origin o failed e =
          let k : nothing ≡ some r = (rw (second_request, asked, p, o, e) at h) in ground (arith, k)
      by_answer asked provider p origin o refreshed e =
          let k : some (built_request net call (credentials_of net call 1 provider)) ≡ some r =
            (rw (second_request, asked, p, o, e) at h) in
          (
            (ground arith, ground arith, (provider, origin, p, o, e)),
            (credentials_of net call 1 provider, ground (arith, k)),
          )

      by_provider :
          (response.status == 401) && needs_auth call.auth_type ≡ true
          → (o : Option AuthProvider) → call.auth_provider ≡ o
          → Renewed response × ((creds : List (Text × Text)) × (r ≡ built_request net call creds))
      by_provider asked none e =
          let k : nothing ≡ some r = (rw (second_request, asked, e) at h) in ground (arith, k)
      by_provider asked (some provider) e = elim (Option-cases (net.parse_url call.endpoint)) [
        | inl unparsed ↦
            let k : nothing ≡ some r = (rw (second_request, asked, e, unparsed) at h) in
            ground (arith, k)
        | inr (origin, o) ↦
            by_answer asked provider e origin o (provider.on_unauthorized origin) refl
      ]

  -- Credentials are demanded, and there is no provider.
  abbrev pub Unable : Type 0
  Unable = (is_required call.auth_type ≡ true) × (call.auth_provider ≡ none)

  abbrev pub First : Result HttpRequest → Type 0
  First (ok r) = (creds : List (Text × Text)) × (r ≡ built_request net call creds)
  First (err e) = (e ≡ trust_insufficient call.endpoint) × Unable

  first_request-First : First (first_request net call)
  unfolding first_request
  first_request-First = elim (Bool-cases (needs_auth call.auth_type)) [
    | inr open_ ↦
        let e : first_request net call ≡ ok (built_request net call []) =
          rw (open_, first_request) refl in
        subst First (sym e) ([], refl)
    | inl closed ↦ elim (Option-cases call.auth_provider) [
      | inr (provider, p) ↦
          let e : first_request net call
              ≡ ok (built_request net call (credentials_of net call 0 provider)) =
            rw (closed, p, first_request) refl in
          subst First (sym e) (credentials_of net call 0 provider, refl)
      | inl missing ↦ elim (Bool-cases (is_required call.auth_type)) [
        | inl demanded ↦
            let e : first_request net call ≡ err (trust_insufficient call.endpoint) =
              rw (closed, missing, demanded, first_request) refl in
            subst First (sym e) (refl, (demanded, missing))
        | inr optional_ ↦
            let e : first_request net call ≡ ok (built_request net call []) =
              rw (closed, missing, optional_, first_request) refl in
            subst First (sym e) ([], refl)
      ]
    ]
  ]

  abbrev pub Sends : List HttpRequest × Result (ℕ × List ℕ) → Type 0
  Sends run =
      ((run ≡ ([], err (trust_insufficient call.endpoint))) × Unable)
      ⊎ ((creds : List (Text × Text)) × (run.0 ≡ built_request net call creds ∷ [])
          × ((response : Response)
              → net.send 0 (built_request net call creds) ≡ answered response
              → (run.1 ≡ body_of response)))
      ⊎ ((creds : List (Text × Text)) × (creds' : List (Text × Text)) × (response : Response)
          × (run.0 ≡ built_request net call creds ∷ built_request net call creds' ∷ [])
          × (net.send 0 (built_request net call creds) ≡ answered response)
          × Renewed response)

  sent_once :
      (creds : List (Text × Text)) (result : Result (ℕ × List ℕ))
      → ((response : Response)
          → net.send 0 (built_request net call creds) ≡ answered response
          → (result ≡ body_of response))
      → execute_http_request net call ≡ (built_request net call creds ∷ [], result)
      → Sends (execute_http_request net call)
  sent_once creds result h e = subst Sends (sym e) (inr (inl (creds, refl, h)))

  -- An action sends at most two requests, and these differ only in the credentials: the endpoint,
  -- the method, the body, the content type and the idempotency key are the same. The second is
  -- sent only when the first was answered by 401 and the provider has refreshed the credentials.
  -- A single request that is answered, by 401 too, yields the answer's status and body. Nothing
  -- is sent only where credentials are demanded and there is no provider.
  pub execute_http_request-Sends : Sends (execute_http_request net call)
  unfolding execute_http_request
  execute_http_request-Sends = by_first (first_request net call) refl first_request-First
    where
      by_second :
          (creds : List (Text × Text))
          → first_request net call ≡ ok (built_request net call creds)
          → (response : Response) → net.send 0 (built_request net call creds) ≡ answered response
          → Sends (execute_http_request net call)
      by_second creds e response x = elim (Option-cases (second_request net call response)) [
        | inl once ↦
            sent_once creds (body_of response)
              (λ response' h. let k : response ≡ response' = ground (arith, h, x) in ap body_of k)
              (rw (execute_http_request, e, x, once) refl)
        | inr (r', again) ↦
            let (renewed, (creds', k)) = second_request-Renewed response r' again in
            inr (
              inr (
                creds,
                creds',
                response,
                rw (execute_http_request, e, x, again)
                    (ap (λ q. built_request net call creds ∷ q ∷ []) k),
                x,
                renewed,
              ))
      ]

      by_exchange :
          (creds : List (Text × Text))
          → first_request net call ≡ ok (built_request net call creds)
          → (x : Exchange) → net.send 0 (built_request net call creds) ≡ x
          → Sends (execute_http_request net call)
      by_exchange creds e (answered response) x = by_second creds e response x
      by_exchange creds e (broken source) x =
          sent_once creds (err (http source)) (λ response h. ground (arith, h, x))
            (rw (execute_http_request, e, x) refl)
      by_exchange creds e late x =
          sent_once creds (err (timeout (codes "per_request") (as_secs call.request_timeout)))
            (λ response h. ground (arith, h, x)) (rw (execute_http_request, e, x) refl)

      by_first :
          (f : Result HttpRequest)
          → first_request net call ≡ f
          → First f
          → Sends (execute_http_request net call)
      by_first (err e) h (k, u) = inl (rw (execute_http_request, h, k) refl, u)
      by_first (ok r) h (creds, k) =
          by_exchange creds (rw k at h) (net.send 0 (built_request net call creds)) refl
