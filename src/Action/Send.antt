-- ===== src/Action/Send.antt =====
-- `execute_http_request` of src/action/mod.rs: one exchange, and a second one when the service answers
-- 401 and the provider of credentials has refreshed them. The HTTP client (the crate `reqwest`) and
-- the URL parser (`url`) are the record `Net`.
pub mod Attempts
use anml_client_rust.Common.{
  ℕ, Bool, true, false, ◌&&◌, ◌||◌, Option, none, some, List, [], ◌∷◌, ◌++◌, ◌==◌, leb, ◌-◌,
  if◌then◌else◌, Text, text_eq, codes, map, any,
}
use anml_client_rust.Document.{AuthType, required, optional, other}
use anml_client_rust.Config.{Origin}
use anml_client_rust.Error.{AnmlClientError, trust_insufficient, Result, ok, err}
use anml_client_rust.Auth.{AuthProvider}
use anml_client_rust.Config.{AuthRefreshResult, refreshed, failed}
use anml_client_rust.Client.Fetch.{Response, Exchange, outcome_of}

pub record HttpRequest : Type 0 where
  pub method : Text
  pub url : Text
  pub headers : List (Text × Text)
  pub body : List ℕ

pub record Net : Type 0 where
  -- scheme, host (empty where there is none) and explicit port
  pub parse_url : Text → Option Origin
  -- what `Method::from_bytes` accepts
  pub valid_method : Text → Bool
  -- the exchange of the request with this number
  pub send : ℕ → HttpRequest → Exchange

-- The arguments of `execute_http_request`.
pub record Call : Type 0 where
  pub method : Text
  pub endpoint : Text
  pub content_type : Text
  pub body : List ℕ
  pub idempotency_key : Option Text
  pub auth_type : Option AuthType
  pub auth_provider : Option AuthProvider
  pub request_timeout : ℕ

abbrev pub needs_auth : Option AuthType → Bool
needs_auth (some required) = true
needs_auth (some optional) = true
needs_auth _ = false

abbrev pub is_required : Option AuthType → Bool
is_required (some required) = true
is_required _ = false

abbrev pub ascii_upper : ℕ → ℕ
ascii_upper c = if leb b'a' c && leb c b'z' then c - 32 else c

abbrev pub known_methods : List Text
known_methods =
    codes "GET" ∷ codes "POST" ∷ codes "PUT" ∷ codes "DELETE" ∷ codes "PATCH" ∷ codes "HEAD" ∷ []

unfoldable pub method_of : (Text → Bool) → Text → Text
method_of valid_method method =
    let upper = map ascii_upper method in
    if any (λ m. text_eq m upper) known_methods
    then upper
    else if valid_method method
    then method
    else codes "POST"

abbrev pub key_headers : Option Text → List (Text × Text)
key_headers none = []
key_headers (some key) = (codes "Idempotency-Key", key) ∷ []

abbrev pub credential_headers : Option (List (Text × Text)) → List (Text × Text)
credential_headers none = []
credential_headers (some creds) = creds

abbrev pub body_of : Response → Result (ℕ × List ℕ)
body_of response = elim response.body [ ok bytes ↦ ok (response.status, bytes) | err e ↦ err e ]

module _ (net : Net) (call : Call) where
  -- The request with these credentials.
  unfoldable pub built_request : List (Text × Text) → HttpRequest
  unfolding method_of
  built_request creds = record {
    method = method_of net.valid_method call.method;
    url = call.endpoint;
    headers =
        (codes "Content-Type", call.content_type) ∷ (key_headers call.idempotency_key ++ creds);
    body = call.body;
  }

  -- The provider's answer to call number `n`, asked for the endpoint's origin.
  unfoldable pub credentials_of : ℕ → AuthProvider → List (Text × Text)
  credentials_of n provider = elim (net.parse_url call.endpoint) [
    | none ↦ []
    | some origin ↦ credential_headers (provider.credentials n origin)
  ]

  unfoldable pub first_request : Result HttpRequest
  unfolding built_request credentials_of
  first_request =
      if needs_auth call.auth_type
      then elim call.auth_provider [
        | some provider ↦ ok (built_request (credentials_of 0 provider))
        | none ↦
            if is_required call.auth_type
            then err (trust_insufficient call.endpoint)
            else ok (built_request [])
      ]
      else ok (built_request [])

  -- The request that follows a 401, if one does.
  unfoldable pub second_request : Response → Option HttpRequest
  unfolding built_request credentials_of
  second_request response =
      if (response.status == 401) && needs_auth call.auth_type
      then elim call.auth_provider [
        | none ↦ none
        | some provider ↦ elim (net.parse_url call.endpoint) [
          | none ↦ none
          | some origin ↦ elim (provider.on_unauthorized origin) [
            | failed ↦ none
            | refreshed ↦ some (built_request (credentials_of 1 provider))
          ]
        ]
      ]
      else none

  -- The requests that were sent, and the status and body.
  unfoldable pub execute_http_request : List HttpRequest × Result (ℕ × List ℕ)
  unfolding first_request second_request
  execute_http_request = elim first_request [
    | err e ↦ ([], err e)
    | ok r ↦ elim (outcome_of call.request_timeout (net.send 0 r)) [
      | err e ↦ (r ∷ [], err e)
      | ok response ↦ elim (second_request response) [
        | none ↦ (r ∷ [], body_of response)
        | some r' ↦ (
          r ∷ r' ∷ [],
          elim (outcome_of call.request_timeout (net.send 1 r')) [
            | err e ↦ err e
            | ok response' ↦ body_of response'
          ],
        )
      ]
    ]
  ]
