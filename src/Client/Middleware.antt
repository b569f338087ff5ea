-- ===== src/Client/Middleware.antt =====
-- src/middleware.rs, and the order of the chain of interceptors in src/client.rs.
use anml_client_rust.Common.{List, [], ◌∷◌, ◌++◌, ◌≡◌, refl, inl, inr, ap, ℕ, Text, arith}
use anml_client_rust.Error.{ok, ◌>>=◌, Result-cases}
use anml_client_rust.Config.Builder.{ClientConfig}
use anml_client_rust.Client.Fetch.{
  Request, Response, Web, HttpMiddleware, request_chain, response_chain, outgoing, accept_response,
  answer_of, execute_fetch,
}
use anml_client_rust.Client.State.{AnmlClientBuilder}
use anml_client_rust.Client.Setters.{add_middleware}

-- It logs and passes on.
abbrev pub logging_middleware : HttpMiddleware
logging_middleware = record { on_request = λ r. ok r; on_response = λ r. ok r }

request_chain-append :
    (ms ns : List HttpMiddleware) (r : Request)
    → request_chain (ms ++ ns) r ≡ (request_chain ms r >>= λ r'. request_chain ns r')
unfolding request_chain
request_chain-append [] ns r = refl
request_chain-append (m ∷ ms) ns r = elim (Result-cases (m.on_request r)) [
  | inl (r', e) ↦ rw e (request_chain-append ms ns r')
  | inr (x, e) ↦ rw e refl
]

response_chain-append :
    (ms ns : List HttpMiddleware) (r : Response)
    → response_chain (ms ++ ns) r ≡ (response_chain ns r >>= λ r'. response_chain ms r')
unfolding response_chain
response_chain-append [] ns r = elim (Result-cases (response_chain ns r)) [
  | inl (r', e) ↦ rw e refl
  | inr (x, e) ↦ rw e refl
]
response_chain-append (m ∷ ms) ns r = elim (Result-cases (response_chain ns r)) [
  | inl (r', e) ↦ rw (response_chain-append ms ns r, e) refl
  | inr (x, e) ↦ rw (response_chain-append ms ns r, e) refl
]

-- The middleware that is registered behind others sees a request behind all of them, and a response
-- before all of them; an error of one keeps it from those that follow.
pub add_middleware-order :
    (m : HttpMiddleware) (b : AnmlClientBuilder) (request : Request) (response : Response)
    → (request_chain (add_middleware m b).middleware request
        ≡ (request_chain b.middleware request >>= λ r. m.on_request r))
      × (response_chain (add_middleware m b).middleware response
          ≡ (m.on_response response >>= λ r. response_chain b.middleware r))
unfolding add_middleware request_chain response_chain
add_middleware-order m b request response = (
  ground (arith, request_chain-append b.middleware (m ∷ []) request),
  response_chain-append b.middleware (m ∷ []) response,
)

request_chain-logging :
    (ms ns : List HttpMiddleware) (r : Request)
    → request_chain (ms ++ (logging_middleware ∷ ns)) r ≡ request_chain (ms ++ ns) r
unfolding request_chain
request_chain-logging [] ns r = refl
request_chain-logging (m ∷ ms) ns r = elim (Result-cases (m.on_request r)) [
  | inl (r', e) ↦ rw e (request_chain-logging ms ns r')
  | inr (x, e) ↦ rw e refl
]

response_chain-logging :
    (ms ns : List HttpMiddleware) (r : Response)
    → response_chain (ms ++ (logging_middleware ∷ ns)) r ≡ response_chain (ms ++ ns) r
unfolding response_chain
response_chain-logging [] ns r = elim (Result-cases (response_chain ns r)) [
  | inl (r', e) ↦ rw e refl
  | inr (x, e) ↦ rw e refl
]
response_chain-logging (m ∷ ms) ns r =
    ap (λ x. x >>= λ r'. m.on_response r') (response_chain-logging ms ns r)

module _ (web : Web) (config : ClientConfig) (ms ns : List HttpMiddleware) where
  answer_of-logging :
      (url scheme : Text) (r : Response)
      → answer_of web config (ms ++ (logging_middleware ∷ ns)) url scheme r
        ≡ answer_of web config (ms ++ ns) url scheme r
  unfolding answer_of accept_response
  answer_of-logging url scheme r = rw (response_chain-logging ms ns r) refl

  -- The logging middleware, wherever it stands in the chain, changes the outcome of no attempt.
  pub execute_fetch-logging :
      (attempt : ℕ) (url accept scheme : Text)
      → execute_fetch web config (ms ++ (logging_middleware ∷ ns)) attempt url accept scheme
        ≡ execute_fetch web config (ms ++ ns) attempt url accept scheme
  unfolding execute_fetch outgoing
  execute_fetch-logging attempt url accept scheme =
      rw (request_chain-logging ms ns) (simp (answer_of-logging url scheme))
