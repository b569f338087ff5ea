-- ===== src/Action/Execute.antt =====
-- `execute_action` of src/action/mod.rs: behind its first four steps, the disclosure rules, the
-- encoding, the confirmation, the idempotency key, the budget and the exchange.
mod Examples
pub mod Fixtures
pub mod Guards
pub mod Disclosures
pub mod Readable
use anml_client_rust.Common.{
  ℕ, Bool, true, false, Option, none, some, List, [], ◌∷◌, ◌++◌, if◌then◌else◌, Text, text_eq,
  codes, decimal, find, any, is_some, is_empty, take,
}
use anml_client_rust.Document.{AnmlDocument, AnmlAction, AnmlParam, AuthType}
use anml_client_rust.Config.{Origin, origin_text, ConfirmDecision, confirm, cancel}
use anml_client_rust.Error.{
  AnmlClientError, malformed_document, ssrf_blocked, consent_denied, timeout, Result, ok, err,
  ◌>>=◌, ok_or,
}
use anml_client_rust.Auth.{AuthProvider}
use anml_client_rust.Client.Fetch.{as_secs}
use anml_client_rust.Disclosure.Evaluate.{DisclosureContext, Stores, DisclosureDecision, evaluate}
use anml_client_rust.Disclosure.Extract.{extract_rules}
use anml_client_rust.Disclosure.Matching.{DisclosureRule}
use anml_client_rust.Action.Address.{IpAddr, is_private_ip}
use anml_client_rust.Action.Budget.{ActionBudgetTracker, check_and_record}
use anml_client_rust.Action.Params.{
  Floats, ParamValue, has_name, encode_urlencoded, encode_multipart, collect_params,
}
use anml_client_rust.Action.Params.Json.{encode_json}
use anml_client_rust.Action.Validation.{validate_param}
use anml_client_rust.Action.Send.{HttpRequest, Net, Call, execute_http_request}
use anml_client_rust.Action.Prepare.{
  Platform, ActionContext, action_id_is, find_action, text_or, list_or, port_or, value_of,
  cancelled, check_confirmed, Prepared, resolve_endpoint, endpoint_origin, check_host, check_ssrf,
  validate_params, prepare,
}

pub record ActionResult : Type 0 where
  pub document : Option AnmlDocument
  pub status : ℕ
  pub body : List ℕ
  pub idempotency_key : Option Text

-- The state behind the context's references.
pub record ActionState : Type 0 where
  pub budget_tracker : ActionBudgetTracker
  pub stores : Stores

-- What an execution leaves: the state, the requests that were sent, and the result.
pub record Executed : Type 0 where
  pub state : ActionState
  pub sent : List HttpRequest
  pub outcome : Result ActionResult

abbrev pub enctype_of : AnmlAction → Text
enctype_of action = text_or action.enctype (codes "application/x-www-form-urlencoded")

abbrev pub doc_title : AnmlDocument → Text
doc_title doc = elim doc.head [ none ↦ codes "anml" | some h ↦ text_or h.title (codes "anml") ]

module _ (platform : Platform) where
  -- Each value is evaluated; the decisions are only logged.
  unfoldable pub evaluate_all :
      AnmlDocument → DisclosureContext → List DisclosureRule → List ParamValue → Stores → Stores
  evaluate_all doc ctx rules [] stores = stores
  evaluate_all doc ctx rules (p ∷ ps) stores =
      evaluate_all doc ctx rules ps
        (evaluate (λ s. is_some (platform.net.parse_url s)) platform.hmac_hex ctx doc rules p.name
          p.value stores).0

  unfoldable pub encode_body : Text → List ParamValue → Text → Text × Text
  encode_body enctype params doc_id =
      if text_eq enctype (codes "multipart/form-data")
      then encode_multipart platform.floats platform.random_bytes params doc_id
      else if text_eq enctype (codes "application/json")
      then (codes "application/json", encode_json platform.floats params)
      else (codes "application/x-www-form-urlencoded", encode_urlencoded platform.floats params)

  abbrev pub key_for : AnmlAction → Option Text
  key_for action = elim action.idempotent [ some true ↦ none | _ ↦ some platform.new_uuid ]

  -- The document in a body that is not empty, if it is one.
  abbrev pub response_document : List ℕ → Option AnmlDocument
  response_document body =
      if is_empty body
      then none
      else elim (platform.from_utf8 body) [ none ↦ none | some text ↦ platform.parse text ]

  -- Step 5.
  unfoldable pub disclose : ActionContext → AnmlDocument → List ParamValue → Stores → Stores
  unfolding evaluate_all
  disclose ctx doc values stores = elim ctx.disclosure_ctx [
    | none ↦ stores
    | some disclosure_ctx ↦ evaluate_all doc disclosure_ctx (extract_rules doc) values stores
  ]

  -- The call of step 11, with what steps 6 and 8 make.
  unfoldable pub call_of : ActionContext → AnmlDocument → Prepared → Call
  unfolding encode_body
  call_of ctx doc p =
      let encoded = encode_body (enctype_of p.action) p.values (doc_title doc) in
      record {
        method = p.action.method;
        endpoint = p.endpoint;
        content_type = encoded.0;
        body = encoded.1;
        idempotency_key = key_for p.action;
        auth_type = p.action.auth;
        auth_provider = ctx.auth_provider;
        request_timeout = ctx.request_timeout;
      }

  -- Step 12.
  unfoldable pub result_of : AnmlAction → ℕ × List ℕ → ActionResult
  result_of action (status, body) = record {
    document = response_document body;
    status = status;
    body = body;
    idempotency_key = key_for action;
  }

  -- Steps 10 and 11. The time limit of the action may strike behind some requests: the number of
  -- those that were sent by then.
  unfoldable pub exchange :
      ActionContext → AnmlDocument → Prepared → Option ℕ → List HttpRequest × Result ActionResult
  unfolding call_of result_of execute_http_request
  exchange ctx doc p expires =
      let (sent, outcome) = execute_http_request platform.net (call_of ctx doc p) in
      elim expires [
        | some n ↦ (take n sent, err (timeout (codes "per_action") (as_secs ctx.action_timeout)))
        | none ↦ (sent, outcome >>= λ r. ok (result_of p.action r))
      ]

  -- Step 7 and what follows it; the stores are those that step 5 leaves.
  unfoldable pub perform :
      ActionContext → AnmlDocument → Text → Prepared → Option ℕ → ActionState → Executed
  unfolding check_confirmed exchange
  perform ctx doc action_id p expires s = elim (check_confirmed ctx action_id p.action p.endpoint) [
    | err e ↦ record { state = s; sent = []; outcome = err e }
    | ok u ↦
        let (tracker, admitted) =
          check_and_record (endpoint_origin platform p.endpoint) s.budget_tracker in
        let s' : ActionState = record s { budget_tracker = tracker } in
        elim admitted [
          | err e ↦ record { state = s'; sent = []; outcome = err e }
          | ok v ↦
              let (sent, outcome) = exchange ctx doc p expires in
              record { state = s'; sent = sent; outcome = outcome }
        ]
  ]

  unfoldable pub execute_action :
      ActionContext → AnmlDocument → Text → List (Text × Text) → Option ℕ → ActionState → Executed
  unfolding prepare disclose perform
  execute_action ctx doc action_id user_params expires s =
      elim (prepare platform ctx doc action_id user_params) [
        | err e ↦ record { state = s; sent = []; outcome = err e }
        | ok p ↦
            perform ctx doc action_id p expires
              (record s { stores = disclose ctx doc p.values s.stores })
      ]
