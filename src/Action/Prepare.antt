-- ===== src/Action/Prepare.antt =====
-- The first four steps of `execute_action` in src/action/mod.rs: the lookup of the action, its endpoint,
-- the test against forged requests, and the parameters; and the confirmation of step 7. What other
-- crates and the system do is the record `Platform`.
pub mod Passed
pub mod Shown
use anml_client_rust.Common.{
  ℕ, Bool, true, false, Option, none, some, List, [], ◌∷◌, ◌++◌, if◌then◌else◌, Text, text_eq,
  codes, decimal, find, any, is_some, is_empty, take,
}
use anml_client_rust.Document.{AnmlDocument, AnmlAction, AnmlParam, AuthType}
use anml_client_rust.Config.{Origin, origin_text, ConfirmDecision, confirm, cancel}
use anml_client_rust.Error.{
  AnmlClientError, malformed_document, ssrf_blocked, consent_denied, timeout, Result, ok, err,
  ◌>>=◌, ok_or,
}
use anml_client_rust.Auth.{AuthProvider}
use anml_client_rust.Client.Fetch.{as_secs}
use anml_client_rust.Disclosure.Evaluate.{DisclosureContext, Stores, DisclosureDecision, evaluate}
use anml_client_rust.Disclosure.Extract.{extract_rules}
use anml_client_rust.Disclosure.Matching.{DisclosureRule}
use anml_client_rust.Action.Address.{IpAddr, is_private_ip}
use anml_client_rust.Action.Budget.{ActionBudgetTracker, check_and_record}
use anml_client_rust.Action.Params.{
  Floats, ParamValue, has_name, encode_urlencoded, encode_multipart, collect_params,
}
use anml_client_rust.Action.Params.Json.{encode_json}
use anml_client_rust.Action.Validation.{validate_param}
use anml_client_rust.Action.Send.{HttpRequest, Net, Call, execute_http_request}

pub record Platform : Type 0 where
  pub net : Net
  pub floats : Floats
  -- of a URL that parses
  pub host_str : Text → Option Text
  pub port_or_known_default : Text → Option ℕ
  pub parse_ip : Text → Option IpAddr
  -- the addresses of a host and port, if the name is resolved
  pub lookup_host : Text → Option (List IpAddr)
  pub join_url : Text → Text → Option Text
  pub from_utf8 : List ℕ → Option Text
  pub parse : Text → Option AnmlDocument
  pub hmac_hex : Text → Text → Text
  -- the random identifier of `generate_key`, and the random bytes of a boundary
  pub new_uuid : Text
  pub random_bytes : Text

pub record ActionContext : Type 0 where
  pub document_origin : Text
  pub xml_base : Option Text
  -- id, method, endpoint, description
  pub confirm_handler : Option (Text → Text → Text → Option Text → ConfirmDecision)
  pub auth_provider : Option AuthProvider
  pub action_timeout : ℕ
  pub request_timeout : ℕ
  pub disclosure_ctx : Option DisclosureContext

abbrev pub action_id_is : Text → AnmlAction → Bool
action_id_is i a = text_eq a.id i

unfoldable pub find_action : AnmlDocument → Text → Option AnmlAction
find_action doc i = elim doc.interact [
  | none ↦ none
  | some interact ↦ find (action_id_is i) interact.actions
]

abbrev pub text_or : Option Text → Text → Text
text_or none d = d
text_or (some s) d = s

abbrev pub list_or : Option (List AnmlParam) → List AnmlParam
list_or none = []
list_or (some ps) = ps

abbrev pub port_or : Option ℕ → ℕ
port_or none = 443
port_or (some p) = p

abbrev pub value_of : Option ParamValue → Option Text
value_of none = none
value_of (some p) = some p.value

abbrev pub cancelled : Text → AnmlClientError
cancelled action_id = consent_denied action_id (codes "confirm=true") (codes "action")

unfoldable pub check_confirmed : ActionContext → Text → AnmlAction → Text → Result (Unit {0})
check_confirmed ctx action_id action endpoint = elim action.confirm [
  | some true ↦ elim ctx.confirm_handler [
    | none ↦ err (cancelled action_id)
    | some handler ↦ elim (handler action.id action.method endpoint action.description) [
      | cancel ↦ err (cancelled action_id)
      | confirm ↦ ok tt
    ]
  ]
  | _ ↦ ok tt
]

-- The action, its endpoint, and the values of its parameters.
pub record Prepared : Type 0 where
  pub action : AnmlAction
  pub endpoint : Text
  pub values : List ParamValue

module _ (platform : Platform) where
  unfoldable pub resolve_endpoint : Text → Text → Option Text → Result Text
  resolve_endpoint endpoint document_origin xml_base =
      let base = text_or xml_base document_origin in
      if is_some (platform.net.parse_url endpoint)
      then ok endpoint
      else if is_some (platform.net.parse_url base)
      then ok_or (platform.join_url base endpoint) malformed_document
      else err malformed_document

  -- `origin_from_url_str`
  abbrev pub endpoint_origin : Text → Text
  endpoint_origin url = elim (platform.net.parse_url url) [ none ↦ [] | some o ↦ origin_text o ]

  unfoldable pub check_host : Text → Text → Result (Unit {0})
  check_host endpoint host = elim (platform.parse_ip host) [
    | some ip ↦ if is_private_ip ip then err (ssrf_blocked endpoint) else ok tt
    | none ↦
        elim (platform.lookup_host
          (host ++ codes ":" ++ decimal (port_or (platform.port_or_known_default endpoint)))) [
            | none ↦ ok tt
            | some addrs ↦ if any is_private_ip addrs then err (ssrf_blocked endpoint) else ok tt
          ]
  ]

  unfoldable pub check_ssrf : Text → Result (Unit {0})
  unfolding check_host
  check_ssrf endpoint =
      if is_some (platform.net.parse_url endpoint)
      then (ok_or (platform.host_str endpoint) malformed_document >>= λ host.
          check_host endpoint host)
      else err malformed_document

  -- The loop over the definitions.
  unfoldable pub validate_params : List AnmlParam → List ParamValue → Result (Unit {0})
  validate_params [] values = ok tt
  validate_params (def ∷ defs) values =
      validate_param platform.floats (λ s. is_some (platform.net.parse_url s)) def
        (value_of (find (has_name def.name) values))
      >>= λ u. validate_params defs values

  -- The steps 1 to 4.
  unfoldable pub prepare :
      ActionContext → AnmlDocument → Text → List (Text × Text) → Result Prepared
  unfolding find_action resolve_endpoint check_ssrf validate_params
  prepare ctx doc action_id user_params = do
    action ← ok_or (find_action doc action_id) malformed_document
    endpoint ← resolve_endpoint action.endpoint ctx.document_origin ctx.xml_base
    _ ← check_ssrf endpoint
    let values = collect_params (list_or action.params) user_params
    _ ← validate_params (list_or action.params) values
    ok (record { action = action; endpoint = endpoint; values = values })
