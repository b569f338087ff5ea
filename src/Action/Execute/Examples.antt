-- ===== src/Action/Execute/Examples.antt =====
-- Witnesses for src/action: the execution of an action.
use anml_client_rust.Common.{
  false, none, some, [], ◌∷◌, ◌≡◌, ◌≢◌, ◌↔◌, refl, Bool, All, Text, codes, length, parse_unsigned,
  arith,
}
use anml_client_rust.Document.{AnmlDocument, empty_document, string, required, AnmlAction}
use anml_client_rust.Config.{from_secs}
use anml_client_rust.Error.{ok}
use anml_client_rust.Action.Address.{is_private_ip}
use anml_client_rust.Action.Budget.{check_and_record}
use anml_client_rust.Action.Params.{Floats, collect_params}
use anml_client_rust.Action.Validation.{validate_param}
use anml_client_rust.Action.Validation.Constraints.{Meets, validate_param_iff}
use anml_client_rust.Action.Send.{Call, execute_http_request}
use anml_client_rust.Action.Send.Attempts.{Sends, execute_http_request-Sends}
use anml_client_rust.Action.Prepare.{Platform, Prepared, check_confirmed}
use anml_client_rust.Action.Execute.{Executed, call_of, execute_action, perform, disclose, exchange}
use anml_client_rust.Action.Prepare.Passed.{Cleared, Confirmed}
use anml_client_rust.Action.Execute.Guards.{Budgeted, IsOf, execute_action-Cleared}
use anml_client_rust.Action.Execute.Disclosures.{SameExchange, execute_action-disclosure_ctx}
use anml_client_rust.Action.Execute.Fixtures.{
  no_floats, example_net, renewing, example_platform, note, buy, buy_document, buy_context,
  idle_state,
}

abbrev no_uri : Text → Bool
no_uri s = false

validate_param_iff_example :
    (validate_param no_floats no_uri note (some (codes "a b")) ≡ ok tt)
    ↔ Meets no_floats no_uri note (some (codes "a b"))
validate_param_iff_example = validate_param_iff no_floats no_uri note (some (codes "a b"))

abbrev example_call : Call
example_call = record {
  method = codes "post";
  endpoint = codes "https://shop.example/buy";
  content_type = codes "application/json";
  body = codes "{}";
  idempotency_key = some (codes "k");
  auth_type = some required;
  auth_provider = some renewing;
  request_timeout = from_secs 30;
}

execute_http_request-Sends_example :
    Sends example_net example_call (execute_http_request example_net example_call)
execute_http_request-Sends_example = execute_http_request-Sends example_net example_call

abbrev bought : Executed
bought =
    execute_action example_platform buy_context buy_document (codes "buy")
      ((codes "note", codes "ok") ∷ []) none idle_state

-- A 401 is answered by a second request, and that one by 200.
two_requests : length bought.sent ≡ 2
unfolding execute_action is_private_ip validate_param perform check_confirmed disclose
    check_and_record exchange execute_http_request collect_params parse_unsigned
two_requests = refl

bought_sends : bought.sent ≢ []
bought_sends e = let h : length bought.sent ≡ 0 = rw e refl in omega (arith, h, two_requests)

execute_action-Cleared_example :
    (p : Prepared) × Cleared example_platform buy_context buy_document
      (codes "buy")
      ((codes "note", codes "ok") ∷ [])
      p
    × Confirmed buy_context p.action p.endpoint
    × Budgeted example_platform p idle_state bought.state
    × All
        (λ r.
          IsOf example_platform (call_of example_platform buy_context buy_document p) r
          × (r.url ≡ p.endpoint))
        bought.sent
execute_action-Cleared_example =
    execute_action-Cleared example_platform buy_context buy_document (codes "buy")
      ((codes "note", codes "ok") ∷ []) none idle_state bought_sends

execute_action-disclosure_ctx_example : SameExchange bought (
    execute_action example_platform
      (record buy_context { disclosure_ctx = none })
      buy_document
      (codes "buy")
      ((codes "note", codes "ok") ∷ [])
      none
      idle_state)
execute_action-disclosure_ctx_example =
    execute_action-disclosure_ctx example_platform buy_context none buy_document (codes "buy")
      ((codes "note", codes "ok") ∷ []) none idle_state

-- Each float is shown as 0.
abbrev zero_floats : Floats
zero_floats = record no_floats { show_integer = λ n. codes "0" }

abbrev json_platform : Platform
json_platform = record example_platform { floats = zero_floats }

abbrev json_buy : AnmlAction
json_buy = record buy { enctype = some (codes "application/json"); confirm = none }

abbrev json_document : AnmlDocument
json_document = record empty_document { interact = some (record { actions = json_buy ∷ [] }) }

abbrev json_prepared : Prepared
json_prepared = record {
  action = json_buy;
  endpoint = codes "https://shop.example/buy";
  values = record { name = codes "note"; value = codes "ok"; param_type = some string } ∷ [];
}
