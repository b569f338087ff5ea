-- ===== src/Action/Execute/Fixtures.antt =====
-- A platform, an action and its surroundings for the witnesses of src/action.
use anml_client_rust.Common.{ℕ, zero, suc, true, false, none, some, [], ◌∷◌, ◌++◌, codes}
use anml_client_rust.Document.{
  AnmlDocument, empty_document, string, required, AnmlParam, AnmlAction,
}
use anml_client_rust.Config.{from_secs, default_budget}
use anml_client_rust.Error.{ok}
use anml_client_rust.Auth.{AuthProvider}
use anml_client_rust.Config.{refreshed}
use anml_client_rust.Client.Fetch.{Response, Exchange, answered}
use anml_client_rust.Config.{confirm}
use anml_client_rust.Action.Address.{v4}
use anml_client_rust.Action.Budget.{new_tracker}
use anml_client_rust.Action.Params.{Floats}
use anml_client_rust.Action.Send.{Net}
use anml_client_rust.Action.Prepare.{Platform, ActionContext}
use anml_client_rust.Action.Execute.{ActionState}

-- No text is a float.
abbrev pub no_floats : Floats
no_floats = record {
  parse = λ s. none;
  is_integral = λ n. true;
  show_integer = λ n. [];
  show = λ n. [];
  is_finite = λ n. true;
  less = λ a b. false;
}

abbrev pub note : AnmlParam
note = record {
  name = codes "note";
  param_type = some string;
  required = some true;
  default = none;
  pattern = none;
  min = some (codes "2");
  max = none;
  options = none;
}

abbrev pub answer_with : ℕ → Response
answer_with status = record {
  status = status;
  content_type = none;
  body = ok (codes "no");
  text = codes "no";
}

-- The first request is refused for its credentials.
abbrev pub answers_to : ℕ → Exchange
answers_to zero = answered (answer_with 401)
answers_to (suc n) = answered (answer_with 200)

abbrev pub example_net : Net
example_net = record {
  parse_url =
      λ u. some (record { scheme = codes "https"; host = codes "shop.example"; port = none });
  valid_method = λ m. true;
  send = λ n r. answers_to n;
}

abbrev pub renewing : AuthProvider
renewing = record {
  credentials = λ n o. some ((codes "Authorization", codes "Bearer " ++ (48 ∷ [])) ∷ []);
  on_unauthorized = λ o. refreshed;
}

abbrev pub example_platform : Platform
example_platform = record {
  net = example_net;
  floats = no_floats;
  host_str = λ u. some (codes "shop.example");
  port_or_known_default = λ u. some 443;
  parse_ip = λ h. none;
  lookup_host = λ h. some (v4 93 184 216 34 ∷ []);
  join_url = λ b e. none;
  from_utf8 = λ b. none;
  parse = λ t. none;
  hmac_hex = λ k m. k ++ m;
  new_uuid = codes "k";
  random_bytes = [];
}

abbrev pub buy : AnmlAction
buy = record {
  id = codes "buy";
  method = codes "POST";
  endpoint = codes "https://shop.example/buy";
  enctype = none;
  confirm = some true;
  idempotent = none;
  auth = some required;
  description = none;
  params = some (note ∷ []);
}

abbrev pub buy_document : AnmlDocument
buy_document = record empty_document { interact = some (record { actions = buy ∷ [] }) }

abbrev pub buy_context : ActionContext
buy_context = record {
  document_origin = codes "https://shop.example";
  xml_base = none;
  confirm_handler = some (λ i m e d. confirm);
  auth_provider = some renewing;
  action_timeout = from_secs 60;
  request_timeout = from_secs 30;
  disclosure_ctx = none;
}

abbrev pub idle_state : ActionState
idle_state = record {
  budget_tracker = new_tracker default_budget;
  stores = record { consents = []; limiter = [] };
}
