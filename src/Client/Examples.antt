-- ===== src/Client/Examples.antt =====
-- Witnesses for src/client.rs.
use anml_client_rust.Common.{
  is_some, ℕ, zero, suc, ◌*◌, ◌^◌, leb, if◌then◌else◌, true, false, none, some, List, [], ◌∷◌, ◌≡◌,
  ◌⊎◌, refl, Text, codes, arith,
}
use anml_client_rust.Document.{AnmlDocument, AnmlStep, completed, empty_document}
use anml_client_rust.Config.{Origin, origin_text, from_secs}
use anml_client_rust.Config.Builder.{ClientConfig, builder, build}
use anml_client_rust.Error.{AnmlClientError, timeout, malformed_document, ok, err, ◌>>=◌}
use anml_client_rust.Client.Breaker.{CircuitBreaker, is_open}
use anml_client_rust.Client.Cooldown.{Event, succeeded, failed, after, no_requests, is_open-after}
use anml_client_rust.Client.Fetch.{
  Response, Exchange, answered, broken, Web, HttpMiddleware, as_secs, execute_fetch, request_chain,
  response_chain, accept_response, validate_content_type, read_limited_body,
}
use anml_client_rust.Client.Checks.{
  post_parse_checks, check_http_restrictions, check_required_extensions, check_required_profiles,
  extension_loop, profile_loop, is_retryable_error,
}
use anml_client_rust.Client.Retries.{accept_header, refused, fetch_url, retry_loop}
use anml_client_rust.Common.Assoc.{get}
use anml_client_rust.Audit.{AuditEntry}
use anml_client_rust.Disclosure.Matching.{ConsentScope, global}
use anml_client_rust.Disclosure.Consent.{
  check, explicit, ConsentKey, ConsentStore, key_instance, grant,
}
use anml_client_rust.Disclosure.Consent.Snapshot.{IsStore}
use anml_client_rust.Client.State.{
  in_memory, AnmlClient, AnmlClientBuilder, Setup, new_client, http_clients, export_state,
  restore_state, build_client, build_client-export_state,
}
use anml_client_rust.Client.Setters.{client_builder, set_audit_log, add_middleware}
use anml_client_rust.Client.Middleware.{add_middleware-order}
use anml_client_rust.Client.Delay.{DelayFloats, RetryPolicy, default_policy, delay_for_attempt}
use anml_client_rust.Client.Waiting.{IsPatient, fetch_url-IsPatient}
use anml_client_rust.Client.Summary.{shown_number}
use anml_client_rust.Client.Settled.{Admitted, Settles, fetch_url-Settles}

abbrev host : Text
host = codes "https://shop.example"

-- Two failures behind a success, the newest first.
abbrev two_failures : List Event
two_failures =
    failed (from_secs 12) host
    ∷ failed (from_secs 11) host
    ∷ succeeded host
    ∷ failed (from_secs 9) host
    ∷ []

is_open-after_example :
    is_open (from_secs 40) host (after (no_requests 2 (from_secs 60)) two_failures) ≡ true
is_open-after_example =
    is_open-after 2 (from_secs 60) (from_secs 40) host two_failures (omega arith)

abbrev page : AnmlDocument
page = record empty_document { ttl = some (codes "60") }

abbrev good : Response
good = record {
  status = 200;
  content_type = some (codes "application/anml+xml; charset=utf-8");
  body = ok (codes "<anml/>");
  text = codes "<anml/>";
}

-- The first attempt finds no connection.
abbrev attempts_of : ℕ → Exchange
attempts_of zero = broken (record { status = none; connect = true; timed_out = false })
attempts_of (suc n) = answered good

abbrev example_web : Web
example_web = record {
  parse_url =
      λ u. some (record { scheme = codes "https"; host = codes "shop.example"; port = none });
  build_error = λ u. none;
  valid_header = λ n v. true;
  execute = λ n r. attempts_of n;
  from_utf8 = λ b. some b;
  parse_with_options = λ o t. some page;
  parse = λ t. none;
}

abbrev example_config : ClientConfig
example_config = build builder

-- Floats that stand for natural numbers.
abbrev example_floats : DelayFloats
example_floats = record {
  from_int = λ n. n;
  times = λ a b. a * b;
  powi = λ a n. a ^ n;
  min = λ a b. if leb a b then a else b;
  to_u64 = λ n. n;
  two = 2;
}

abbrev example_policy : RetryPolicy
example_policy = default_policy example_floats

abbrev closed : CircuitBreaker
closed = no_requests 2 (from_secs 60)

abbrev example_clock : ℕ → ℕ
example_clock n = from_secs n

fetch_url-Settles_example :
    ((e : AnmlClientError) × (fetch_url example_floats example_web example_config [] example_policy
          example_clock 0 host closed
        ≡ refused example_floats example_web example_config [] example_policy example_clock closed
            e)
      × ((parsed : Origin)
          → ¬ Admitted example_floats example_web example_config [] example_policy example_clock 0
              host closed parsed))
    ⊎ ((parsed : Origin) × Admitted example_floats example_web example_config [] example_policy
          example_clock 0 host closed parsed
        × Settles
            (λ attempt.
              execute_fetch example_web example_config [] attempt host accept_header parsed.scheme)
            example_clock
            (delay_for_attempt example_floats example_policy)
            example_policy.max_retries
            (origin_text parsed)
            (timeout (codes "fetch") (as_secs example_config.timeouts.per_request))
            0
            closed
            (fetch_url example_floats example_web example_config [] example_policy example_clock 0
              host closed))
fetch_url-Settles_example =
    fetch_url-Settles example_floats example_web example_config [] example_policy example_clock 0
      host closed

fetch_url-IsPatient_example : IsPatient example_policy.max_delay example_policy.max_retries (
    fetch_url example_floats example_web example_config [] example_policy example_clock 0 host
      closed)
fetch_url-IsPatient_example =
    fetch_url-IsPatient example_floats example_web example_config [] example_policy example_clock 0
      host closed

-- Two attempts are made, a second apart, of which the second fetches the page.
second_attempt :
    ((fetch_url example_floats example_web example_config [] example_policy example_clock 0 host
        closed).attempts
      ≡ 2)
    × ((fetch_url example_floats example_web example_config [] example_policy example_clock 0 host
          closed).outcome
        ≡ ok page)
    × ((fetch_url example_floats example_web example_config [] example_policy example_clock 0 host
          closed).waits
        ≡ from_secs 1 ∷ [])
unfolding fetch_url retry_loop delay_for_attempt execute_fetch is_open build request_chain
    accept_response validate_content_type response_chain read_limited_body post_parse_checks
    check_http_restrictions check_required_extensions check_required_profiles extension_loop
    profile_loop is_retryable_error
second_attempt = (refl, refl, refl)

abbrev shop : Origin
shop = record { scheme = codes "https"; host = codes "shop.example"; port = none }

abbrev one_grant : ConsentStore
one_grant = grant 7 (codes "email") shop global explicit []

one_grant-IsStore : IsStore one_grant
unfolding grant
one_grant-IsStore = (refl, refl, tt)

abbrev one_entry : AuditEntry
one_entry = record {
  field = codes "email";
  origin = shop;
  timestamp = 7;
  consent_basis = explicit;
  disclosure_rule = codes "field=email";
  action_id = none;
}

abbrev example_setup : Setup
example_setup = record {
  valid_header = λ n v. true;
  http_error = λ headers limit. none;
  media_error = λ limit. none;
  secret = codes "secret";
  floats = example_floats;
}

abbrev used_client : AnmlClient
used_client = record (new_client example_setup client_builder) {
  consent_store = one_grant;
  audit_log = in_memory (one_entry ∷ []);
}

abbrev plain_builder : AnmlClientBuilder
plain_builder = set_audit_log (in_memory []) client_builder

build_client-export_state_example :
    (client' : AnmlClient) × (build_client example_setup
        (restore_state (export_state used_client) plain_builder)
      ≡ ok client')
    × ((k : ConsentKey) → get k client'.consent_store ≡ get k one_grant)
    × ((f : Text) (o : Origin) (s : ConsentScope)
        → is_some (check f o s client'.consent_store) ≡ is_some (check f o s one_grant))
    × ((export_state client').audit_entries ≡ (export_state used_client).audit_entries)
unfolding http_clients
build_client-export_state_example =
    build_client-export_state example_setup used_client plain_builder one_grant-IsStore refl refl

-- It refuses every request, and changes no response.
abbrev closed_gate : HttpMiddleware
closed_gate = record { on_request = λ r. err malformed_document; on_response = λ r. ok r }

add_middleware-order_example :
    (request_chain
        (add_middleware closed_gate client_builder).middleware
        (record { url = host; headers = [] })
      ≡ (request_chain [] (record { url = host; headers = [] }) >>= λ r. closed_gate.on_request r))
    × (response_chain (add_middleware closed_gate client_builder).middleware good
        ≡ (closed_gate.on_response good >>= λ r. response_chain [] r))
add_middleware-order_example =
    add_middleware-order closed_gate client_builder (record { url = host; headers = [] }) good

abbrev done : Text → AnmlStep
done i = record {
  id = i;
  label = none;
  status = some completed;
  required = none;
  next = none;
  condition = none;
  action = none;
}

-- Of two steps that are both completed, the summary shows the third.
shown_past_end : shown_number (record { steps = done (codes "a") ∷ done (codes "b") ∷ [] }) ≡ 3
unfolding shown_number
shown_past_end = refl
