-- ===== src/Client/Setters.antt =====
-- The setters of `AnmlClientBuilder` in src/client.rs, and `fetch` and `fetch_url` of a client, which
-- keeps the breaker that a fetch leaves.
use anml_client_rust.Common.{ℕ, Bool, none, some, [], ◌∷◌, ◌++◌, Text}
use anml_client_rust.Config.{TimeoutConfig, ResourceLimits, ActionBudget}
use anml_client_rust.Config.Builder.{
  builder, with_base_url, with_timeouts, with_timeout, with_plaintext_http, with_default_header,
  with_resource_limits, with_action_budget,
}
use anml_client_rust.Auth.{AuthProvider}
use anml_client_rust.Client.Delay.{DelayFloats, RetryPolicy}
use anml_client_rust.Client.Fetch.{Web, HttpMiddleware}
use anml_client_rust.Client.Retries.{Fetched, fetch_url, fetch}
use anml_client_rust.Client.State.{
  TrustPolicy, ConsentHandler, ConfirmHandler, AuditLog, AnmlClient, AnmlClientBuilder,
}

-- `AnmlClient::builder`
abbrev pub client_builder : AnmlClientBuilder
client_builder = record {
  config_builder = builder;
  trust_policy = none;
  auth_provider = none;
  consent_handler = none;
  confirm_handler = none;
  condition_evaluator = none;
  audit_log = none;
  middleware = [];
  retry_policy = none;
  circuit_breaker_threshold = none;
  circuit_breaker_cooldown = none;
  restored_state = none;
}

abbrev pub set_base_url : Text → AnmlClientBuilder → AnmlClientBuilder
set_base_url url b = record b { config_builder = with_base_url url b.config_builder }

abbrev pub set_timeout : ℕ → AnmlClientBuilder → AnmlClientBuilder
set_timeout d b = record b { config_builder = with_timeout d b.config_builder }

abbrev pub set_timeouts : TimeoutConfig → AnmlClientBuilder → AnmlClientBuilder
set_timeouts t b = record b { config_builder = with_timeouts t b.config_builder }

abbrev pub set_plaintext_http : Bool → AnmlClientBuilder → AnmlClientBuilder
set_plaintext_http a b = record b { config_builder = with_plaintext_http a b.config_builder }

abbrev pub set_default_header : Text → Text → AnmlClientBuilder → AnmlClientBuilder
set_default_header n v b = record b { config_builder = with_default_header n v b.config_builder }

abbrev pub set_resource_limits : ResourceLimits → AnmlClientBuilder → AnmlClientBuilder
set_resource_limits l b = record b { config_builder = with_resource_limits l b.config_builder }

abbrev pub set_action_budget : ActionBudget → AnmlClientBuilder → AnmlClientBuilder
set_action_budget a b = record b { config_builder = with_action_budget a b.config_builder }

abbrev pub set_trust_policy : TrustPolicy → AnmlClientBuilder → AnmlClientBuilder
set_trust_policy p b = record b { trust_policy = some p }

abbrev pub set_auth_provider : AuthProvider → AnmlClientBuilder → AnmlClientBuilder
set_auth_provider p b = record b { auth_provider = some p }

abbrev pub set_consent_handler : ConsentHandler → AnmlClientBuilder → AnmlClientBuilder
set_consent_handler h b = record b { consent_handler = some h }

abbrev pub set_confirm_handler : ConfirmHandler → AnmlClientBuilder → AnmlClientBuilder
set_confirm_handler h b = record b { confirm_handler = some h }

abbrev pub set_condition_evaluator : (Text → Text → Bool) → AnmlClientBuilder → AnmlClientBuilder
set_condition_evaluator e b = record b { condition_evaluator = some e }

abbrev pub set_audit_log : AuditLog → AnmlClientBuilder → AnmlClientBuilder
set_audit_log l b = record b { audit_log = some l }

-- `middleware`
unfoldable pub add_middleware : HttpMiddleware → AnmlClientBuilder → AnmlClientBuilder
add_middleware m b = record b { middleware = b.middleware ++ (m ∷ []) }

abbrev pub set_retry_policy : RetryPolicy → AnmlClientBuilder → AnmlClientBuilder
set_retry_policy p b = record b { retry_policy = some p }

abbrev pub set_breaker_threshold : ℕ → AnmlClientBuilder → AnmlClientBuilder
set_breaker_threshold n b = record b { circuit_breaker_threshold = some n }

abbrev pub set_breaker_cooldown : ℕ → AnmlClientBuilder → AnmlClientBuilder
set_breaker_cooldown d b = record b { circuit_breaker_cooldown = some d }

abbrev pub keep_breaker : AnmlClient → Fetched → AnmlClient × Fetched
keep_breaker client f = (record client { circuit_breaker = f.breaker }, f)

module _ (floats : DelayFloats) (web : Web) (clock : ℕ → ℕ) (now : ℕ) where
  unfoldable pub client_fetch_url : Text → AnmlClient → AnmlClient × Fetched
  client_fetch_url url client = keep_breaker client (
      fetch_url floats web client.config client.middleware client.retry_policy clock now url
        client.circuit_breaker)

  unfoldable pub client_fetch : Text → AnmlClient → AnmlClient × Fetched
  client_fetch path client = keep_breaker client (
      fetch floats web client.config client.middleware client.retry_policy clock now path
        client.circuit_breaker)
