-- ===== src/Config/Builder.antt =====
-- The `ClientConfig` of src/config.rs and its builder.
use anml_client_rust.Common.{
  ℕ, Bool, false, Option, none, some, List, [], ◌∷◌, ◌++◌, ◌≡◌, refl, Text,
}
use anml_client_rust.Config.{
  TimeoutConfig, default_timeouts, ResourceLimits, default_limits, clamp, ActionBudget,
  default_budget,
}

pub record ClientConfig : Type 0 where
  pub base_url : Option Text
  pub timeouts : TimeoutConfig
  pub allow_plaintext_http : Bool
  pub default_headers : List (Text × Text)
  pub resource_limits : ResourceLimits
  pub action_budget : ActionBudget

-- `ClientConfig::default`
abbrev pub default_config : ClientConfig
default_config = record {
  base_url = none;
  timeouts = default_timeouts;
  allow_plaintext_http = false;
  default_headers = [];
  resource_limits = default_limits;
  action_budget = default_budget;
}

pub record ClientConfigBuilder : Type 0 where
  pub base_url : Option Text
  pub timeouts : Option TimeoutConfig
  pub allow_plaintext_http : Bool
  pub default_headers : List (Text × Text)
  pub resource_limits : Option ResourceLimits
  pub action_budget : Option ActionBudget

-- `ClientConfig::builder`
abbrev pub builder : ClientConfigBuilder
builder = record {
  base_url = none;
  timeouts = none;
  allow_plaintext_http = false;
  default_headers = [];
  resource_limits = none;
  action_budget = none;
}

abbrev pub or_else {ℓ} : {A : Type ℓ} → Option A → A → A
or_else none d = d
or_else (some a) d = a

abbrev pub with_base_url : Text → ClientConfigBuilder → ClientConfigBuilder
with_base_url url b = record b { base_url = some url }

abbrev pub with_timeouts : TimeoutConfig → ClientConfigBuilder → ClientConfigBuilder
with_timeouts t b = record b { timeouts = some t }

-- `timeout`
abbrev pub with_timeout : ℕ → ClientConfigBuilder → ClientConfigBuilder
with_timeout d b = record b {
  timeouts = some (record (or_else b.timeouts default_timeouts) { per_request = d });
}

abbrev pub with_plaintext_http : Bool → ClientConfigBuilder → ClientConfigBuilder
with_plaintext_http allow b = record b { allow_plaintext_http = allow }

-- `default_header`
abbrev pub with_default_header : Text → Text → ClientConfigBuilder → ClientConfigBuilder
with_default_header name value b = record b {
  default_headers = b.default_headers ++ ((name, value) ∷ []);
}

abbrev pub with_resource_limits : ResourceLimits → ClientConfigBuilder → ClientConfigBuilder
with_resource_limits l b = record b { resource_limits = some l }

abbrev pub with_action_budget : ActionBudget → ClientConfigBuilder → ClientConfigBuilder
with_action_budget a b = record b { action_budget = some a }

unfoldable pub build : ClientConfigBuilder → ClientConfig
unfolding clamp
build b = record {
  base_url = b.base_url;
  timeouts = or_else b.timeouts default_timeouts;
  allow_plaintext_http = b.allow_plaintext_http;
  default_headers = b.default_headers;
  resource_limits = clamp (or_else b.resource_limits default_limits);
  action_budget = or_else b.action_budget default_budget;
}

-- A builder on which nothing is set builds the default configuration: the default limits lie above
-- the floors.
pub build-builder : build builder ≡ default_config
unfolding build
build-builder = refl
