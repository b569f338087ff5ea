-- ===== src/Config.antt =====
-- src/config.rs: origins, time limits, resource limits with their floors, the budgets, and the trust
-- policies. A `Duration` is a number of nanoseconds.
pub mod Limits
pub mod Trust
pub mod Builder
use anml_client_rust.Common.{
  ℕ, ◌+◌, ◌*◌, max, Bool, true, false, Option, none, some, List, [], ◌∷◌, ◌++◌, ◌==◌, if◌then◌else◌,
  any, Text, codes, text_eq, decimal,
}

pub record Origin : Type 0 where
  pub scheme : Text
  pub host : Text
  pub port : Option ℕ

-- `to_string`
unfoldable pub origin_text : Origin → Text
unfolding decimal
origin_text o = elim o.port [
  | some p ↦ o.scheme ++ (codes "://" ++ (o.host ++ (codes ":" ++ decimal p)))
  | none ↦ o.scheme ++ (codes "://" ++ o.host)
]

abbrev pub from_secs : ℕ → ℕ
from_secs n = n * 1_000_000_000

abbrev pub from_millis : ℕ → ℕ
from_millis n = n * 1_000_000

pub record TimeoutConfig : Type 0 where
  pub per_request : ℕ
  pub per_action : ℕ
  pub per_flow : ℕ
  pub per_media_fetch : ℕ
  pub parse : ℕ

abbrev pub default_timeouts : TimeoutConfig
default_timeouts = record {
  per_request = from_secs 30;
  per_action = from_secs 60;
  per_flow = from_secs 300;
  per_media_fetch = from_secs 15;
  parse = from_secs 5;
}

pub record ResourceLimits : Type 0 where
  pub max_document_size : ℕ
  pub max_depth : ℕ
  pub max_elements : ℕ
  pub max_attribute_value_length : ℕ
  pub max_attributes_per_element : ℕ
  pub max_text_per_element : ℕ
  pub max_entity_expansion_ratio : ℕ
  pub max_parse_time : ℕ
  pub max_disclosure_rules : ℕ
  pub max_knowledge_primitives : ℕ
  pub max_steps_per_flow : ℕ

-- The `FLOOR_` constants.
abbrev pub floors : ResourceLimits
floors = record {
  max_document_size = 1024;
  max_depth = 4;
  max_elements = 10;
  max_attribute_value_length = 256;
  max_attributes_per_element = 4;
  max_text_per_element = 256;
  max_entity_expansion_ratio = 1;
  max_parse_time = from_secs 1;
  max_disclosure_rules = 1;
  max_knowledge_primitives = 1;
  max_steps_per_flow = 1;
}

abbrev pub default_limits : ResourceLimits
default_limits = record {
  max_document_size = 1_048_576;
  max_depth = 64;
  max_elements = 10_000;
  max_attribute_value_length = 65_536;
  max_attributes_per_element = 256;
  max_text_per_element = 262_144;
  max_entity_expansion_ratio = 64;
  max_parse_time = from_secs 5;
  max_disclosure_rules = 1_000;
  max_knowledge_primitives = 1_000;
  max_steps_per_flow = 256;
}

unfoldable pub clamp : ResourceLimits → ResourceLimits
clamp l = record {
  max_document_size = max l.max_document_size floors.max_document_size;
  max_depth = max l.max_depth floors.max_depth;
  max_elements = max l.max_elements floors.max_elements;
  max_attribute_value_length = max l.max_attribute_value_length floors.max_attribute_value_length;
  max_attributes_per_element = max l.max_attributes_per_element floors.max_attributes_per_element;
  max_text_per_element = max l.max_text_per_element floors.max_text_per_element;
  max_entity_expansion_ratio = max l.max_entity_expansion_ratio floors.max_entity_expansion_ratio;
  max_parse_time = max l.max_parse_time floors.max_parse_time;
  max_disclosure_rules = max l.max_disclosure_rules floors.max_disclosure_rules;
  max_knowledge_primitives = max l.max_knowledge_primitives floors.max_knowledge_primitives;
  max_steps_per_flow = max l.max_steps_per_flow floors.max_steps_per_flow;
}

pub record ActionBudget : Type 0 where
  pub max_distinct_origins : ℕ
  pub max_requests : ℕ
  pub max_media_fetches : ℕ
  pub max_media_bandwidth : ℕ

abbrev pub default_budget : ActionBudget
default_budget = record {
  max_distinct_origins = 5;
  max_requests = 50;
  max_media_fetches = 20;
  max_media_bandwidth = 50 * 1_048_576;
}

pub data TrustDecision : Type 0 where
  allow deny : TrustDecision

abbrev pub port_eq : Option ℕ → Option ℕ → Bool
port_eq none none = true
port_eq (some p) (some q) = p == q
port_eq _ _ = false

-- The derived equality of `Origin`.
abbrev pub origin_eq : Origin → Origin → Bool
origin_eq a b =
    if text_eq a.scheme b.scheme
    then if text_eq a.host b.host then port_eq a.port b.port else false
    else false

unfoldable pub deny_all : Origin → TrustDecision
deny_all origin = deny

-- `AllowListTrustPolicy`, by its set of origins.
unfoldable pub contains_origin : List Origin → Origin → Bool
contains_origin allowed o = any (λ a. origin_eq a o) allowed

unfoldable pub allow_origin : List Origin → Origin → List Origin
allow_origin allowed o = if contains_origin allowed o then allowed else o ∷ allowed

-- `parse` is the crate `url`'s; a URL that does not parse is passed over.
abbrev pub allow_url : (Text → Option Origin) → List Origin → Text → List Origin
allow_url parse allowed url = elim (parse url) [
  | none ↦ allowed
  | some parsed ↦ allow_origin allowed parsed
]

unfoldable pub allow_list : List Origin → Origin → TrustDecision
allow_list allowed o =
    if contains_origin allowed o
    then allow
    else if contains_origin allowed (record o { port = none })
    then allow
    else deny

pub data ConsentDecision : Type 0 where
  grant deny : ConsentDecision

pub data ConfirmDecision : Type 0 where
  confirm cancel : ConfirmDecision

pub data AuthRefreshResult : Type 0 where
  refreshed failed : AuthRefreshResult
