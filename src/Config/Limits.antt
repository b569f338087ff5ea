-- ===== src/Config/Limits.antt =====
-- The floors of the resource limits of src/config.rs.
use anml_client_rust.Common.{◌≤◌, ◌≡◌, arith}
use anml_client_rust.Config.{ResourceLimits, floors, clamp}

-- The limits `a` are, field by field, at most the limits `b`.
pub record AtMost (a b : ResourceLimits) : Type 0 where
  pub document_size : a.max_document_size ≤ b.max_document_size
  pub depth : a.max_depth ≤ b.max_depth
  pub elements : a.max_elements ≤ b.max_elements
  pub attribute_value_length : a.max_attribute_value_length ≤ b.max_attribute_value_length
  pub attributes_per_element : a.max_attributes_per_element ≤ b.max_attributes_per_element
  pub text_per_element : a.max_text_per_element ≤ b.max_text_per_element
  pub entity_expansion_ratio : a.max_entity_expansion_ratio ≤ b.max_entity_expansion_ratio
  pub parse_time : a.max_parse_time ≤ b.max_parse_time
  pub disclosure_rules : a.max_disclosure_rules ≤ b.max_disclosure_rules
  pub knowledge_primitives : a.max_knowledge_primitives ≤ b.max_knowledge_primitives
  pub steps_per_flow : a.max_steps_per_flow ≤ b.max_steps_per_flow

-- Clamping gives the least limits that lie above the floors and above the limits given: they lie
-- above both in each of the eleven fields, and below any other limits that do.
pub clamp-least :
    (l : ResourceLimits)
    → AtMost floors (clamp l)
      × AtMost l (clamp l)
      × ((m : ResourceLimits) → AtMost floors m → AtMost l m → AtMost (clamp l) m)
unfolding clamp
clamp-least l = (omega arith, omega arith, λ m a b. omega arith)

-- Limits that respect the floors are left as they are; so clamping twice is clamping once.
pub clamp_fixed : (l : ResourceLimits) → AtMost floors l → clamp l ≡ l
unfolding clamp
clamp_fixed l h = ground arith
