-- ===== src/Knowledge.antt =====
-- src/knowledge/response.rs: the answers and refusals that a response carries. The builder of the
-- crate `anml` is the record `AnmlResponseBuilder`. The prose `message` of a refusal is left out.
mod Examples
pub mod Responses
pub mod Refused
use anml_client_rust.Common.{ℕ, Bool, Option, none, some, List, [], ◌∷◌, ◌++◌, Text}
use anml_client_rust.Document.{AnmlDocument, AnmlAsk}
use anml_client_rust.Disclosure.Matching.{DisclosureRule}
use anml_client_rust.Disclosure.Consent.{ConsentBasis}
use anml_client_rust.Disclosure.Evaluate.{
  DisclosureContext, Stores, DisclosureDecision, allow, deny, RefuseReason, evaluate,
}
use anml_client_rust.Disclosure.Extract.{extract_rules}

pub data ConsentType : Type 0 where
  explicit implicit delegated : ConsentType

-- The reasons that the crate `anml` has.
pub data AnmlRefuseReason : Type 0 where
  constraint_violation user_denied policy_violation unsupported_field : AnmlRefuseReason
  trust_insufficient : AnmlRefuseReason

pub record AnmlAnswer : Type 0 where
  pub field : Text
  pub value : Text
  pub consent : Option ConsentType

pub record AnmlRefuse : Type 0 where
  pub field : Text
  pub reason : AnmlRefuseReason
  pub constraint : Option Text

pub record AnmlInform : Type 0 where
  pub text : Option Text

pub record AnmlResponseBuilder : Type 1 where
  pub Builder : Type 0
  pub empty : Builder
  pub answer : AnmlAnswer → Builder → Builder
  pub refuse : AnmlRefuse → Builder → Builder
  pub ask : AnmlAsk → Builder → Builder
  pub inform : AnmlInform → Builder → Builder
  pub build : Builder → AnmlDocument

abbrev pub consent_basis_to_type : ConsentBasis → ConsentType
consent_basis_to_type ConsentBasis.explicit = explicit
consent_basis_to_type ConsentBasis.implicit = implicit
consent_basis_to_type ConsentBasis.delegated = delegated

abbrev pub refuse_reason_to_anml : RefuseReason → AnmlRefuseReason
refuse_reason_to_anml RefuseReason.constraint_violation = constraint_violation
refuse_reason_to_anml RefuseReason.user_denied = user_denied
refuse_reason_to_anml RefuseReason.policy_violation = policy_violation
refuse_reason_to_anml RefuseReason.unsupported_field = unsupported_field
refuse_reason_to_anml RefuseReason.trust_insufficient = trust_insufficient
refuse_reason_to_anml (RefuseReason.rate_limited after) = policy_violation
refuse_reason_to_anml RefuseReason.not_available = policy_violation

abbrev pub build_ask : Text → Text → Option Text → AnmlAsk
build_ask field action_id purpose = record {
  field = field;
  action = action_id;
  required = none;
  purpose = purpose;
  ask_type = none;
}

pub data AnswerOutcome : Type 0 where
  answered : AnmlAnswer → AnswerOutcome
  refused : AnmlRefuse → AnswerOutcome

abbrev pub outcome_of : Text → DisclosureDecision → AnswerOutcome
outcome_of field (allow value basis tokenized) =
    answered (record { field = field; value = value; consent = some (consent_basis_to_type basis) })
outcome_of field (deny denied reason) =
    refused (record { field = denied; reason = refuse_reason_to_anml reason; constraint = none })

abbrev pub build_refuse : Text → AnmlRefuseReason → Option Text → AnmlRefuse
build_refuse field reason constraint = record {
  field = field;
  reason = reason;
  constraint = constraint;
}

abbrev pub build_inform : Text → AnmlInform
build_inform text = record { text = some text }

module _ (url_parses : Text → Bool) (hmac_hex : Text → Text → Text) (ctx : DisclosureContext) where
  unfoldable pub build_answer_with_rules :
      AnmlDocument → List DisclosureRule → Text → Text → Stores → Stores × AnswerOutcome
  build_answer_with_rules doc rules field value s =
      let (s', decision) = evaluate url_parses hmac_hex ctx doc rules field value s in
      (s', outcome_of field decision)

  unfoldable pub build_answer : AnmlDocument → Text → Text → Stores → Stores × AnswerOutcome
  unfolding build_answer_with_rules
  build_answer doc field value s = build_answer_with_rules doc (extract_rules doc) field value s

module _ (anml : AnmlResponseBuilder) where
  abbrev pub add_outcome : AnswerOutcome → anml.Builder → anml.Builder
  add_outcome (answered a) b = anml.answer a b
  add_outcome (refused r) b = anml.refuse r b

  module _ (url_parses : Text → Bool) (hmac_hex : Text → Text → Text)
      (ctx : DisclosureContext) where
    -- The loop of `build_response`.
    unfoldable pub answer_loop :
        AnmlDocument
        → List DisclosureRule
        → List (Text × Text)
        → Stores
        → anml.Builder
        → Stores × anml.Builder
    unfolding build_answer_with_rules
    answer_loop doc rules [] s b = (s, b)
    answer_loop doc rules ((field, value) ∷ answers) s b =
        let (s', outcome) =
          build_answer_with_rules url_parses hmac_hex ctx doc rules field value s in
        answer_loop doc rules answers s' (add_outcome outcome b)

    unfoldable pub build_response :
        AnmlDocument → List (Text × Text) → Stores → Stores × AnmlDocument
    unfolding answer_loop
    build_response doc answers s =
        let (s', b) = answer_loop doc (extract_rules doc) answers s anml.empty in (s', anml.build b)

  -- The composite builder.
  pub record ResponseBuilder : Type 0 where
    pub inner : anml.Builder
    pub refused : List AnmlRefuse

  abbrev pub new_response : ResponseBuilder
  new_response = record { inner = anml.empty; refused = [] }

  abbrev pub with_answer : AnmlAnswer → ResponseBuilder → ResponseBuilder
  with_answer a b = record b { inner = anml.answer a b.inner }

  unfoldable pub with_refuse : AnmlRefuse → ResponseBuilder → ResponseBuilder
  with_refuse r b = record b { inner = anml.refuse r b.inner; refused = b.refused ++ (r ∷ []) }

  abbrev pub with_ask : AnmlAsk → ResponseBuilder → ResponseBuilder
  with_ask a b = record b { inner = anml.ask a b.inner }

  abbrev pub with_inform_element : AnmlInform → ResponseBuilder → ResponseBuilder
  with_inform_element i b = record b { inner = anml.inform i b.inner }

  abbrev pub with_inform : Text → ResponseBuilder → ResponseBuilder
  with_inform text b = with_inform_element (build_inform text) b

  abbrev pub refused_fields : ResponseBuilder → List AnmlRefuse
  refused_fields b = b.refused

  -- `build`
  abbrev pub finish_response : ResponseBuilder → AnmlDocument
  finish_response b = anml.build b.inner

  abbrev pub with_outcome : AnswerOutcome → ResponseBuilder → ResponseBuilder
  with_outcome (answered a) b = with_answer a b
  with_outcome (refused r) b = with_refuse r b

  unfoldable pub answer_checked :
      (Text → Bool)
      → (Text → Text → Text)
      → DisclosureContext
      → AnmlDocument
      → Text
      → Text
      → Stores
      → ResponseBuilder
      → Stores × ResponseBuilder
  unfolding build_answer with_refuse
  answer_checked url_parses hmac_hex ctx doc field value s b =
      let (s', outcome) = build_answer url_parses hmac_hex ctx doc field value s in
      (s', with_outcome outcome b)
