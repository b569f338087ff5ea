-- ===== src/Knowledge/Examples.antt =====
-- Witnesses for src/knowledge/response.rs.
use anml_client_rust.Common.{true, false, none, some, List, [], ◌∷◌, ◌++◌, ◌≡◌, Bool, Text, codes}
use anml_client_rust.Document.{AnmlDocument, empty_document}
use anml_client_rust.Config.{from_secs, TrustDecision, ConsentDecision}
use anml_client_rust.Disclosure.Evaluate.{DisclosureContext, Stores}
use anml_client_rust.Disclosure.Extract.{extract_rules}
use anml_client_rust.Knowledge.{
  AnmlResponseBuilder, AnswerOutcome, user_denied, build_refuse, build_response, new_response,
}
use anml_client_rust.Knowledge.Responses.{Discloses, add_outcomes, build_response-Discloses}
use anml_client_rust.Knowledge.Refused.{
  Element, answer_element, refuse_element, ask_element, inform_element, Holds, Method, add_checked,
  add_refuse, calls, refused_fields-Holds,
}

-- A builder that keeps the elements, and whose document is always empty.
abbrev tally : List Element → AnmlDocument
tally es = empty_document

abbrev example_builder : AnmlResponseBuilder
example_builder = record {
  Builder = List Element;
  empty = [];
  answer = λ a b. b ++ (answer_element a ∷ []);
  refuse = λ r b. b ++ (refuse_element r ∷ []);
  ask = λ a b. b ++ (ask_element a ∷ []);
  inform = λ i b. b ++ (inform_element i ∷ []);
  build = tally;
}

abbrev example_ctx : DisclosureContext
example_ctx = record {
  origin = record { scheme = codes "https"; host = codes "shop.example"; port = none };
  trust_policy = λ o d. TrustDecision.allow;
  auth_provider = false;
  consent_handler = some (λ f o. ConsentDecision.grant);
  tokenizer = none;
  principal_id = none;
  now = from_secs 100;
  granted_at = from_secs 100;
}

abbrev any_url : Text → Bool
any_url u = true

abbrev keyed : Text → Text → Text
keyed key message = key ++ message

abbrev nothing_stored : Stores
nothing_stored = record { consents = []; limiter = [] }

abbrev example_answers : List (Text × Text)
example_answers = (codes "email", codes "a@b.example") ∷ (codes "phone", codes "5") ∷ []

build_response-Discloses_example :
    (os : List AnswerOutcome) × Discloses any_url keyed example_ctx empty_document
      (extract_rules empty_document)
      example_answers
      nothing_stored
      os
      (build_response example_builder any_url keyed example_ctx empty_document example_answers
        nothing_stored).0
    × ((build_response example_builder any_url keyed example_ctx empty_document example_answers
          nothing_stored).1
        ≡ tally (add_outcomes any_url keyed example_ctx empty_document example_builder os []))
build_response-Discloses_example =
    build_response-Discloses any_url keyed example_ctx empty_document example_builder
      example_answers nothing_stored

abbrev example_methods : List (Method example_builder)
example_methods =
    add_checked empty_document (codes "email") (codes "a@b.example")
    ∷ add_refuse (build_refuse (codes "phone") user_denied none)
    ∷ []

refused_fields-Holds_example :
    (es : List Element) × Holds example_builder es
      (calls example_builder any_url keyed example_ctx example_methods
        (nothing_stored, new_response example_builder)).1
refused_fields-Holds_example =
    refused_fields-Holds example_builder any_url keyed example_ctx example_methods nothing_stored
