-- ===== src/Knowledge/Responses.antt =====
-- What a response of src/knowledge/response.rs discloses.
use anml_client_rust.Common.{Bool, some, List, [], ◌∷◌, ◌≡◌, refl, ap, Text, arith}
use anml_client_rust.Document.{AnmlDocument}
use anml_client_rust.Disclosure.Matching.{DisclosureRule, resolve_rule}
use anml_client_rust.Disclosure.Consent.{ConsentBasis}
use anml_client_rust.Disclosure.Evaluate.{
  DisclosureContext, Stores, DisclosureDecision, allow, deny, terms, evaluate,
}
use anml_client_rust.Disclosure.Evaluate.Outcomes.{Permitted, evaluate-allow_iff}
use anml_client_rust.Disclosure.Extract.{extract_rules}
use anml_client_rust.Knowledge.{
  AnmlResponseBuilder, AnswerOutcome, answered, refused, outcome_of, consent_basis_to_type,
  add_outcome, answer_loop, build_response,
}

module _ (url_parses : Text → Bool) (hmac_hex : Text → Text → Text) (ctx : DisclosureContext)
    (doc : AnmlDocument) where
  -- The evaluation of a field permits the value `v`.
  abbrev pub Permits :
      List DisclosureRule → Text → Text → Stores → Text → ConsentBasis → Bool → Type 0
  Permits rules field value s v b tok =
      Permitted url_parses hmac_hex ctx doc field value (terms (resolve_rule field rules)) s v b tok

  abbrev pub Answers : List DisclosureRule → Text → Text → Stores → AnswerOutcome → Type 0
  Answers rules field value s (answered a) =
      (a.field ≡ field)
      × ((b : ConsentBasis) × (tok : Bool) × Permits rules field value s a.value b tok
          × (a.consent ≡ some (consent_basis_to_type b)))
  Answers rules field value s (refused r) =
      (v : Text) (b : ConsentBasis) (tok : Bool) → ¬ Permits rules field value s v b tok

  -- The outcomes, one for each pair, from the stores as the pairs before have left them.
  abbrev pub Discloses :
      List DisclosureRule → List (Text × Text) → Stores → List AnswerOutcome → Stores → Type 0
  Discloses rules [] s [] s' = s ≡ s'
  Discloses rules ((field, value) ∷ rest) s (o ∷ os) s' =
      Answers rules field value s o
      × Discloses rules rest (evaluate url_parses hmac_hex ctx doc rules field value s).0 os s'
  Discloses rules _ s _ s' = ⊥

  outcome_of-Answers :
      (rules : List DisclosureRule) (field value : Text) (s : Stores) (d : DisclosureDecision)
      → (evaluate url_parses hmac_hex ctx doc rules field value s).1 ≡ d
      → Answers rules field value s (outcome_of field d)
  outcome_of-Answers rules field value s (allow v b tok) e = (
    refl,
    (
      b,
      tok,
      (evaluate-allow_iff url_parses hmac_hex ctx doc field value rules s v b tok).0 e,
      refl,
    ),
  )
  outcome_of-Answers rules field value s (deny denied reason) e = λ v b tok p.
      let h = (evaluate-allow_iff url_parses hmac_hex ctx doc field value rules s v b tok).1 p in
      ground (arith, h, e)

  module _ (anml : AnmlResponseBuilder) where
    abbrev pub add_outcomes : List AnswerOutcome → anml.Builder → anml.Builder
    add_outcomes [] b = b
    add_outcomes (o ∷ os) b = add_outcomes os (add_outcome anml o b)

    answer_loop-Discloses :
        (rules : List DisclosureRule) (answers : List (Text × Text)) (s : Stores) (b : anml.Builder)
        → (os : List AnswerOutcome) × Discloses rules answers s os
            (answer_loop anml url_parses hmac_hex ctx doc rules answers s b).0
          × ((answer_loop anml url_parses hmac_hex ctx doc rules answers s b).1 ≡ add_outcomes os b)
    unfolding answer_loop
    answer_loop-Discloses rules [] s b = ([], refl, refl)
    answer_loop-Discloses rules ((field, value) ∷ answers) s b =
        let decision = (evaluate url_parses hmac_hex ctx doc rules field value s).1 in
        let (os, discloses, e) =
          answer_loop-Discloses rules answers
            (evaluate url_parses hmac_hex ctx doc rules field value s).0
            (add_outcome anml (outcome_of field decision) b) in
        (
          outcome_of field decision ∷ os,
          (outcome_of-Answers rules field value s decision refl, discloses),
          e,
        )

    -- A response has one element for each pair, in their order: an answer where the evaluation of the
    -- field permits a disclosure, which carries only the value that it permits, with the basis of
    -- the consent; a refusal where it permits none. Each evaluation sees the consents and the rate
    -- limits as the earlier ones have left them.
    pub build_response-Discloses :
        (answers : List (Text × Text)) (s : Stores)
        → (os : List AnswerOutcome) × Discloses
            (extract_rules doc)
            answers
            s
            os
            (build_response anml url_parses hmac_hex ctx doc answers s).0
          × ((build_response anml url_parses hmac_hex ctx doc answers s).1
              ≡ anml.build (add_outcomes os anml.empty))
    unfolding build_response
    build_response-Discloses answers s =
        let (os, discloses, e) = answer_loop-Discloses (extract_rules doc) answers s anml.empty in
        (os, discloses, ap anml.build e)
