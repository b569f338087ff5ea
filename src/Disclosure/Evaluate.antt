-- ===== src/Disclosure/Evaluate.antt =====
-- src/disclosure/mod.rs: the seven steps that decide whether a value may be disclosed. The two stores
-- that the context refers to are passed in and returned. The trust policy and the consent handler are
-- the functions that the caller supplies; `Url::parse` (the crate `url`) and the keyed hash are
-- parameters. The prose `reason` of a denial is left out.
pub mod Outcomes
pub mod Effects
use anml_client_rust.Common.{
  ℕ, suc, ◌+◌, Bool, true, false, ◌&&◌, ◌||◌, Option, none, some, List, [], ◌∷◌, ◌==◌, leb,
  if◌then◌else◌, length, find, any, is_some, get_elem?, Text, text_eq, codes, is_float,
  parse_unsigned,
}
use anml_client_rust.Document.{
  AnmlDocument, AnmlAsk, AnmlKnowledge, AnmlDisclosure, DisclosureRequires, explicit_consent,
  implicit_consent, authentication, FieldType,
}
use anml_client_rust.Config.{Origin, origin_text, TrustDecision, ConsentDecision}
use anml_client_rust.Disclosure.Values.{validate_value}
use anml_client_rust.Security.{Tokenizer, tokenize}
use anml_client_rust.Disclosure.Matching.{
  DisclosureRule, exact, ConsentScope, session, MatchResult, resolve_rule, drop,
}
use anml_client_rust.Disclosure.Consent.{
  ConsentBasis, explicit, implicit, delegated, ConsentStore, grant, check,
}
use anml_client_rust.Disclosure.RateLimit.{
  Tracker, Outcome, allowed, retry_after, check_and_record_at,
}

pub data RefuseReason : Type 0 where
  constraint_violation user_denied policy_violation unsupported_field : RefuseReason
  trust_insufficient not_available : RefuseReason
  rate_limited : Option ℕ → RefuseReason

pub data DisclosureDecision : Type 0 where
  -- value, consent_basis, tokenized
  allow : Text → ConsentBasis → Bool → DisclosureDecision
  -- field, refuse_reason
  deny : Text → RefuseReason → DisclosureDecision

pub record DisclosureContext : Type 0 where
  pub origin : Origin
  pub trust_policy : Origin → AnmlDocument → TrustDecision
  -- whether a provider is configured
  pub auth_provider : Bool
  pub consent_handler : Option (Text → Origin → ConsentDecision)
  pub tokenizer : Option Tokenizer
  pub principal_id : Option Text
  -- the clock when the rate limiter reads it, and when a grant is recorded
  pub now : ℕ
  pub granted_at : ℕ

pub record Stores : Type 0 where
  pub consents : ConsentStore
  pub limiter : Tracker

-- What step 1 takes from the rule.
pub record Terms : Type 0 where
  pub requires : DisclosureRequires
  pub consent_scope : ConsentScope
  pub rate_limit : Option ℕ
  pub tokenize : Bool

abbrev pub synthesized_terms : Terms
synthesized_terms = record {
  requires = explicit_consent;
  consent_scope = session;
  rate_limit = none;
  tokenize = false;
}

abbrev pub rule_terms : DisclosureRule → Terms
rule_terms r = record {
  requires = r.requires;
  consent_scope = r.consent_scope;
  rate_limit = r.rate_limit;
  tokenize = r.tokenize;
}

-- A match without a rule is a synthesized one.
unfoldable pub terms : MatchResult → Terms
terms m = elim m.rule [ none ↦ synthesized_terms | some r ↦ rule_terms r ]

-- The outcome of step 3.
pub data Verdict : Type 0 where
  granted : ConsentBasis → Verdict
  refused : RefuseReason → Verdict

-- The handler is asked, and a grant is recorded on the given basis.
abbrev pub answer :
    ConsentDecision
    → ℕ
    → Text
    → Origin
    → ConsentScope
    → ConsentBasis
    → ConsentStore
    → ConsentStore × Verdict
answer ConsentDecision.grant now field o scope basis store =
    (grant now field o scope basis store, granted basis)
answer ConsentDecision.deny now field o scope basis store = (store, refused user_denied)

unfoldable pub ask_handler :
    Option (Text → Origin → ConsentDecision)
    → ℕ
    → Text
    → Origin
    → ConsentScope
    → ConsentBasis
    → ConsentStore
    → ConsentStore × Verdict
ask_handler none now field o scope basis store = (store, refused constraint_violation)
ask_handler (some handler) now field o scope basis store =
    answer (handler field o) now field o scope basis store

unfoldable pub check_consent :
    DisclosureContext
    → Text
    → DisclosureRequires
    → ConsentScope
    → ConsentStore
    → ConsentStore × Verdict
unfolding ask_handler
check_consent ctx field explicit_consent scope store =
    ask_handler ctx.consent_handler ctx.granted_at field ctx.origin scope explicit store
check_consent ctx field implicit_consent scope store = elim (check field ctx.origin scope store) [
  | some basis ↦ (store, granted basis)
  | none ↦ ask_handler ctx.consent_handler ctx.granted_at field ctx.origin scope implicit store
]
check_consent ctx field authentication scope store =
    if ctx.auth_provider then (store, granted delegated) else (store, refused constraint_violation)
check_consent ctx field DisclosureRequires.none scope store = (store, granted implicit)
check_consent ctx field DisclosureRequires.other scope store =
    ask_handler ctx.consent_handler ctx.granted_at field ctx.origin scope explicit store

module _ (url_parses : Text → Bool) where
  module _ (hmac_hex : Text → Text → Text) (ctx : DisclosureContext) where
    -- Step 6: the value to emit, and whether it is a token.
    unfoldable pub emitted : Terms → Text → Text → Text × Bool
    emitted t field value =
        if t.tokenize
        then elim ctx.tokenizer [
          | none ↦ (value, false)
          | some tokenizer ↦ elim ctx.principal_id [
            | none ↦ (value, false)
            | some principal ↦ (tokenize hmac_hex tokenizer field principal ctx.origin, true)
          ]
        ]
        else (value, false)

    -- Steps 4 to 7, behind a consent.
    unfoldable pub after_consent :
        AnmlDocument → Terms → Text → Text → ConsentBasis → DisclosureDecision
    after_consent doc t field value basis = elim (ctx.trust_policy ctx.origin doc) [
      | TrustDecision.deny ↦ deny field trust_insufficient
      | TrustDecision.allow ↦
          if validate_value url_parses doc field value
          then allow (emitted t field value).0 basis (emitted t field value).1
          else deny field unsupported_field
    ]

    -- Step 3 and what follows it.
    unfoldable pub after_rate_limit :
        AnmlDocument → Terms → Text → Text → Stores → Stores × DisclosureDecision
    after_rate_limit doc t field value s =
        let (consents, verdict) = check_consent ctx field t.requires t.consent_scope s.consents in
        (
          record s { consents = consents },
          elim verdict [
            | refused reason ↦ deny field reason
            | granted basis ↦ after_consent doc t field value basis
          ],
        )

    -- Step 2 and what follows it.
    unfoldable pub evaluate_terms :
        AnmlDocument → Terms → Text → Text → Stores → Stores × DisclosureDecision
    evaluate_terms doc t field value s = elim t.rate_limit [
      | none ↦ after_rate_limit doc t field value s
      | some limit ↦
          let (limiter, outcome) = check_and_record_at field ctx.origin limit ctx.now s.limiter in
          elim outcome [
            | retry_after secs ↦
                (record s { limiter = limiter }, deny field (rate_limited (some secs)))
            | allowed ↦ after_rate_limit doc t field value (record s { limiter = limiter })
          ]
    ]

    unfoldable pub evaluate :
        AnmlDocument → List DisclosureRule → Text → Text → Stores → Stores × DisclosureDecision
    evaluate doc rules field value s =
        evaluate_terms doc (terms (resolve_rule field rules)) field value s
