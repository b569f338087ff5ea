-- ===== src/Disclosure/Evaluate/Effects.antt =====
-- What `evaluate` of src/disclosure/mod.rs leaves in the two stores.
use anml_client_rust.Common.{
  ℕ, Bool, Option, none, some, List, ◌≡◌, refl, ◌⊎◌, inl, inr, Text, arith, Option-cases,
}
use anml_client_rust.Document.{
  AnmlDocument, DisclosureRequires, explicit_consent, implicit_consent, authentication,
}
use anml_client_rust.Config.{Origin, ConsentDecision}
use anml_client_rust.Disclosure.Matching.{DisclosureRule, ConsentScope, resolve_rule}
use anml_client_rust.Disclosure.Consent.{
  ConsentBasis, explicit, implicit, ConsentStore, grant, check,
}
use anml_client_rust.Disclosure.RateLimit.{
  Tracker, Outcome, allowed, retry_after, check_and_record_at,
}
use anml_client_rust.Disclosure.Evaluate.{
  DisclosureDecision, DisclosureContext, Stores, Terms, terms, ask_handler, answer, check_consent,
  after_rate_limit, evaluate_terms, evaluate,
}
use anml_client_rust.Disclosure.Evaluate.Outcomes.{GrantsBy, RateOk}

-- The store afterwards holds what it held, or one grant more, which the handler gave.
abbrev pub Recorded :
    Option (Text → Origin → ConsentDecision)
    → ℕ
    → Text
    → Origin
    → ConsentScope
    → ConsentStore
    → ConsentStore
    → Type 0
Recorded handler now field o scope before after =
    (after ≡ before)
    ⊎ (GrantsBy handler field o × ((b : ConsentBasis) × (after ≡ grant now field o scope b before)))

ask_handler-Recorded :
    (handler : Option (Text → Origin → ConsentDecision)) (now : ℕ) (field : Text) (o : Origin)
    (scope : ConsentScope) (b : ConsentBasis) (store : ConsentStore)
    → Recorded handler now field o scope store (ask_handler handler now field o scope b store).0
unfolding ask_handler
ask_handler-Recorded none now field o scope b store = inl refl
ask_handler-Recorded (some handler) now field o scope b store = go (handler field o) refl
  where
    go :
        (d : ConsentDecision)
        → handler field o ≡ d
        → Recorded
            (some handler)
            now
            field
            o
            scope
            store
            (answer (handler field o) now field o scope b store).0
    go ConsentDecision.grant e = inr (e, (b, rw e))
    go ConsentDecision.deny e = inl (rw e)

check_consent-Recorded :
    (ctx : DisclosureContext) (field : Text) (r : DisclosureRequires) (scope : ConsentScope)
    (store : ConsentStore)
    → Recorded ctx.consent_handler ctx.granted_at field ctx.origin scope store
        (check_consent ctx field r scope store).0
unfolding check_consent
check_consent-Recorded ctx field explicit_consent scope store =
    ask_handler-Recorded ctx.consent_handler ctx.granted_at field ctx.origin scope explicit store
check_consent-Recorded ctx field implicit_consent scope store =
    elim (Option-cases (check field ctx.origin scope store)) [
      | inl missing ↦
          rw (missing, check_consent)
            (ask_handler-Recorded ctx.consent_handler ctx.granted_at field ctx.origin scope implicit
              store)
      | inr (b, standing) ↦ inl (rw (standing, check_consent))
    ]
check_consent-Recorded ctx field authentication scope store = inl (ground arith)
check_consent-Recorded ctx field DisclosureRequires.none scope store = inl refl
check_consent-Recorded ctx field DisclosureRequires.other scope store =
    ask_handler-Recorded ctx.consent_handler ctx.granted_at field ctx.origin scope explicit store

module _ (url_parses : Text → Bool) (hmac_hex : Text → Text → Text) (ctx : DisclosureContext)
    (doc : AnmlDocument) (field value : Text) where
  -- The tracker after step 2.
  abbrev pub limiter_after : Option ℕ → Tracker → Tracker
  limiter_after none entries = entries
  limiter_after (some limit) entries =
      (check_and_record_at field ctx.origin limit ctx.now entries).0

  -- A rate-limited evaluation stops before the consent step.
  abbrev pub Effects : Terms → Stores → Stores × DisclosureDecision → Type 0
  Effects t s r =
      (r.0.limiter ≡ limiter_after t.rate_limit s.limiter)
      × Recorded ctx.consent_handler ctx.granted_at field ctx.origin t.consent_scope s.consents
          r.0.consents
      × (RateOk url_parses hmac_hex ctx doc field value t s ⊎ (r.0.consents ≡ s.consents))

  after_rate_limit-consents :
      (t : Terms) (s : Stores)
      → Recorded ctx.consent_handler ctx.granted_at field ctx.origin t.consent_scope s.consents
          (after_rate_limit url_parses hmac_hex ctx doc t field value s).0.consents
  unfolding after_rate_limit
  after_rate_limit-consents t s =
      check_consent-Recorded ctx field t.requires t.consent_scope s.consents

  limited :
      (requires : DisclosureRequires) (scope : ConsentScope) (limit : ℕ) (tok : Bool) (s : Stores)
      (o : Outcome)
      → (check_and_record_at field ctx.origin limit ctx.now s.limiter).1 ≡ o
      → let t : Terms = record {
        requires = requires;
        consent_scope = scope;
        rate_limit = some limit;
        tokenize = tok;
      } in
        Effects t s (evaluate_terms url_parses hmac_hex ctx doc t field value s)
  unfolding evaluate_terms after_rate_limit
  limited requires scope limit tok s allowed e = (
    rw (e, evaluate_terms),
    rw (e, evaluate_terms) (check_consent-Recorded ctx field requires scope s.consents),
    inl e,
  )
  limited requires scope limit tok s (retry_after n) e =
      (rw (e, evaluate_terms), inl (rw (e, evaluate_terms)), inr (rw (e, evaluate_terms)))

  by_limit :
      (requires : DisclosureRequires) (scope : ConsentScope) (limit : Option ℕ) (tok : Bool)
      (s : Stores)
      → let t : Terms = record {
        requires = requires;
        consent_scope = scope;
        rate_limit = limit;
        tokenize = tok;
      } in
        Effects t s (evaluate_terms url_parses hmac_hex ctx doc t field value s)
  unfolding evaluate_terms after_rate_limit
  by_limit requires scope none tok s =
      (refl, check_consent-Recorded ctx field requires scope s.consents, inl tt)
  by_limit requires scope (some limit) tok s =
      limited requires scope limit tok s
        (check_and_record_at field ctx.origin limit ctx.now s.limiter).1 refl

  -- Whatever the decision, the limiter holds the result of the one call of step 2, so that a
  -- disclosure which a later step denies has been counted; the consent store is as before, or holds
  -- one grant more for the field, the origin and the rule's scope, and then the handler granted it;
  -- and where the limiter refuses, the consent store is as before.
  pub evaluate-Effects :
      (rules : List DisclosureRule) (s : Stores)
      → Effects
          (terms (resolve_rule field rules))
          s
          (evaluate url_parses hmac_hex ctx doc rules field value s)
  unfolding evaluate
  evaluate-Effects rules s =
      let t = terms (resolve_rule field rules) in
      by_limit t.requires t.consent_scope t.rate_limit t.tokenize s
