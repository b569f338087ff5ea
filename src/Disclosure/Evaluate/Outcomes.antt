-- ===== src/Disclosure/Evaluate/Outcomes.antt =====
-- When `evaluate` of src/disclosure/mod.rs allows a disclosure.
use anml_client_rust.Common.{
  Bool, true, false, codes, ◌++◌, refl, ap, if◌then◌else◌, inl, inr, Option, none, some, List, ◌≡◌,
  ◌↔◌, ◌⊎◌, Text, arith,
}
use anml_client_rust.Document.{
  AnmlDocument, DisclosureRequires, explicit_consent, implicit_consent, authentication,
}
use anml_client_rust.Config.{Origin, origin_text, TrustDecision, ConsentDecision}
use anml_client_rust.Disclosure.Matching.{DisclosureRule, ConsentScope, resolve_rule}
use anml_client_rust.Disclosure.Consent.{
  ConsentBasis, explicit, implicit, delegated, ConsentStore, check,
}
use anml_client_rust.Disclosure.RateLimit.{allowed, check_and_record_at}
use anml_client_rust.Disclosure.Evaluate.{
  allow, DisclosureContext, Stores, Terms, terms, granted, check_consent, emitted, after_consent,
  after_rate_limit, evaluate_terms, evaluate,
}
use anml_client_rust.Disclosure.Values.Types.{Answers, questions, validate_value_iff}
use anml_client_rust.Security.{Tokenizer, mac_input, tokenize}

-- The handler is configured and grants the field.
abbrev pub GrantsBy : Option (Text → Origin → ConsentDecision) → Text → Origin → Type 0
GrantsBy none field o = ⊥
GrantsBy (some handler) field o = handler field o ≡ ConsentDecision.grant

abbrev pub Grants : DisclosureContext → Text → Type 0
Grants ctx field = GrantsBy ctx.consent_handler field ctx.origin

-- What each requirement asks for before a disclosure on the basis `b`.
abbrev pub ConsentGiven :
    DisclosureContext
    → Text
    → DisclosureRequires
    → ConsentScope
    → ConsentStore
    → ConsentBasis
    → Type 0
ConsentGiven ctx field explicit_consent scope store b = Grants ctx field × (b ≡ explicit)
ConsentGiven ctx field implicit_consent scope store b =
    (check field ctx.origin scope store ≡ some b)
    ⊎ ((check field ctx.origin scope store ≡ none) × Grants ctx field × (b ≡ implicit))
ConsentGiven ctx field authentication scope store b = (ctx.auth_provider ≡ true) × (b ≡ delegated)
ConsentGiven ctx field DisclosureRequires.none scope store b = b ≡ implicit
ConsentGiven ctx field DisclosureRequires.other scope store b = Grants ctx field × (b ≡ explicit)

check_consent_iff :
    (ctx : DisclosureContext) (field : Text) (r : DisclosureRequires) (scope : ConsentScope)
    (store : ConsentStore) (b : ConsentBasis)
    → ((check_consent ctx field r scope store).1 ≡ granted b)
      ↔ ConsentGiven ctx field r scope store b
unfolding check_consent
check_consent_iff ctx field explicit_consent scope store b = ground arith
check_consent_iff ctx field implicit_consent scope store b = ground arith
check_consent_iff ctx field r scope store b = ground arith

module _ (url_parses : Text → Bool) (hmac_hex : Text → Text → Text) (ctx : DisclosureContext)
    (doc : AnmlDocument) (field value : Text) where
  abbrev pub RateOk : Terms → Stores → Type 0
  RateOk t s = elim t.rate_limit [
    | none ↦ Unit
    | some limit ↦ (check_and_record_at field ctx.origin limit ctx.now s.limiter).1 ≡ allowed
  ]

  -- What leaves: where it is asked for and can be made, a token, which is the keyed hash of the
  -- field, the principal and the origin; or the value.
  abbrev Leaves : Bool → Option Tokenizer → Option Text → Text → Bool → Type 0
  Leaves tokenizes tokenizer principal v tok =
      ((made : Tokenizer) × (holder : Text) × (tokenizes ≡ true)
        × (tokenizer ≡ some made)
        × (principal ≡ some holder)
        × (hmac_hex made.secret
              (field ++ (codes "|" ++ (holder ++ (codes "|" ++ origin_text ctx.origin))))
            ≡ v)
        × (true ≡ tok))
      ⊎ (((tokenizes ≡ false) ⊎ ((tokenizer ≡ Option.none) ⊎ (principal ≡ Option.none)))
          × (value ≡ v)
          × (false ≡ tok))

  abbrev pub Emits : Terms → Text → Bool → Type 0
  Emits t v tok = Leaves t.tokenize ctx.tokenizer ctx.principal_id v tok

  plain_iff :
      (tokenizes : Bool) (tokenizer : Option Tokenizer) (principal : Option Text) (v : Text)
      (tok : Bool)
      → (tokenizes ≡ false) ⊎ ((tokenizer ≡ Option.none) ⊎ (principal ≡ Option.none))
      → ◌≡◌ {A = Text × Bool} (value, false) (v, tok) ↔ Leaves tokenizes tokenizer principal v tok
  plain_iff tokenizes tokenizer principal v tok plain = (
    λ h. inr (plain, ap (λ x. x.0) h, ap (λ x. x.1) h),
    λ e. elim e [
      | inl (made, holder, wanted, has, is, h, k) ↦ absurd (ground arith)
      | inr (p, same, f) ↦ λ i. (same i, f i)
    ],
  )

  chosen_iff :
      (tokenizes : Bool) (tokenizer : Option Tokenizer) (principal : Option Text) (v : Text)
      (tok : Bool)
      → ◌≡◌ {A = Text × Bool}
          (if tokenizes
            then elim tokenizer [
              | none ↦ (value, false)
              | some made ↦ elim principal [
                | none ↦ (value, false)
                | some holder ↦ (tokenize hmac_hex made field holder ctx.origin, true)
              ]
            ]
            else (value, false))
          (v, tok)
        ↔ Leaves tokenizes tokenizer principal v tok
  unfolding tokenize mac_input
  chosen_iff false tokenizer principal v tok = plain_iff _ _ _ v tok (inl refl)
  chosen_iff true none principal v tok = plain_iff _ _ _ v tok (inr (inl refl))
  chosen_iff true (some made) none v tok = plain_iff _ _ _ v tok (inr (inr refl))
  chosen_iff true (some made) (some holder) v tok = (
    λ h. inl (made, holder, refl, refl, refl, ap (λ x. x.0) h, ap (λ x. x.1) h),
    λ e. elim e [
      | inl (made', holder', wanted, has, is, h, k) ↦
          let m : made ≡ made' = ground (arith, has) in
          let q : holder ≡ holder' = ground (arith, is) in
          let token : hmac_hex made.secret
                (field ++ (codes "|" ++ (holder ++ (codes "|" ++ origin_text ctx.origin))))
              ≡ v =
            rw (m, q) h in
          λ i. (token i, k i)
      | inr (p, same, f) ↦ absurd (ground arith)
    ],
  )

  emitted_iff :
      (t : Terms) (v : Text) (tok : Bool)
      → (emitted url_parses hmac_hex ctx t field value ≡ (v, tok)) ↔ Emits t v tok
  unfolding emitted
  emitted_iff t v tok = chosen_iff t.tokenize ctx.tokenizer ctx.principal_id v tok

  -- The conditions under which the value `v` leaves on the basis `b`; `tok` says that it is a token.
  abbrev pub Permitted : Terms → Stores → Text → ConsentBasis → Bool → Type 0
  Permitted t s v b tok =
      RateOk t s
      × ConsentGiven ctx field t.requires t.consent_scope s.consents b
      × (ctx.trust_policy ctx.origin doc ≡ TrustDecision.allow)
      × Answers url_parses field value (questions doc)
      × Emits t v tok

  evaluate_terms-allow_iff :
      (t : Terms) (s : Stores) (v : Text) (b : ConsentBasis) (tok : Bool)
      → ((evaluate_terms url_parses hmac_hex ctx doc t field value s).1 ≡ allow v b tok)
        ↔ Permitted t s v b tok
  unfolding evaluate_terms after_rate_limit after_consent
  evaluate_terms-allow_iff t s v b tok = ground (
    arith,
    check_consent_iff ctx field t.requires t.consent_scope s.consents b,
    validate_value_iff url_parses doc field value,
    emitted_iff t v tok,
  )

  pub evaluate-allow_iff :
      (rules : List DisclosureRule) (s : Stores) (v : Text) (b : ConsentBasis) (tok : Bool)
      → ((evaluate url_parses hmac_hex ctx doc rules field value s).1 ≡ allow v b tok)
        ↔ Permitted (terms (resolve_rule field rules)) s v b tok
  unfolding evaluate
  evaluate-allow_iff rules s v b tok =
      evaluate_terms-allow_iff (terms (resolve_rule field rules)) s v b tok
