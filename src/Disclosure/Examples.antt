-- ===== src/Disclosure/Examples.antt =====
-- Witnesses for src/disclosure and src/security/tokenizer.rs.
use anml_client_rust.Common.{
  Bool, true, false, none, some, List, [], ◌∷◌, ◌++◌, ◌≡◌, ◌↔◌, is_some, All, Text, codes, arith,
}
use anml_client_rust.Document.{
  AnmlDocument, AnmlDisclosure, explicit_consent, implicit_consent, empty_document,
}
use anml_client_rust.Config.{Origin, from_secs, TrustDecision, ConsentDecision}
use anml_client_rust.Disclosure.Matching.{
  DisclosureRule, exact, prefix, pattern, session, origin, global, literal, star, double_star,
  pattern_match, count_metacharacters, resolve_rule,
}
use anml_client_rust.Disclosure.Matching.Glob.{Matches, pattern_match-Matches}
use anml_client_rust.Disclosure.Matching.Patterns.{Fits}
use anml_client_rust.Disclosure.Matching.Resolve.{Resolves, resolve_rule-Resolves}
use anml_client_rust.Disclosure.Consent.{explicit, ConsentStore, key_instance, key_at, grant, check}
use anml_client_rust.Disclosure.Consent.{ConsentBasis}
use anml_client_rust.Disclosure.Consent.History.{
  Event, granted, revoked, after, standing, Stands, check-after,
}
use anml_client_rust.Disclosure.Evaluate.{allow, DisclosureContext, Stores, terms, evaluate}
use anml_client_rust.Disclosure.Evaluate.Effects.{Effects, evaluate-Effects}

abbrev shop : Origin
shop = record { scheme = codes "https"; host = codes "shop.example"; port = none }

abbrev email_rule : DisclosureRule
email_rule = record {
  selector = exact (codes "user.email");
  requires = implicit_consent;
  consent_scope = origin;
  rate_limit = some 1;
  tokenize = true;
  purpose = none;
  document_order = 0;
}

abbrev rules : List DisclosureRule
rules =
    record email_rule { selector = pattern (codes "user.*"); document_order = 1 }
    ∷ record email_rule { selector = prefix (codes "user"); document_order = 2 }
    ∷ email_rule
    ∷ []

-- A stand-in for the keyed hash.
abbrev join : Text → Text → Text
join key message = key ++ message

abbrev any_url : Text → Bool
any_url u = true

abbrev context : DisclosureContext
context = record {
  origin = shop;
  trust_policy = λ o d. TrustDecision.allow;
  auth_provider = false;
  consent_handler = some (λ f o. ConsentDecision.grant);
  tokenizer = some (record { secret = codes "k" });
  principal_id = some (codes "p");
  now = from_secs 1_000_000;
  granted_at = from_secs 1_000_000;
}

abbrev no_stores : Stores
no_stores = record { consents = []; limiter = [] }

evaluate-Effects_example :
    Effects any_url join context empty_document
      (codes "user.email")
      (codes "a@b")
      (terms (resolve_rule (codes "user.email") rules))
      no_stores
      (evaluate any_url join context empty_document rules
        (codes "user.email")
        (codes "a@b")
        no_stores)
evaluate-Effects_example =
    evaluate-Effects any_url join context empty_document (codes "user.email") (codes "a@b") rules
      no_stores

rules-Fits : All (Fits (codes "user.age")) rules
unfolding count_metacharacters
rules-Fits = (omega arith, (omega arith, (omega arith, tt)))

resolve_rule-Resolves_example :
    Resolves (codes "user.age") rules (resolve_rule (codes "user.age") rules)
resolve_rule-Resolves_example = resolve_rule-Resolves (codes "user.age") rules rules-Fits

abbrev some_disclosures : List AnmlDisclosure
some_disclosures = record { field = codes "email"; requires = explicit_consent } ∷ []

abbrev constrained : AnmlDocument
constrained = record empty_document {
  constraints = some (record { disclosures = some some_disclosures });
}

pattern_match-Matches_example :
    (pattern_match (literal 97 ∷ star ∷ double_star ∷ []) (codes "ab.c") ≡ true)
    ↔ Matches (literal 97 ∷ star ∷ double_star ∷ []) (codes "ab.c")
pattern_match-Matches_example =
    pattern_match-Matches (literal 97 ∷ star ∷ double_star ∷ []) (codes "ab.c")

abbrev one_grant : ConsentStore
one_grant = grant 7 (codes "email") shop global explicit []

-- A grant for the session is revoked, and a global one stands.
abbrev consent_events : List Event
consent_events =
    revoked (codes "email") shop session
    ∷ granted 8 (codes "email") shop session explicit
    ∷ granted 7 (codes "email") shop global explicit
    ∷ []

check-after_example :
    ((b : ConsentBasis)
      → standing (key_at (codes "email") shop origin) consent_events ≡ some b
      → check (codes "email") shop origin (after consent_events) ≡ some b)
    × ((b : ConsentBasis)
        → check (codes "email") shop origin (after consent_events) ≡ some b
        → Stands (codes "email") shop origin b consent_events)
    × ((b : ConsentBasis)
        → Stands (codes "email") shop origin b consent_events
        → is_some (check (codes "email") shop origin (after consent_events)) ≡ true)
check-after_example = check-after (codes "email") shop origin consent_events
