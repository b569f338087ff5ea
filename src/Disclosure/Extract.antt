-- ===== src/Disclosure/Extract.antt =====
-- `extract_rules` of src/disclosure/mod.rs: the rules that a parsed document declares.
use anml_client_rust.Common.{ℕ, ◌+◌, false, none, some, List, [], ◌∷◌}
use anml_client_rust.Document.{AnmlDocument, AnmlDisclosure}
use anml_client_rust.Disclosure.Matching.{DisclosureRule, exact, session}

-- The rule for the disclosure at index `i`.
abbrev pub rule_at : ℕ → AnmlDisclosure → DisclosureRule
rule_at i d = record {
  selector = exact d.field;
  requires = d.requires;
  consent_scope = session;
  rate_limit = none;
  tokenize = false;
  purpose = none;
  document_order = i;
}

-- The loop of `extract_rules`, with the index of the next rule.
unfoldable pub rules_from : ℕ → List AnmlDisclosure → List DisclosureRule
rules_from i [] = []
rules_from i (d ∷ disclosures) = rule_at i d ∷ rules_from (i + 1) disclosures

unfoldable pub extract_rules : AnmlDocument → List DisclosureRule
unfolding rules_from
extract_rules doc = elim doc.constraints [
  | none ↦ []
  | some c ↦ elim c.disclosures [ none ↦ [] | some disclosures ↦ rules_from 0 disclosures ]
]
