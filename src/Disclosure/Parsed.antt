-- ===== src/Disclosure/Parsed.antt =====
-- Which rule governs a field under the rules of a parsed document, in src/disclosure/mod.rs.
use anml_client_rust.Common.{
  ℕ, ◌+◌, Bool, false, Option, none, some, List, [], ◌∷◌, ◌≡◌, refl, inl, inr, Text, arith, find,
  text_eq, Bool-cases, Option-cases,
}
use anml_client_rust.Document.{AnmlDocument, AnmlDisclosure}
use anml_client_rust.Disclosure.Matching.{
  DisclosureRule, session, resolve_rule, found, is_exact, is_default, prefix_loop, prefix_step,
  prefix_start, pattern_loop, pattern_step, pattern_start, PrefixBest, PatternBest,
}
use anml_client_rust.Disclosure.Evaluate.{Terms, terms, synthesized_terms}
use anml_client_rust.Disclosure.Extract.{rules_from, rule_at, extract_rules}

-- The terms that a parsed disclosure gives.
abbrev pub disclosure_terms : Option AnmlDisclosure → Terms
disclosure_terms none = synthesized_terms
disclosure_terms (some d) = record {
  requires = d.requires;
  consent_scope = session;
  rate_limit = none;
  tokenize = false;
}

abbrev pub names : Text → AnmlDisclosure → Bool
names field d = text_eq d.field field

rules_from-terms :
    (field : Text) (i : ℕ) (disclosures : List AnmlDisclosure) (d : AnmlDisclosure)
    → find (names field) disclosures ≡ some d
    → (r : DisclosureRule) × (find (is_exact field) (rules_from i disclosures) ≡ some r)
      × (terms (found r) ≡ disclosure_terms (some d))
unfolding rules_from terms
rules_from-terms field i [] d h = ground arith
rules_from-terms field i (c ∷ disclosures) d h = elim (Bool-cases (names field c)) [
  | inl here ↦ let e : c ≡ d = ground arith in (rule_at i c, rw here, rw e)
  | inr later ↦
      let (r, first, same) = rules_from-terms field (i + 1) disclosures d (ground arith) in
      (r, rw later first, same)
]

rules_from-none :
    (field : Text) (i : ℕ) (disclosures : List AnmlDisclosure)
    → find (names field) disclosures ≡ none
    → (find (is_exact field) (rules_from i disclosures) ≡ none)
      × ((s : PrefixBest) → prefix_loop field s (rules_from i disclosures) ≡ s)
      × ((s : PatternBest) → pattern_loop field s (rules_from i disclosures) ≡ s)
      × (find is_default (rules_from i disclosures) ≡ none)
unfolding rules_from prefix_loop pattern_loop prefix_step pattern_step
rules_from-none field i [] h = (refl, λ s. refl, λ s. refl, refl)
rules_from-none field i (c ∷ disclosures) h =
    let (a, b, g, e) = rules_from-none field (i + 1) disclosures (ground arith) in
    (ground arith, b, g, e)

matched :
    (field : Text) (rules : List DisclosureRule) (r : DisclosureRule)
    → find (is_exact field) rules ≡ some r
    → resolve_rule field rules ≡ found r
unfolding resolve_rule
matched field rules r h = ground arith

unmatched :
    (field : Text) (rules : List DisclosureRule)
    → find (is_exact field) rules ≡ none
    → prefix_loop field prefix_start rules ≡ prefix_start
    → pattern_loop field pattern_start rules ≡ pattern_start
    → find is_default rules ≡ none
    → terms (resolve_rule field rules) ≡ synthesized_terms
unfolding resolve_rule terms
unmatched field rules h p g d = ground arith

extracted :
    (doc : AnmlDocument) (disclosures : List AnmlDisclosure)
    → doc.constraints ≡ some (record { disclosures = some disclosures })
    → extract_rules doc ≡ rules_from 0 disclosures
unfolding extract_rules
extracted doc disclosures e = ground arith

-- The rules of a parsed document treat a field by the first `<disclosure>` that names it, with
-- session scope, no limit and no token; a field that none names needs explicit consent.
pub resolve_rule-extract_rules :
    (field : Text) (doc : AnmlDocument) (disclosures : List AnmlDisclosure)
    → doc.constraints ≡ some (record { disclosures = some disclosures })
    → terms (resolve_rule field (extract_rules doc))
      ≡ disclosure_terms (find (names field) disclosures)
unfolding terms
resolve_rule-extract_rules field doc disclosures e =
    rw (extracted doc disclosures e) (elim (Option-cases (find (names field) disclosures)) [
      | inl missing ↦
          let (a, b, g, d) = rules_from-none field 0 disclosures missing in
          rw (
            unmatched field (rules_from 0 disclosures) a (b prefix_start) (g pattern_start) d,
            missing,
          )
      | inr (d, named) ↦
          let (r, first, same) = rules_from-terms field 0 disclosures d named in
          rw (matched field (rules_from 0 disclosures) r first, named) same
    ])
