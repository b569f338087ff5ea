-- ===== src/Disclosure/Matching/Resolve.antt =====
-- Which rule of src/disclosure/matching.rs governs a field: the levels are tried in the order of
-- precedence.
use anml_client_rust.Common.{
  true, false, Option, none, some, List, ◌≡◌, refl, find, All, Member, Text, arith, IsFirst,
  find-IsFirst, find-none,
}
use anml_client_rust.Disclosure.Matching.{
  DisclosureRule, MatchResult, is_exact, is_default, prefix_loop, pattern_loop, prefix_start,
  pattern_start, found, resolve_rule,
}
use anml_client_rust.Disclosure.Matching.Prefix.{
  applies_prefix, PrefixOrder, prefix_winner, prefix_no_winner,
}
use anml_client_rust.Disclosure.Matching.Patterns.{
  applies_pattern, PatternOrder, Fits, pattern_winner, pattern_no_winner,
}

module _ (field : Text) where
  -- The levels of precedence, with the winner at each level.
  pub data Resolves (rules : List DisclosureRule) (m : MatchResult) : Type 0 where
    by_exact :
        (r : DisclosureRule) → m ≡ found r → IsFirst (is_exact field) r rules → Resolves rules m
    by_prefix :
        (r : DisclosureRule)
        → m ≡ found r
        → All (λ x. is_exact field x ≡ false) rules
        → Member r rules
        → applies_prefix field r ≡ true
        → All (λ x. applies_prefix field x ≡ true → PrefixOrder field r x) rules
        → Resolves rules m
    by_pattern :
        (r : DisclosureRule)
        → m ≡ found r
        → All (λ x. is_exact field x ≡ false) rules
        → All (λ x. applies_prefix field x ≡ false) rules
        → Member r rules
        → applies_pattern field r ≡ true
        → All (λ x. applies_pattern field x ≡ true → PatternOrder field r x) rules
        → Resolves rules m
    by_default :
        (r : DisclosureRule)
        → m ≡ found r
        → All (λ x. is_exact field x ≡ false) rules
        → All (λ x. applies_prefix field x ≡ false) rules
        → All (λ x. applies_pattern field x ≡ false) rules
        → IsFirst is_default r rules
        → Resolves rules m
    by_none :
        m ≡ record { rule = none; synthesized = true }
        → All (λ x. is_exact field x ≡ false) rules
        → All (λ x. applies_prefix field x ≡ false) rules
        → All (λ x. applies_pattern field x ≡ false) rules
        → All (λ x. is_default x ≡ false) rules
        → Resolves rules m

  resolve_levels :
      (rules : List DisclosureRule) (e p g d : Option DisclosureRule)
      → find (is_exact field) rules ≡ e
      → (prefix_loop field prefix_start rules).best_prefix ≡ p
      → (pattern_loop field pattern_start rules).best_pattern ≡ g
      → find is_default rules ≡ d
      → All (Fits field) rules
      → Resolves rules (resolve_rule field rules)
  unfolding resolve_rule
  resolve_levels rules (some r) p g d he hp hg hd fits =
      by_exact r (ground arith) (find-IsFirst (is_exact field) rules he)
  resolve_levels rules none (some r) g d he hp hg hd fits =
      let (m, a, w) = prefix_winner field rules r hp in
      by_prefix r (ground arith) (find-none _ rules he) m a w
  resolve_levels rules none none (some r) d he hp hg hd fits =
      let (m, a, w) = pattern_winner field rules r fits hg in
      by_pattern r (ground arith) (find-none _ rules he) (prefix_no_winner field rules hp) m a w
  resolve_levels rules none none none (some r) he hp hg hd fits =
      by_default r (ground arith) (find-none _ rules he) (prefix_no_winner field rules hp)
        (pattern_no_winner field rules fits hg) (find-IsFirst is_default rules hd)
  resolve_levels rules none none none none he hp hg hd fits =
      by_none (ground arith) (find-none _ rules he) (prefix_no_winner field rules hp)
        (pattern_no_winner field rules fits hg) (find-none _ rules hd)

-- The rule for a field: the first exact rule if there is one; else, among the rules whose prefix
-- test passes, one with the longest prefix and then the lowest document order; else, among the
-- rules whose pattern matches, one with the fewest metacharacters, then the longest literal prefix,
-- then the lowest document order; else the first default rule; else none, and a rule is synthesized.
-- It is supposed that each pattern's count of metacharacters fits a `usize`.
pub resolve_rule-Resolves :
    (field : Text) (rules : List DisclosureRule)
    → All (Fits field) rules
    → Resolves field rules (resolve_rule field rules)
resolve_rule-Resolves field rules fits = resolve_levels field rules _ _ _ _ refl refl refl refl fits
