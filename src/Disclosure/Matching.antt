-- ===== src/Disclosure/Matching.antt =====
-- src/disclosure/matching.rs: rule selectors, the glob matcher and the resolution of the rule that
-- governs a field. Field names and selectors are ASCII, so every byte index is a character boundary.
-- The matcher's two indices are the suffixes of the tokens and of the input that they point to.
pub mod Glob
pub mod FieldPrefix
pub mod Prefix
pub mod Patterns
pub mod Resolve
use anml_client_rust.Common.{
  ℕ, zero, suc, ◌+◌, ◌-◌, ◌^◌, Bool, true, false, ◌&&◌, ◌||◌, Option, none, some, List, [], ◌∷◌,
  ◌==◌, ltb, if◌then◌else◌, length, find, retain, get_elem?, Text, codes, text_eq,
}
use anml_client_rust.Document.{DisclosureRequires}

pub data FieldSelector : Type 0 where
  exact : Text → FieldSelector
  prefix : Text → FieldSelector
  pattern : Text → FieldSelector
  default : FieldSelector

pub data ConsentScope : Type 0 where
  session origin global : ConsentScope

-- `to_string`
abbrev pub scope_text : ConsentScope → Text
scope_text session = codes "session"
scope_text origin = codes "origin"
scope_text global = codes "global"

pub record DisclosureRule : Type 0 where
  pub selector : FieldSelector
  pub requires : DisclosureRequires
  pub consent_scope : ConsentScope
  pub rate_limit : Option ℕ
  pub tokenize : Bool
  pub purpose : Option Text
  pub document_order : ℕ

pub record MatchResult : Type 0 where
  pub rule : Option DisclosureRule
  pub synthesized : Bool

-- Field-prefix matching: `rest.starts_with('.')`, with `rest` the field from the prefix's length on.
starts_with_dot : Text → Bool
starts_with_dot [] = false
starts_with_dot (c ∷ _) = c == b'.'

abbrev pub drop {ℓ} : {A : Type ℓ} → ℕ → List A → List A
drop zero xs = xs
drop (suc n) [] = []
drop (suc n) (x ∷ xs) = drop n xs

unfoldable pub matches_prefix : Text → Text → Bool
unfolding starts_with_dot
matches_prefix field pre =
    if text_eq field pre
    then true
    else if ltb (length pre) (length field)
    then starts_with_dot (drop (length pre) field)
    else false

pub data PatternToken : Type 0 where
  literal : ℕ → PatternToken
  star double_star question : PatternToken

abbrev pub backslash : ℕ
backslash = 92

-- The last three arms of the tokenizer's match.
unfoldable pub one_byte_token : ℕ → PatternToken
one_byte_token c = if c == b'*' then star else if c == b'?' then question else literal c

unfoldable pub tokenize_pattern : Text → List PatternToken
unfolding one_byte_token
tokenize_pattern [] = []
tokenize_pattern (c ∷ []) = one_byte_token c ∷ []
tokenize_pattern (c ∷ d ∷ rest) =
    let after_two = tokenize_pattern rest in
    let after_one = tokenize_pattern (d ∷ rest) in
    if c == backslash
    then literal d ∷ after_two
    else if (c == b'*') && (d == b'*')
    then double_star ∷ after_two
    else one_byte_token c ∷ after_one

-- The loop of the `Star` arm: it stops at a dot or at the end.
unfoldable pub star_from : (Text → Bool) → Text → Bool
star_from next [] = next []
star_from next (c ∷ input) = next (c ∷ input) || (if c == b'.' then false else star_from next input)

-- The loop of the `DoubleStar` arm.
unfoldable pub double_star_from : (Text → Bool) → Text → Bool
double_star_from next [] = next []
double_star_from next (c ∷ input) = next (c ∷ input) || double_star_from next input

unfoldable pub pattern_match : List PatternToken → Text → Bool
unfolding star_from double_star_from
pattern_match [] [] = true
pattern_match [] (_ ∷ _) = false
pattern_match (literal ch ∷ tokens) [] = false
pattern_match (literal ch ∷ tokens) (c ∷ input) =
    if c == ch then pattern_match tokens input else false
pattern_match (question ∷ tokens) [] = false
pattern_match (question ∷ tokens) (c ∷ input) =
    if c == b'.' then false else pattern_match tokens input
pattern_match (star ∷ tokens) input = star_from (pattern_match tokens) input
pattern_match (double_star ∷ tokens) input = double_star_from (pattern_match tokens) input

unfoldable pub matches_pattern : Text → Text → Bool
unfolding tokenize_pattern pattern_match
matches_pattern field pat = pattern_match (tokenize_pattern pat) field

abbrev pub is_metacharacter : PatternToken → Bool
is_metacharacter (literal _) = false
is_metacharacter _ = true

unfoldable pub count_metacharacters : Text → ℕ
unfolding tokenize_pattern
count_metacharacters pat = length (retain is_metacharacter (tokenize_pattern pat))

unfoldable pub literal_prefix_length : Text → ℕ
literal_prefix_length [] = 0
literal_prefix_length (c ∷ []) = if (c == b'*') || (c == b'?') then 0 else 1
literal_prefix_length (c ∷ d ∷ rest) =
    let after_two = suc (literal_prefix_length rest) in
    let after_one = suc (literal_prefix_length (d ∷ rest)) in
    if (c == b'*') || (c == b'?') then 0 else if c == backslash then after_two else after_one

abbrev pub is_exact : Text → DisclosureRule → Bool
is_exact field r = elim r.selector [ exact f ↦ text_eq f field | _ ↦ false ]

abbrev pub is_default : DisclosureRule → Bool
is_default r = elim r.selector [ default ↦ true | _ ↦ false ]

-- `best.map_or(true, |b| rule.document_order < b.document_order)`
abbrev pub comes_before : DisclosureRule → Option DisclosureRule → Bool
comes_before r none = true
comes_before r (some b) = ltb r.document_order b.document_order

pub record PrefixBest : Type 0 where
  pub best_prefix : Option DisclosureRule
  pub best_prefix_len : ℕ

unfoldable pub prefix_step : Text → PrefixBest → DisclosureRule → PrefixBest
prefix_step field s r = elim r.selector [
  | prefix pre ↦
      if matches_prefix field pre
        && (ltb s.best_prefix_len (length pre)
            || (length pre == s.best_prefix_len) && comes_before r s.best_prefix)
      then record { best_prefix = some r; best_prefix_len = length pre }
      else s
  | _ ↦ s
]

unfoldable pub prefix_loop : Text → PrefixBest → List DisclosureRule → PrefixBest
prefix_loop field s [] = s
prefix_loop field s (r ∷ rules) = prefix_loop field (prefix_step field s r) rules

pub record PatternBest : Type 0 where
  pub best_pattern : Option DisclosureRule
  pub best_meta_count : ℕ
  pub best_literal_prefix_len : ℕ

unfoldable pub pattern_step : Text → PatternBest → DisclosureRule → PatternBest
pattern_step field s r = elim r.selector [
  | pattern pat ↦
      if matches_pattern field pat
        && (ltb (count_metacharacters pat) s.best_meta_count
            || (count_metacharacters pat == s.best_meta_count)
              && ltb s.best_literal_prefix_len (literal_prefix_length pat)
            || (count_metacharacters pat == s.best_meta_count)
              && (literal_prefix_length pat == s.best_literal_prefix_len)
              && comes_before r s.best_pattern)
      then record {
        best_pattern = some r;
        best_meta_count = count_metacharacters pat;
        best_literal_prefix_len = literal_prefix_length pat;
      }
      else s
  | _ ↦ s
]

unfoldable pub pattern_loop : Text → PatternBest → List DisclosureRule → PatternBest
pattern_loop field s [] = s
pattern_loop field s (r ∷ rules) = pattern_loop field (pattern_step field s r) rules

abbrev pub usize_max : ℕ
usize_max = 2 ^ 64 - 1

abbrev pub prefix_start : PrefixBest
prefix_start = record { best_prefix = none; best_prefix_len = 0 }

abbrev pub pattern_start : PatternBest
pattern_start = record {
  best_pattern = none;
  best_meta_count = usize_max;
  best_literal_prefix_len = 0;
}

abbrev pub found : DisclosureRule → MatchResult
found r = record { rule = some r; synthesized = false }

-- The four levels in turn; a level that finds a rule returns it.
unfoldable pub resolve_rule : Text → List DisclosureRule → MatchResult
unfolding prefix_loop prefix_step pattern_loop pattern_step
resolve_rule field rules = elim (find (is_exact field) rules) [
  | some r ↦ found r
  | none ↦ elim (prefix_loop field prefix_start rules).best_prefix [
    | some r ↦ found r
    | none ↦ elim (pattern_loop field pattern_start rules).best_pattern [
      | some r ↦ found r
      | none ↦ elim (find is_default rules) [
        | some r ↦ found r
        | none ↦ record { rule = none; synthesized = true }
      ]
    ]
  ]
]

unfoldable pub validate_mutual_exclusion : Bool → Bool → Bool → Bool
validate_mutual_exclusion has_field has_prefix has_pattern =
    let flag = λ (b : Bool). if b then 1 else 0 in
    let count : ℕ = flag has_field + flag has_prefix + flag has_pattern in
    if ltb 1 count then false else true
