-- ===== src/Disclosure/Matching/Patterns.antt =====
-- The scan of src/disclosure/matching.rs for the best pattern rule.
use anml_client_rust.Common.{
  ℕ, ◌≤◌, ◌<◌, Bool, true, false, Option, none, some, List, [], ◌∷◌, ◌≡◌, refl, ◌⊎◌, inl, inr, All,
  Member, Text, arith,
}
use anml_client_rust.Disclosure.Matching.{
  pattern, DisclosureRule, matches_pattern, count_metacharacters, literal_prefix_length,
  PatternBest, pattern_step, pattern_loop, pattern_start, usize_max,
}

module _ (field : Text) where
  -- The rule selects the field by a pattern, with the two numbers that rank a pattern.
  abbrev pub applies_pattern : DisclosureRule → Bool
  applies_pattern r = elim r.selector [ pattern pat ↦ matches_pattern field pat | _ ↦ false ]

  abbrev pub meta_count : DisclosureRule → ℕ
  meta_count r = elim r.selector [ pattern pat ↦ count_metacharacters pat | _ ↦ 0 ]

  abbrev pub literal_len : DisclosureRule → ℕ
  literal_len r = elim r.selector [ pattern pat ↦ literal_prefix_length pat | _ ↦ 0 ]

  -- `b` goes before `x` at the level of patterns.
  abbrev pub PatternOrder : DisclosureRule → DisclosureRule → Type 0
  PatternOrder b x =
      (meta_count b < meta_count x)
      ⊎ ((meta_count b ≡ meta_count x)
          × ((literal_len x < literal_len b)
              ⊎ ((literal_len x ≡ literal_len b) × (b.document_order ≤ x.document_order))))

  abbrev PatternCovers : Option DisclosureRule → DisclosureRule → Type 0
  PatternCovers none x = applies_pattern x ≡ false
  PatternCovers (some b) x = applies_pattern x ≡ true → PatternOrder b x

  abbrev PatternSound : PatternBest → Type 0
  PatternSound s = elim s.best_pattern [
    | none ↦ (s.best_meta_count ≡ usize_max) × (s.best_literal_prefix_len ≡ 0)
    | some b ↦
        (applies_pattern b ≡ true)
        × (s.best_meta_count ≡ meta_count b)
        × (s.best_literal_prefix_len ≡ literal_len b)
  ]

  -- A `usize` holds the rule's count.
  abbrev pub Fits : DisclosureRule → Type 0
  Fits r = meta_count r ≤ usize_max

  pattern_step-PatternSound :
      (s : PatternBest) (r : DisclosureRule)
      → PatternSound s
      → PatternSound (pattern_step field s r)
  unfolding pattern_step
  pattern_step-PatternSound s r h = ground arith

  pattern_step_covers :
      (s : PatternBest) (r : DisclosureRule)
      → Fits r
      → PatternSound s
      → PatternCovers (pattern_step field s r).best_pattern r
  unfolding pattern_step
  pattern_step_covers s r f h = ground arith

  pattern_step_keeps :
      (s : PatternBest) (r x : DisclosureRule)
      → PatternSound s
      → PatternCovers s.best_pattern x
      → PatternCovers (pattern_step field s r).best_pattern x
  unfolding pattern_step
  pattern_step_keeps s r x h k = ground arith

  pattern_loop-PatternSound :
      (s : PatternBest) (rules : List DisclosureRule)
      → PatternSound s
      → PatternSound (pattern_loop field s rules)
  unfolding pattern_loop
  pattern_loop-PatternSound s [] h = h
  pattern_loop-PatternSound s (r ∷ rules) h =
      pattern_loop-PatternSound (pattern_step field s r) rules (pattern_step-PatternSound s r h)

  pattern_loop_keeps :
      (s : PatternBest) (rules : List DisclosureRule) (x : DisclosureRule)
      → PatternSound s
      → PatternCovers s.best_pattern x
      → PatternCovers (pattern_loop field s rules).best_pattern x
  unfolding pattern_loop
  pattern_loop_keeps s [] x h k = k
  pattern_loop_keeps s (r ∷ rules) x h k =
      pattern_loop_keeps (pattern_step field s r) rules x (pattern_step-PatternSound s r h)
        (pattern_step_keeps s r x h k)

  pattern_loop_covers :
      (s : PatternBest) (rules : List DisclosureRule)
      → All Fits rules
      → PatternSound s
      → All (PatternCovers (pattern_loop field s rules).best_pattern) rules
  unfolding pattern_loop
  pattern_loop_covers s [] f h = tt
  pattern_loop_covers s (r ∷ rules) (f, fs) h =
      let h' = pattern_step-PatternSound s r h in
      (
        pattern_loop_keeps (pattern_step field s r) rules r h' (pattern_step_covers s r f h),
        pattern_loop_covers (pattern_step field s r) rules fs h',
      )

  pattern_step_best :
      (s : PatternBest) (r b : DisclosureRule)
      → (pattern_step field s r).best_pattern ≡ some b
      → (s.best_pattern ≡ some b) ⊎ (b ≡ r)
  unfolding pattern_step
  pattern_step_best s r b h = ground arith

  pattern_loop-Member :
      (s : PatternBest) (rules : List DisclosureRule) (b : DisclosureRule)
      → (pattern_loop field s rules).best_pattern ≡ some b
      → (s.best_pattern ≡ some b) ⊎ Member b rules
  unfolding pattern_loop
  pattern_loop-Member s [] b h = inl h
  pattern_loop-Member s (r ∷ rules) b h =
      elim (pattern_loop-Member (pattern_step field s r) rules b h) [
        | inl first ↦ elim (pattern_step_best s r b first) [
          | inl before ↦ inl before
          | inr here ↦ inr (inl here)
        ]
        | inr later ↦ inr (inr later)
      ]

  -- The loop's result is one of the rules, applies, and goes before every rule that applies.
  pub pattern_winner :
      (rules : List DisclosureRule) (b : DisclosureRule)
      → All Fits rules
      → (pattern_loop field pattern_start rules).best_pattern ≡ some b
      → Member b rules
        × (applies_pattern b ≡ true)
        × All (λ x. applies_pattern x ≡ true → PatternOrder b x) rules
  pattern_winner rules b fits e = (
    not_start (pattern_loop-Member pattern_start rules b e),
    (rw e at (pattern_loop-PatternSound pattern_start rules (refl, refl))).0,
    rw e at (pattern_loop_covers pattern_start rules fits (refl, refl)),
  )
    where
      not_start : (pattern_start.best_pattern ≡ some b) ⊎ Member b rules → Member b rules
      not_start (inl h) = cc
      not_start (inr m) = m

  pub pattern_no_winner :
      (rules : List DisclosureRule)
      → All Fits rules
      → (pattern_loop field pattern_start rules).best_pattern ≡ none
      → All (λ x. applies_pattern x ≡ false) rules
  pattern_no_winner rules fits e =
      rw e at (pattern_loop_covers pattern_start rules fits (refl, refl))
