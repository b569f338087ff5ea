-- ===== src/Disclosure/Matching/Prefix.antt =====
-- The scan of src/disclosure/matching.rs for the best prefix rule.
use anml_client_rust.Common.{
  ℕ, ◌≤◌, ◌<◌, Bool, true, false, Option, none, some, List, [], ◌∷◌, ◌≡◌, refl, ◌⊎◌, inl, inr,
  length, All, Member, Text, arith,
}
use anml_client_rust.Disclosure.Matching.{
  prefix, DisclosureRule, matches_prefix, PrefixBest, prefix_step, prefix_loop, prefix_start,
}

module _ (field : Text) where
  -- The rule selects the field by a prefix, and the length of that prefix.
  abbrev pub applies_prefix : DisclosureRule → Bool
  applies_prefix r = elim r.selector [ prefix pre ↦ matches_prefix field pre | _ ↦ false ]

  abbrev pub prefix_len : DisclosureRule → ℕ
  prefix_len r = elim r.selector [ prefix pre ↦ length pre | _ ↦ 0 ]

  -- `b` goes before `x` at the level of prefixes.
  abbrev pub PrefixOrder : DisclosureRule → DisclosureRule → Type 0
  PrefixOrder b x =
      (prefix_len x < prefix_len b)
      ⊎ ((prefix_len x ≡ prefix_len b) × (b.document_order ≤ x.document_order))

  abbrev PrefixCovers : Option DisclosureRule → DisclosureRule → Type 0
  PrefixCovers none x = applies_prefix x ≡ false
  PrefixCovers (some b) x = applies_prefix x ≡ true → PrefixOrder b x

  abbrev PrefixSound : PrefixBest → Type 0
  PrefixSound s = elim s.best_prefix [
    | none ↦ s.best_prefix_len ≡ 0
    | some b ↦ (applies_prefix b ≡ true) × (s.best_prefix_len ≡ prefix_len b)
  ]

  prefix_step-PrefixSound :
      (s : PrefixBest) (r : DisclosureRule) → PrefixSound s → PrefixSound (prefix_step field s r)
  unfolding prefix_step
  prefix_step-PrefixSound s r h = ground arith

  prefix_step_covers :
      (s : PrefixBest) (r : DisclosureRule)
      → PrefixSound s
      → PrefixCovers (prefix_step field s r).best_prefix r
  unfolding prefix_step
  prefix_step_covers s r h = ground arith

  prefix_step_keeps :
      (s : PrefixBest) (r x : DisclosureRule)
      → PrefixSound s
      → PrefixCovers s.best_prefix x
      → PrefixCovers (prefix_step field s r).best_prefix x
  unfolding prefix_step
  prefix_step_keeps s r x h k = ground arith

  prefix_loop-PrefixSound :
      (s : PrefixBest) (rules : List DisclosureRule)
      → PrefixSound s
      → PrefixSound (prefix_loop field s rules)
  unfolding prefix_loop
  prefix_loop-PrefixSound s [] h = h
  prefix_loop-PrefixSound s (r ∷ rules) h =
      prefix_loop-PrefixSound (prefix_step field s r) rules (prefix_step-PrefixSound s r h)

  prefix_loop_keeps :
      (s : PrefixBest) (rules : List DisclosureRule) (x : DisclosureRule)
      → PrefixSound s
      → PrefixCovers s.best_prefix x
      → PrefixCovers (prefix_loop field s rules).best_prefix x
  unfolding prefix_loop
  prefix_loop_keeps s [] x h k = k
  prefix_loop_keeps s (r ∷ rules) x h k =
      prefix_loop_keeps (prefix_step field s r) rules x (prefix_step-PrefixSound s r h)
        (prefix_step_keeps s r x h k)

  prefix_loop_covers :
      (s : PrefixBest) (rules : List DisclosureRule)
      → PrefixSound s
      → All (PrefixCovers (prefix_loop field s rules).best_prefix) rules
  unfolding prefix_loop
  prefix_loop_covers s [] h = tt
  prefix_loop_covers s (r ∷ rules) h =
      let h' = prefix_step-PrefixSound s r h in
      (
        prefix_loop_keeps (prefix_step field s r) rules r h' (prefix_step_covers s r h),
        prefix_loop_covers (prefix_step field s r) rules h',
      )

  prefix_step_best :
      (s : PrefixBest) (r b : DisclosureRule)
      → (prefix_step field s r).best_prefix ≡ some b
      → (s.best_prefix ≡ some b) ⊎ (b ≡ r)
  unfolding prefix_step
  prefix_step_best s r b h = ground arith

  prefix_loop-Member :
      (s : PrefixBest) (rules : List DisclosureRule) (b : DisclosureRule)
      → (prefix_loop field s rules).best_prefix ≡ some b
      → (s.best_prefix ≡ some b) ⊎ Member b rules
  unfolding prefix_loop
  prefix_loop-Member s [] b h = inl h
  prefix_loop-Member s (r ∷ rules) b h =
      elim (prefix_loop-Member (prefix_step field s r) rules b h) [
        | inl first ↦ elim (prefix_step_best s r b first) [
          | inl before ↦ inl before
          | inr here ↦ inr (inl here)
        ]
        | inr later ↦ inr (inr later)
      ]

  -- The loop's result is one of the rules, applies, and goes before every rule that applies.
  pub prefix_winner :
      (rules : List DisclosureRule) (b : DisclosureRule)
      → (prefix_loop field prefix_start rules).best_prefix ≡ some b
      → Member b rules
        × (applies_prefix b ≡ true)
        × All (λ x. applies_prefix x ≡ true → PrefixOrder b x) rules
  prefix_winner rules b e = (
    not_start (prefix_loop-Member prefix_start rules b e),
    (rw e at (prefix_loop-PrefixSound prefix_start rules refl)).0,
    rw e at (prefix_loop_covers prefix_start rules refl),
  )
    where
      not_start : (prefix_start.best_prefix ≡ some b) ⊎ Member b rules → Member b rules
      not_start (inl h) = cc
      not_start (inr m) = m

  pub prefix_no_winner :
      (rules : List DisclosureRule)
      → (prefix_loop field prefix_start rules).best_prefix ≡ none
      → All (λ x. applies_prefix x ≡ false) rules
  prefix_no_winner rules e = rw e at (prefix_loop_covers prefix_start rules refl)
