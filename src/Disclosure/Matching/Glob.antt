-- ===== src/Disclosure/Matching/Glob.antt =====
-- The glob matcher of src/disclosure/matching.rs decides what its tokens denote.
use anml_client_rust.Common.{
  ℕ, Bool, true, List, [], ◌∷◌, ◌++◌, ◌≡◌, refl, ap, ◌≢◌, ◌↔◌, inl, inr, All, Text, arith,
  Bool-cases, map, length, retain,
}
use anml_client_rust.Disclosure.Matching.{
  PatternToken, literal, star, double_star, question, star_from, double_star_from, pattern_match,
  tokenize_pattern, matches_pattern, count_metacharacters, is_metacharacter, backslash,
}

-- The texts that one token stands for.
abbrev pub Denotes : PatternToken → Text → Type 0
Denotes (literal ch) u = u ≡ ch ∷ []
Denotes question u = (c : ℕ) × (u ≡ c ∷ []) × (c ≢ b'.')
Denotes star u = All (λ c. c ≢ b'.') u
Denotes double_star u = Unit

-- A text matches a sequence of tokens when it splits into pieces, one for each token in turn.
abbrev pub Matches : List PatternToken → Text → Type 0
Matches [] s = s ≡ []
Matches (t ∷ tokens) s = (u : Text) × (v : Text) × (s ≡ u ++ v) × Denotes t u × Matches tokens v

module _ (next : Text → Bool) where
  star_from_sound :
      (s : Text)
      → star_from next s ≡ true
      → (u : Text) × (v : Text) × (s ≡ u ++ v) × All (λ c. c ≢ b'.') u × (next v ≡ true)
  unfolding star_from
  star_from_sound [] h = ([], [], refl, tt, h)
  star_from_sound (c ∷ s) h = elim (Bool-cases (next (c ∷ s))) [
    | inl now ↦ ([], c ∷ s, refl, tt, now)
    | inr later ↦
        let (u, v, e, no_dot, k) = star_from_sound s (ground arith) in
        (c ∷ u, v, ap (◌∷◌ c) e, (ground arith, no_dot), k)
  ]

  star_from_complete :
      (u v : Text) → All (λ c. c ≢ b'.') u → next v ≡ true → star_from next (u ++ v) ≡ true
  unfolding star_from
  star_from_complete [] [] h k = k
  star_from_complete [] (c ∷ v) h k = ground arith
  star_from_complete (c ∷ u) v (h, hs) k = ground (arith, star_from_complete u v hs k)

  double_star_from_sound :
      (s : Text)
      → double_star_from next s ≡ true
      → (u : Text) × (v : Text) × (s ≡ u ++ v) × (next v ≡ true)
  unfolding double_star_from
  double_star_from_sound [] h = ([], [], refl, h)
  double_star_from_sound (c ∷ s) h = elim (Bool-cases (next (c ∷ s))) [
    | inl now ↦ ([], c ∷ s, refl, now)
    | inr later ↦
        let (u, v, e, k) = double_star_from_sound s (ground arith) in (c ∷ u, v, ap (◌∷◌ c) e, k)
  ]

  double_star_from_complete : (u v : Text) → next v ≡ true → double_star_from next (u ++ v) ≡ true
  unfolding double_star_from
  double_star_from_complete [] [] k = k
  double_star_from_complete [] (c ∷ v) k = ground arith
  double_star_from_complete (c ∷ u) v k = ground (arith, double_star_from_complete u v k)

pattern_match_sound :
    (tokens : List PatternToken) (s : Text) → pattern_match tokens s ≡ true → Matches tokens s
unfolding pattern_match
pattern_match_sound [] [] h = refl
pattern_match_sound [] (c ∷ s) h = ground arith
pattern_match_sound (literal ch ∷ tokens) [] h = ground arith
pattern_match_sound (literal ch ∷ tokens) (c ∷ s) h =
    (c ∷ [], s, refl, ground arith, pattern_match_sound tokens s (ground arith))
pattern_match_sound (question ∷ tokens) [] h = ground arith
pattern_match_sound (question ∷ tokens) (c ∷ s) h =
    (c ∷ [], s, refl, (c, refl, ground arith), pattern_match_sound tokens s (ground arith))
pattern_match_sound (star ∷ tokens) s h =
    let (u, v, e, no_dot, k) = star_from_sound (pattern_match tokens) s h in
    (u, v, e, no_dot, pattern_match_sound tokens v k)
pattern_match_sound (double_star ∷ tokens) s h =
    let (u, v, e, k) = double_star_from_sound (pattern_match tokens) s h in
    (u, v, e, tt, pattern_match_sound tokens v k)

pattern_match_complete :
    (tokens : List PatternToken) (s : Text) → Matches tokens s → pattern_match tokens s ≡ true
unfolding pattern_match
pattern_match_complete [] s h = rw h
pattern_match_complete (literal ch ∷ tokens) s (u, v, e, d, m) =
    rw (e, d) (ground (arith, pattern_match_complete tokens v m))
pattern_match_complete (question ∷ tokens) s (u, v, e, (c, d, no_dot), m) =
    rw (e, d) (ground (arith, pattern_match_complete tokens v m))
pattern_match_complete (star ∷ tokens) s (u, v, e, d, m) =
    rw e (star_from_complete (pattern_match tokens) u v d (pattern_match_complete tokens v m))
pattern_match_complete (double_star ∷ tokens) s (u, v, e, d, m) =
    rw e (double_star_from_complete (pattern_match tokens) u v (pattern_match_complete tokens v m))

-- The backtracking matcher accepts a text exactly when the text splits into pieces that the tokens
-- denote: `*` a run without dots, `**` any run, `?` one byte that is no dot, a literal itself.
pub pattern_match-Matches :
    (tokens : List PatternToken) (s : Text) → (pattern_match tokens s ≡ true) ↔ Matches tokens s
pattern_match-Matches tokens s = (pattern_match_sound tokens s, pattern_match_complete tokens s)

-- Every byte behind a backslash.
abbrev pub escape : Text → Text
escape [] = []
escape (c ∷ s) = backslash ∷ c ∷ escape s

tokenize_pattern-escape : (s : Text) → tokenize_pattern (escape s) ≡ map literal s
unfolding tokenize_pattern
tokenize_pattern-escape [] = refl
tokenize_pattern-escape (c ∷ s) = ap (◌∷◌ (literal c)) (tokenize_pattern-escape s)

pattern_match-literals :
    (s field : Text) → (pattern_match (map literal s) field ≡ true) ↔ (field ≡ s)
unfolding pattern_match
pattern_match-literals [] [] = ground arith
pattern_match-literals [] (c ∷ field) = ground arith
pattern_match-literals (a ∷ s) [] = ground arith
pattern_match-literals (a ∷ s) (c ∷ field) = ground (arith, pattern_match-literals s field)

-- A pattern that escapes every byte of a text, whatever bytes these are, matches that text and
-- no other, and it counts no metacharacter.
pub matches_pattern-escape :
    (s field : Text)
    → ((matches_pattern field (escape s) ≡ true) ↔ (field ≡ s))
      × (count_metacharacters (escape s) ≡ 0)
unfolding matches_pattern count_metacharacters
matches_pattern-escape s field = (
  rw (tokenize_pattern-escape s) (pattern_match-literals s field),
  rw (tokenize_pattern-escape s) (no_metacharacters s),
)
  where
    no_metacharacters : (t : Text) → length (retain is_metacharacter (map literal t)) ≡ 0
    no_metacharacters [] = refl
    no_metacharacters (c ∷ t) = no_metacharacters t
