-- ===== src/Disclosure/Matching/FieldPrefix.antt =====
-- What `matches_prefix` of src/disclosure/matching.rs accepts.
use anml_client_rust.Common.{
  ℕ, zero, suc, true, [], ◌∷◌, ◌++◌, ◌≡◌, refl, ◌⊎◌, inr, ◌↔◌, length, Text, text_eq_iff, arith,
  get_elem?, some, ◌<◌,
}
use anml_client_rust.Disclosure.Matching.{matches_prefix, starts_with_dot, drop}

starts_with_dot-drop :
    (n : ℕ) (s : Text) → (starts_with_dot (drop n s) ≡ true) ↔ (get_elem? s n ≡ some b'.')
unfolding starts_with_dot
starts_with_dot-drop zero [] = ground arith
starts_with_dot-drop zero (c ∷ s) = ground arith
starts_with_dot-drop (suc n) [] = ground arith
starts_with_dot-drop (suc n) (c ∷ s) = starts_with_dot-drop n s

get_elem?-lt : (s : Text) (n : ℕ) {c : ℕ} → get_elem? s n ≡ some c → n < length s
get_elem?-lt [] n h = ground arith
get_elem?-lt (a ∷ s) zero h = ground arith
get_elem?-lt (a ∷ s) (suc n) {c} h = ground (arith, get_elem?-lt s n {c = c} h)

-- A prefix accepts exactly the field that is equal to it, and every field that has a dot at the
-- index where the prefix would end. The bytes before that dot are not looked at.
matches_prefix_iff :
    (field pre : Text)
    → (matches_prefix field pre ≡ true)
      ↔ ((field ≡ pre) ⊎ (get_elem? field (length pre) ≡ some b'.'))
unfolding matches_prefix
matches_prefix_iff field pre = ground (
  arith,
  text_eq_iff field pre,
  starts_with_dot-drop (length pre) field,
  get_elem?-lt field (length pre) {c = b'.'},
)

get_elem?-append : (a : Text) (c : ℕ) (s : Text) → get_elem? (a ++ (c ∷ s)) (length a) ≡ some c
get_elem?-append [] c s = refl
get_elem?-append (x ∷ a) c s = get_elem?-append a c s

-- A rule with the prefix `pre` also takes the field `other.rest`, for every text `other` of the
-- prefix's length, whether or not it is the prefix.
pub matches_prefix-unrelated :
    (pre other rest : Text)
    → length other ≡ length pre
    → matches_prefix (other ++ (b'.' ∷ rest)) pre ≡ true
matches_prefix-unrelated pre other rest h =
    (matches_prefix_iff (other ++ (b'.' ∷ rest)) pre).1
      (inr (rw (← h) (get_elem?-append other b'.' rest)))
