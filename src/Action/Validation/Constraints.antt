-- ===== src/Action/Validation/Constraints.antt =====
-- What the checks of src/action/validation.rs let pass.
use anml_client_rust.Common.{
  ℕ, Bool, true, false, not, Option, none, some, List, [], ◌∷◌, ◌++◌, ◌==◌, ◌≡◌, ◌≢◌, ◌↔◌, ◌⊎◌, inl,
  inr, refl, ap, if◌then◌else◌, Text, text_eq, text_eq_iff, any, all, ends_with, Member, arith,
  Bool-cases,
}
use anml_client_rust.Document.{AnmlParam}
use anml_client_rust.Error.{Result, ok, err, ◌>>=◌}
use anml_client_rust.Action.Params.{Floats}
use anml_client_rust.Action.Validation.Bounds.{
  HasType, has_type_iff, AtLeast, too_small_iff, AtMost, too_large_iff,
}
use anml_client_rust.Action.Validation.{
  validate_type, strip_prefix, strip_suffix, unwrap_or, is_regex_meta, regex_lite_match, dollar,
  anchored, validate_pattern, validate_min, validate_max, validate_enum, if_given, validate_param,
}

-- A pattern without the anchors that it has.
abbrev pub core : Text → Text
core pattern =
    let rest = unwrap_or (strip_prefix b'^' pattern) pattern in
    unwrap_or (strip_suffix b'$' rest) rest

strip_suffix-append : (b : ℕ) (s : Text) → strip_suffix b (s ++ (b ∷ [])) ≡ some s
strip_suffix-append b [] = ground arith
strip_suffix-append b (c ∷ []) = ground arith
strip_suffix-append b (c ∷ d ∷ s) = rw (strip_suffix-append b (d ∷ s)) refl

ends_with-true :
    (b : ℕ) (s : Text)
    → ends_with b s ≡ true
    → (t : Text) × (strip_suffix b s ≡ some t) × (s ≡ t ++ (b ∷ []))
ends_with-true b [] h = ground arith
ends_with-true b (c ∷ []) h = ([], ground arith, ground arith)
ends_with-true b (c ∷ d ∷ s) h =
    let (t, e, k) = ends_with-true b (d ∷ s) h in (c ∷ t, rw e refl, ap (◌∷◌ c) k)

ends_with-false : (b : ℕ) (s : Text) → ends_with b s ≡ false → strip_suffix b s ≡ none
ends_with-false b [] h = refl
ends_with-false b (c ∷ []) h = ground arith
ends_with-false b (c ∷ d ∷ s) h = rw (ends_with-false b (d ∷ s) h) refl

stripped :
    (s : Text)
    → (if ends_with b'$' s then s else s ++ dollar) ≡ unwrap_or (strip_suffix b'$' s) s ++ dollar
stripped s = elim (Bool-cases (ends_with b'$' s)) [
  | inl anchor ↦ let (t, e, k) = ends_with-true b'$' s anchor in rw (anchor, e) k
  | inr none_ ↦ rw (none_, ends_with-false b'$' s none_) refl
]

anchored_lem : (pattern : Text) → anchored pattern ≡ b'^' ∷ (core pattern ++ dollar)
unfolding anchored
anchored_lem [] = refl
anchored_lem (c ∷ []) = ground arith
anchored_lem (c ∷ d ∷ s) = elim (Bool-cases (c == b'^')) [
  | inl anchor ↦ ground (arith, stripped (d ∷ s))
  | inr none_ ↦ ground (arith, stripped (c ∷ d ∷ s))
]

-- No metacharacter.
abbrev pub IsLiteral : Text → Type 0
IsLiteral s = all (λ c. not (is_regex_meta c)) s ≡ true

validate_pattern_iff :
    (name value pattern : Text)
    → (validate_pattern name value pattern ≡ ok tt)
      ↔ (IsLiteral (core pattern) × (value ≡ core pattern))
unfolding validate_pattern regex_lite_match
validate_pattern_iff name value pattern =
    rw
      (
        validate_pattern,
        regex_lite_match,
        anchored_lem pattern,
        strip_suffix-append b'$' (core pattern),
      )
      (ground (arith, text_eq_iff value (core pattern)))

-- What a definition asks, if it does.
abbrev pub Asked {ℓ κ} : {A : Type ℓ} → Option A → (A → Type κ) → Type κ
Asked none P = Unit
Asked (some a) P = P a

if_given_iff {ℓ κ} :
    {A : Type ℓ} (o : Option A) (check : A → Result (Unit {0})) (P : A → Type κ)
    → ((a : A) → (check a ≡ ok tt) ↔ P a)
    → (if_given o check ≡ ok tt) ↔ Asked o P
if_given_iff none check P h = (λ e. tt, λ u. refl)
if_given_iff (some a) check P h = h a

option_found :
    (value : Text) (options : List Text)
    → (any (λ o. text_eq o value) options ≡ true) ↔ Member value options
option_found value [] = ground arith
option_found value (o ∷ options) = ground (arith, text_eq_iff o value, option_found value options)

and_then_iff {ℓ κ} :
    (r s : Result (Unit {0})) {P : Type ℓ} {Q : Type κ}
    → (r ≡ ok tt) ↔ P
    → (s ≡ ok tt) ↔ Q
    → ((r >>= λ u. s) ≡ ok tt) ↔ (P × Q)
and_then_iff (ok tt) s f g = (λ h. (f.0 refl, g.0 h), λ (p, q). g.1 q)
and_then_iff (err e) s f g = (λ h. ground arith, λ (p, q). let h = f.1 p in ground arith)

-- A value is asked to be one of the options, if there are any.
abbrev pub IsOption : Text → List Text → Type 0
IsOption value options = (options ≡ []) ⊎ Member value options

validate_enum_iff :
    (name value : Text) (options : List Text)
    → (validate_enum name value options ≡ ok tt) ↔ IsOption value options
unfolding validate_enum
validate_enum_iff name value [] = ground arith
validate_enum_iff name value (o ∷ options) = ground (arith, option_found value (o ∷ options))

module _ (floats : Floats) (is_uri : Text → Bool) where
  abbrev pub Meets : AnmlParam → Option Text → Type 0
  Meets param none = param.required ≢ some true
  Meets param (some value) =
      Asked param.param_type (HasType floats is_uri value)
      × Asked param.pattern (λ p. IsLiteral (core p) × (value ≡ core p))
      × Asked param.min (AtLeast floats param.param_type value)
      × Asked param.max (AtMost floats param.param_type value)
      × Asked param.options (IsOption value)

  -- A parameter passes exactly when it is missing and not required, or its value passes each check
  -- that its definition names. It is of the type. Where there is a pattern, the pattern has no
  -- metacharacter and the value is the pattern without its anchors. Against a bound, a number is not on
  -- the wrong side by `<`, which holds of NaN and where the bound is no float, and any other value has a
  -- length on the right side, where the bound is an unsigned integer. It is among the options, if any.
  pub validate_param_iff :
      (param : AnmlParam) (value : Option Text)
      → (validate_param floats is_uri param value ≡ ok tt) ↔ Meets param value
  unfolding validate_param validate_type validate_min validate_max
  validate_param_iff param none = by_required param.required refl
    where
      by_required :
          (r : Option Bool)
          → param.required ≡ r
          → (validate_param floats is_uri param none ≡ ok tt) ↔ (param.required ≢ some true)
      by_required none e = ground arith
      by_required (some true) e = ground arith
      by_required (some false) e = ground arith
  validate_param_iff param (some value) =
      let h =
        and_then_iff _ _
          (if_given_iff param.param_type _ (HasType floats is_uri value)
            (λ t. ground (arith, has_type_iff floats is_uri value t)))
          (and_then_iff _ _ (if_given_iff param.pattern _ _ (validate_pattern_iff param.name value))
            (and_then_iff _ _
              (if_given_iff param.min _ (AtLeast floats param.param_type value)
                (λ m. ground (arith, too_small_iff floats param.param_type value m)))
              (and_then_iff _ _
                (if_given_iff param.max _ (AtMost floats param.param_type value)
                  (λ m. ground (arith, too_large_iff floats param.param_type value m)))
                (if_given_iff param.options _ _ (validate_enum_iff param.name value))))) in
      (
        λ e. let (t, (p, (low, (high, o)))) = h.0 e in (t, p, low, high, o),
        λ (t, p, low, high, o). h.1 (t, (p, (low, (high, o)))),
      )
