-- ===== src/Action/Validation/Shown.antt =====
-- The values that pass the validation of src/action/validation.rs, in the JSON encoding of
-- src/action/params.rs.
use anml_client_rust.Common.{
  ℕ, Bool, true, Option, none, some, ◌||◌, ◌≡◌, ◌⊎◌, inl, inr, sym, subst, Text, text_eq,
  text_eq_iff, codes, arith, Bool-cases,
}
use anml_client_rust.Document.{ParamType, string, number, boolean, date, datetime, uri, enum, other}
use anml_client_rust.Action.Params.{Floats, ParamValue, show_float, canonical_boolean}
use anml_client_rust.Action.Params.Objects.{IsBare, IsShown, number_scalar, IsClear, scalar_of}
use anml_client_rust.Action.Validation.{has_type}

-- The two Booleans stand for themselves.
canonical-true : IsBare (canonical_boolean (codes "true"))
unfolding canonical_boolean
canonical-true = ground arith

canonical-false : IsBare (canonical_boolean (codes "false"))
unfolding canonical_boolean
canonical-false = ground arith

either : (a b : Bool) → a || b ≡ true → (a ≡ true) ⊎ (b ≡ true)
either a b h = ground arith

module _ (floats : Floats) (is_uri : Text → Bool)
    (shows : (n : ℕ) → floats.is_finite n ≡ true → IsBare (show_float floats n)) where
  boolean-IsBare :
      (value : Text)
      → has_type floats is_uri value boolean ≡ true
      → IsBare (canonical_boolean value)
  unfolding has_type
  boolean-IsBare value h =
      elim (either (text_eq value (codes "true")) (text_eq value (codes "false")) h) [
        | inl e ↦
            subst (λ v. IsBare (canonical_boolean v)) (sym ((text_eq_iff value _).0 e))
              canonical-true
        | inr e ↦
            subst (λ v. IsBare (canonical_boolean v)) (sym ((text_eq_iff value _).0 e))
              canonical-false
      ]

  number-IsClear : (value : Text) (o : Option ℕ) → IsClear floats (number_scalar floats value o)
  number-IsClear value none = tt
  number-IsClear value (some n) = elim (Bool-cases (floats.is_finite n)) [
    | inl finite ↦ rw finite (shows n finite)
    | inr infinite ↦ rw infinite tt
  ]

  of_type :
      (p : ParamValue) (t : ParamType)
      → has_type floats is_uri p.value t ≡ true
      → IsClear floats (scalar_of floats (record p { param_type = some t }))
  of_type p number h = number-IsClear p.value (floats.parse p.value)
  of_type p boolean h = boolean-IsBare p.value h
  of_type p string h = tt
  of_type p date h = tt
  of_type p datetime h = tt
  of_type p uri h = tt
  of_type p enum h = tt
  of_type p other h = tt

  -- A parameter whose value passes the test of its type can be told from what surrounds it in the
  -- body, if the texts of the finite floats can.
  pub has_type-IsShown :
      (p : ParamValue) (t : ParamType)
      → p.param_type ≡ some t
      → has_type floats is_uri p.value t ≡ true
      → IsShown floats p
  has_type-IsShown p t e h =
      subst (λ o. IsClear floats (scalar_of floats (record p { param_type = o }))) (sym e)
        (of_type p t h)
