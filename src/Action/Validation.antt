-- ===== src/Action/Validation.antt =====
-- src/action/validation.rs: the checks of a parameter's value against its definition. `is_uri` is the
-- test that the crate `url` parses a text.
pub mod Bounds
pub mod Constraints
pub mod Shown
use anml_client_rust.Common.{
  ℕ, zero, suc, ◌+◌, Bool, true, false, ◌&&◌, ◌||◌, not, Option, none, some, List, [], ◌∷◌, ◌++◌,
  ◌==◌, ltb, leb, if◌then◌else◌, Text, text_eq, codes, any, all, length, is_some, is_empty,
  starts_with, ends_with, split, parse_unsigned,
}
use anml_client_rust.Document.{
  ParamType, string, number, boolean, date, datetime, uri, enum, other, AnmlParam,
}
use anml_client_rust.Error.{AnmlClientError, param_validation, Result, ok, err, ◌>>=◌}
use anml_client_rust.Action.Params.{Floats}

abbrev pub in_range : ℕ → ℕ → Option ℕ → Bool
in_range lo hi none = false
in_range lo hi (some n) = leb lo n && leb n hi

abbrev pub date_parts : List Text → Bool
date_parts (y ∷ m ∷ d ∷ []) =
    (length y == 4)
    && (length m == 2)
    && (length d == 2)
    && is_some (parse_unsigned 65_535 y)
    && in_range 1 12 (parse_unsigned 255 m)
    && in_range 1 31 (parse_unsigned 255 d)
date_parts _ = false

unfoldable pub is_valid_date : Text → Bool
is_valid_date value = (length value == 10) && date_parts (split b'-' value)

unfoldable pub is_valid_datetime : Text → Bool
is_valid_datetime value = any (λ c. c == b'T') value && leb 19 (length value)

module _ (floats : Floats) (is_uri : Text → Bool) where
  unfoldable pub has_type : Text → ParamType → Bool
  unfolding is_valid_date is_valid_datetime
  has_type value string = true
  has_type value number = is_some (floats.parse value)
  has_type value boolean = text_eq value (codes "true") || text_eq value (codes "false")
  has_type value date = is_valid_date value
  has_type value datetime = is_valid_datetime value
  has_type value uri = is_uri value
  has_type value enum = true
  has_type value other = true

  unfoldable pub validate_type : Text → Text → ParamType → Result (Unit {0})
  unfolding has_type
  validate_type name value param_type =
      if has_type value param_type then ok tt else err (param_validation name (codes "type"))

abbrev pub strip_prefix : ℕ → Text → Option Text
strip_prefix b [] = none
strip_prefix b (c ∷ s) = if c == b then some s else none

abbrev pub cons_text : ℕ → Option Text → Option Text
cons_text c none = none
cons_text c (some s) = some (c ∷ s)

abbrev pub strip_suffix : ℕ → Text → Option Text
strip_suffix b [] = none
strip_suffix b (c ∷ []) = if c == b then some [] else none
strip_suffix b (c ∷ d ∷ s) = cons_text c (strip_suffix b (d ∷ s))

abbrev pub unwrap_or : Option Text → Text → Text
unwrap_or none t = t
unwrap_or (some s) t = s

unfoldable pub is_regex_meta : ℕ → Bool
is_regex_meta c = any (λ m. c == m) (codes ".*+?[](){}|\\")

unfoldable pub regex_lite_match : Text → Text → Option Bool
regex_lite_match pattern value =
    let inner =
      unwrap_or (strip_suffix b'$' (unwrap_or (strip_prefix b'^' pattern) pattern)) pattern in
    if all (λ c. not (is_regex_meta c)) inner then some (text_eq value inner) else none

abbrev pub dollar : Text
dollar = b'$' ∷ []

abbrev pub caret : Text
caret = b'^' ∷ []

unfoldable pub anchored : Text → Text
anchored pattern =
    if starts_with caret pattern && ends_with b'$' pattern
    then pattern
    else if starts_with caret pattern
    then pattern ++ dollar
    else if ends_with b'$' pattern
    then b'^' ∷ pattern
    else b'^' ∷ (pattern ++ dollar)

abbrev pub is_match : Option Bool → Bool
is_match (some true) = true
is_match _ = false

unfoldable pub validate_pattern : Text → Text → Text → Result (Unit {0})
unfolding regex_lite_match anchored
validate_pattern name value pattern =
    if is_match (regex_lite_match (anchored pattern) value)
    then ok tt
    else err (param_validation name (codes "pattern"))

abbrev pub is_number : Option ParamType → Bool
is_number (some number) = true
is_number _ = false

abbrev pub both_less : Floats → Option ℕ → Option ℕ → Bool
both_less floats (some a) (some b) = floats.less a b
both_less floats _ _ = false

-- `usize` has 64 bits.
abbrev pub parse_usize : Text → Option ℕ
parse_usize s = parse_unsigned 18_446_744_073_709_551_615 s

abbrev pub is_below : ℕ → Option ℕ → Bool
is_below n none = false
is_below n (some m) = ltb n m

abbrev pub is_above : ℕ → Option ℕ → Bool
is_above n none = false
is_above n (some m) = ltb m n

module _ (floats : Floats) where
  unfoldable pub too_small : Text → Text → Option ParamType → Bool
  too_small value min param_type =
      if is_number param_type
      then both_less floats (floats.parse value) (floats.parse min)
      else is_below (length value) (parse_usize min)

  unfoldable pub validate_min : Text → Text → Text → Option ParamType → Result (Unit {0})
  unfolding too_small
  validate_min name value min param_type =
      if too_small value min param_type then err (param_validation name (codes "min")) else ok tt

  unfoldable pub too_large : Text → Text → Option ParamType → Bool
  too_large value max param_type =
      if is_number param_type
      then both_less floats (floats.parse max) (floats.parse value)
      else is_above (length value) (parse_usize max)

  unfoldable pub validate_max : Text → Text → Text → Option ParamType → Result (Unit {0})
  unfolding too_large
  validate_max name value max param_type =
      if too_large value max param_type then err (param_validation name (codes "max")) else ok tt

unfoldable pub validate_enum : Text → Text → List Text → Result (Unit {0})
validate_enum name value options =
    if is_empty options
    then ok tt
    else if any (λ o. text_eq o value) options
    then ok tt
    else err (param_validation name (codes "enum"))

-- A check that the definition may not ask for.
abbrev pub if_given {ℓ} : {A : Type ℓ} → Option A → (A → Result (Unit {0})) → Result (Unit {0})
if_given none check = ok tt
if_given (some a) check = check a

module _ (floats : Floats) (is_uri : Text → Bool) where
  unfoldable pub validate_param : AnmlParam → Option Text → Result (Unit {0})
  unfolding validate_type validate_pattern validate_min validate_max validate_enum
  validate_param param none = elim param.required [
    | some true ↦ err (param_validation param.name (codes "required"))
    | _ ↦ ok tt
  ]
  validate_param param (some value) = do
    _ ← if_given param.param_type (λ t. validate_type floats is_uri param.name value t)
    _ ← if_given param.pattern (λ p. validate_pattern param.name value p)
    _ ← if_given param.min (λ m. validate_min floats param.name value m param.param_type)
    _ ← if_given param.max (λ m. validate_max floats param.name value m param.param_type)
    if_given param.options (λ o. validate_enum param.name value o)
