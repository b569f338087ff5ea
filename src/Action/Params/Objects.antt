-- ===== src/Action/Params/Objects.antt =====
-- A reader of JSON objects whose values are scalars or arrays of scalars, against the values of the
-- JSON encoding of src/action/params.rs.
use anml_client_rust.Common.{
  ℕ, zero, suc, ◌≤◌, Bool, true, false, ◌||◌, Option, none, some, List, [], ◌∷◌, ◌++◌, ◌==◌, ◌≡◌,
  ◌≢◌, refl, if◌then◌else◌, Text, map, arith, All, length, append_assoc,
}
use anml_client_rust.Document.{number, boolean}
use anml_client_rust.Action.Params.{
  Floats, ParamValue, show_float, canonical_value, canonical_boolean, join,
}
use anml_client_rust.Action.Params.Json.{quoted, json_encode_value, json_member}
use anml_client_rust.Action.Params.Strings.{read_quoted, quoted-read_quoted}

-- A string, or what stands without quotation marks: a number, `true`, `false`.
pub data Scalar : Type 0 where
  quoted_text bare : Text → Scalar

pub data Value : Type 0 where
  one : Scalar → Value
  array : List Scalar → Value

abbrev pub is_delimiter : ℕ → Bool
is_delimiter c = (c == b',') || (c == b']') || (c == b'}')

-- The text up to the next delimiter.
unfoldable pub read_bare : Text → Text × Text
read_bare [] = ([], [])
read_bare (c ∷ s) =
    let (t, rest) = read_bare s in if is_delimiter c then ([], c ∷ s) else (c ∷ t, rest)

abbrev pub as_quoted : Option (Text × Text) → Option (Scalar × Text)
as_quoted none = none
as_quoted (some (s, rest)) = some (quoted_text s, rest)

abbrev pub as_bare : Text × Text → Option (Scalar × Text)
as_bare (s, rest) = some (bare s, rest)

unfoldable pub read_scalar : Text → Option (Scalar × Text)
unfolding read_bare
read_scalar [] = none
read_scalar (c ∷ s) =
    if c == 34
    then as_quoted (read_quoted (c ∷ s))
    else if is_delimiter c
    then none
    else as_bare (read_bare (c ∷ s))

abbrev pub prepend {ℓ} : {A : Type ℓ} → A → Option (List A × Text) → Option (List A × Text)
prepend a none = none
prepend a (some (items, rest)) = some (a ∷ items, rest)

-- The items of an array that is not empty, up to its closing bracket.
unfoldable pub read_items : ℕ → Text → Option (List Scalar × Text)
unfolding read_scalar
read_items zero s = none
read_items (suc fuel) s = elim (read_scalar s) [
  | none ↦ none
  | some (v, []) ↦ none
  | some (v, c ∷ rest) ↦
      let more = prepend v (read_items fuel rest) in
      if c == b',' then more else if c == b']' then some (v ∷ [], rest) else none
]

abbrev pub as_one : Option (Scalar × Text) → Option (Value × Text)
as_one none = none
as_one (some (v, rest)) = some (one v, rest)

abbrev pub as_array : Option (List Scalar × Text) → Option (Value × Text)
as_array none = none
as_array (some (vs, rest)) = some (array vs, rest)

unfoldable pub read_value : ℕ → Text → Option (Value × Text)
unfolding read_items read_scalar
read_value fuel [] = none
read_value fuel (c ∷ s) =
    if c == b'[' then as_array (read_items fuel s) else as_one (read_scalar (c ∷ s))

-- A character of a bare scalar: no delimiter, quotation mark or bracket.
abbrev pub IsBareChar : ℕ → Type 0
IsBareChar c = (is_delimiter c ≡ false) × ((c == 34) ≡ false) × ((c == b'[') ≡ false)

abbrev pub IsBare : Text → Type 0
IsBare s = (s ≢ []) × All IsBareChar s

read_bare-append :
    (s t : Text) (b : ℕ)
    → All IsBareChar s
    → is_delimiter b ≡ true
    → read_bare (s ++ (b ∷ t)) ≡ (s, b ∷ t)
unfolding read_bare
read_bare-append [] t b h d = rw d refl
read_bare-append (c ∷ s) t b ((p, q, r), h) d = rw (p, read_bare-append s t b h d) refl

module _ (floats : Floats) where
  abbrev pub number_scalar : Text → Option ℕ → Scalar
  number_scalar value none = quoted_text value
  number_scalar value (some n) =
      if floats.is_finite n then bare (show_float floats n) else quoted_text value

  -- A number stands bare where it has a finite value, a Boolean always; all else is a string.
  abbrev pub scalar_of : ParamValue → Scalar
  scalar_of p = elim p.param_type [
    | some number ↦ number_scalar p.value (floats.parse p.value)
    | some boolean ↦ bare (canonical_boolean p.value)
    | other ↦ quoted_text (canonical_value floats p.value other)
  ]

  -- The texts that stand bare can be told from their surroundings.
  abbrev pub IsClear : Scalar → Type 0
  IsClear (quoted_text s) = Unit
  IsClear (bare s) = IsBare s

  abbrev pub IsShown : ParamValue → Type 0
  IsShown p = IsClear (scalar_of p)

  abbrev pub show_scalar : Scalar → Text
  show_scalar (quoted_text s) = quoted s
  show_scalar (bare s) = s

  json_encode_value_lem : (p : ParamValue) → json_encode_value floats p ≡ show_scalar (scalar_of p)
  unfolding json_encode_value
  json_encode_value_lem p = ground arith

  -- The first character tells a scalar from an array.
  read_show_scalar :
      (v : Scalar) (b : ℕ) (t : Text)
      → IsClear v
      → is_delimiter b ≡ true
      → read_scalar (show_scalar v ++ (b ∷ t)) ≡ some (v, b ∷ t)
  unfolding read_scalar
  read_show_scalar (quoted_text s) b t h d = rw (quoted-read_quoted s (b ∷ t)) refl
  read_show_scalar (bare []) b t (e, h) d = absurd (e refl)
  read_show_scalar (bare (c ∷ s)) b t (e, ((p, q, r), h)) d =
      rw (p, q, read_bare-append s t b h d) refl

  -- The value under a name: of one parameter the scalar, of several the array.
  abbrev pub value_of : List ParamValue → Value
  value_of [] = array []
  value_of (p ∷ []) = one (scalar_of p)
  value_of (p ∷ q ∷ ps) = array (map scalar_of (p ∷ q ∷ ps))

  read-json_encode_value :
      (p : ParamValue) (b : ℕ) (t : Text)
      → IsShown p
      → is_delimiter b ≡ true
      → read_scalar (json_encode_value floats p ++ (b ∷ t)) ≡ some (scalar_of p, b ∷ t)
  read-json_encode_value p b t h d =
      rw (json_encode_value_lem p) (read_show_scalar (scalar_of p) b t h d)

  read_items-join :
      (fuel : ℕ) (p : ParamValue) (ps : List ParamValue) (t : Text)
      → All IsShown (p ∷ ps)
      → length (p ∷ ps) ≤ fuel
      → read_items fuel (join b',' (map (json_encode_value floats) (p ∷ ps)) ++ (b']' ∷ t))
        ≡ some (map scalar_of (p ∷ ps), t)
  unfolding read_items join
  read_items-join zero p ps t h k = absurd (omega (arith, k))
  read_items-join (suc fuel) p [] t (h, hs) k =
      rw (read-json_encode_value p b']' t h refl, read_items) refl
  read_items-join (suc fuel) p (q ∷ ps) t (h, hs) k =
      rw
        (
          append_assoc (json_encode_value floats p)
              (b',' ∷ join b',' (map (json_encode_value floats) (q ∷ ps))) (b']' ∷ t),
          read-json_encode_value p b',' _ h refl,
          read_items-join fuel q ps t hs (omega (arith, k)),
          read_items,
        )
        refl

  -- A scalar does not begin like an array.
  read_value-scalar :
      (fuel : ℕ) (v : Scalar) (b : ℕ) (t : Text)
      → IsClear v
      → is_delimiter b ≡ true
      → read_value fuel (show_scalar v ++ (b ∷ t)) ≡ some (one v, b ∷ t)
  unfolding read_value
  read_value-scalar fuel (quoted_text s) b t h d =
      rw (read_show_scalar (quoted_text s) b t h d) refl
  read_value-scalar fuel (bare []) b t (e, h) d = absurd (e refl)
  read_value-scalar fuel (bare (c ∷ s)) b t (e, ((p, q, r), h)) d =
      rw (r, read_show_scalar (bare (c ∷ s)) b t (e, ((p, q, r), h)) d) refl

  pub read_value-json_member :
      (fuel : ℕ) (p : ParamValue) (ps : List ParamValue) (b : ℕ) (t : Text)
      → All IsShown (p ∷ ps)
      → length (p ∷ ps) ≤ fuel
      → is_delimiter b ≡ true
      → read_value fuel (json_member floats (p ∷ ps) ++ (b ∷ t)) ≡ some (value_of (p ∷ ps), b ∷ t)
  unfolding json_member read_value
  read_value-json_member fuel p [] b t (h, hs) k d =
      rw (json_encode_value_lem p) (read_value-scalar fuel (scalar_of p) b t h d)
  read_value-json_member fuel p (q ∷ ps) b t h k d =
      rw
        (
          append_assoc (join b',' (map (json_encode_value floats) (p ∷ q ∷ ps))) (b']' ∷ [])
              (b ∷ t),
          read_items-join fuel p (q ∷ ps) (b ∷ t) h k,
        )
        refl
