-- ===== src/Action/Params/Json.antt =====
-- The JSON encoding of src/action/params.rs.
use anml_client_rust.Common.{
  ℕ, ◌+◌, ◌/◌, ◌%◌, Bool, true, false, none, some, List, [], ◌∷◌, ◌++◌, ◌==◌, ltb, if◌then◌else◌,
  Text, text_eq, any, map, retain,
}
use anml_client_rust.Document.{number, boolean}
use anml_client_rust.Action.Params.{
  Floats, ParamValue, show_float, canonical_value, canonical_boolean, join, has_name,
}

abbrev pub hex_lower : ℕ → ℕ
hex_lower d = if ltb d 10 then 48 + d else 87 + d

unfoldable pub escape_char : ℕ → Text
escape_char c =
    if c == 34
    then 92 ∷ 34 ∷ []
    else if c == 92
    then 92 ∷ 92 ∷ []
    else if c == 10
    then 92 ∷ b'n' ∷ []
    else if c == 13
    then 92 ∷ b'r' ∷ []
    else if c == 9
    then 92 ∷ b't' ∷ []
    else if ltb c 32
    then 92 ∷ b'u' ∷ b'0' ∷ b'0' ∷ hex_lower (c / 16) ∷ hex_lower (c % 16) ∷ []
    else c ∷ []

unfoldable pub json_escape_string : Text → Text
json_escape_string [] = []
json_escape_string (c ∷ s) = escape_char c ++ json_escape_string s

abbrev pub quoted : Text → Text
quoted s = 34 ∷ (json_escape_string s ++ (34 ∷ []))

unfoldable pub json_encode_value : Floats → ParamValue → Text
unfolding canonical_value canonical_boolean json_escape_string
json_encode_value floats p = elim p.param_type [
  | some number ↦ elim (floats.parse p.value) [
    | none ↦ quoted p.value
    | some n ↦ if floats.is_finite n then show_float floats n else quoted p.value
  ]
  | some boolean ↦ canonical_boolean p.value
  | other ↦ quoted (canonical_value floats p.value other)
]

-- One value, or the array of the values under a name that stands more than once.
unfoldable pub json_member : Floats → List ParamValue → Text
unfolding json_encode_value join
json_member floats [] = []
json_member floats (p ∷ []) = json_encode_value floats p
json_member floats (p ∷ q ∷ ps) =
    b'[' ∷ (join b',' (map (json_encode_value floats) (p ∷ q ∷ ps)) ++ (b']' ∷ []))

unfoldable pub json_members : Floats → List ParamValue → List Text → Bool → List ParamValue → Text
unfolding json_member
json_members floats params emitted first [] = []
json_members floats params emitted first (p ∷ ps) =
    let skipped = json_members floats params emitted first ps in
    let rest = json_members floats params (p.name ∷ emitted) false ps in
    if any (λ n. text_eq n p.name) emitted
    then skipped
    else (if first then [] else b',' ∷ [])
      ++ quoted p.name
      ++ (b':' ∷ json_member floats (retain (has_name p.name) params))
      ++ rest

unfoldable pub encode_json : Floats → List ParamValue → Text
unfolding json_members
encode_json floats params = b'{' ∷ (json_members floats params [] true params ++ (b'}' ∷ []))
