-- ===== src/Action/Params/Members.antt =====
-- The whole body of the JSON encoding of src/action/params.rs against the reader of JSON objects.
use anml_client_rust.Common.{
  ℕ, zero, suc, Bool, false, not, Option, none, some, List, [], ◌∷◌, ◌++◌, ◌==◌, ◌≡◌, if◌then◌else◌,
  Text, text_eq, any, map, retain,
}
use anml_client_rust.Action.Params.{Floats, ParamValue, has_name}
use anml_client_rust.Action.Params.Json.{quoted, json_member}
use anml_client_rust.Action.Params.Strings.{read_quoted}
use anml_client_rust.Action.Params.Objects.{Value, read_value, value_of}

abbrev pub Entries : Type 0
Entries = List (Text × Value)

abbrev pub cons_entry : Text → Value → Option Entries → Option Entries
cons_entry n v none = none
cons_entry n v (some rest) = some ((n, v) ∷ rest)

-- Behind a value: a comma and further members, or the brace that ends the text.
abbrev pub after_value : Text → Value → Text → Option Entries → Option Entries
after_value n v [] more = none
after_value n v (c ∷ rest) more =
    if c == b','
    then cons_entry n v more
    else if c == b'}'
    then (elim rest [ [] ↦ some ((n, v) ∷ []) | _ ↦ none ])
    else none

abbrev pub drop_one : Text → Text
drop_one [] = []
drop_one (c ∷ s) = s

abbrev pub skip_colon : Text → Option Text
skip_colon [] = none
skip_colon (c ∷ s) = if c == b':' then some s else none

-- The members of an object that is not empty; `items` is the fuel of its arrays.
unfoldable pub read_members : ℕ → ℕ → Text → Option Entries
unfolding read_value read_quoted
read_members items zero s = none
read_members items (suc fuel) s = elim (read_quoted s) [
  | none ↦ none
  | some (n, behind) ↦ elim (skip_colon behind) [
    | none ↦ none
    | some body ↦ elim (read_value items body) [
      | none ↦ none
      | some (v, rest) ↦ after_value n v rest (read_members items fuel (drop_one rest))
    ]
  ]
]

abbrev pub without_brace : Text → Option Text
without_brace [] = none
without_brace (c ∷ s) = if c == b'{' then some s else none

unfoldable pub read_object : ℕ → Text → Option Entries
unfolding read_members
read_object fuel s = elim (without_brace s) [
  | none ↦ none
  | some body ↦ elim body [
    | [] ↦ none
    | c ∷ rest ↦ if c == b'}' then some [] else read_members fuel fuel (c ∷ rest)
  ]
]

-- The names in the order of their first occurrences.
abbrev pub distinct : List Text → List Text
distinct [] = []
distinct (n ∷ ns) = n ∷ retain (λ m. not (text_eq n m)) (distinct ns)

abbrev pub names : List ParamValue → List Text
names params = map (λ p. p.name) params

abbrev pub unseen : List Text → Text → Bool
unseen emitted n = not (any (λ m. text_eq m n) emitted)

module _ (floats : Floats) (params : List ParamValue) where
  abbrev member_text : Text → Text
  member_text n = quoted n ++ (b':' ∷ json_member floats (retain (has_name n) params))

  -- The members with these names and the closing brace.
  abbrev closing : Bool → List Text → Text
  closing first [] = b'}' ∷ []
  closing first (n ∷ ns) =
      (if first then [] else b',' ∷ [])
      ++ (quoted n
          ++ (b':' ∷ (json_member floats (retain (has_name n) params) ++ closing false ns)))

  abbrev pub entry_of : Text → Text × Value
  entry_of n = (n, value_of floats (retain (has_name n) params))

  -- There is a parameter of this name.
  abbrev IsNamed : Text → Type 0
  IsNamed n = (p : ParamValue) × (ps : List ParamValue) × (retain (has_name n) params ≡ p ∷ ps)
