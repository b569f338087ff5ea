-- ===== src/Disclosure/Values.antt =====
-- The values that a document asks for, in src/disclosure/mod.rs: the question for a field, and its type.
-- `Url::parse` (the crate `url`) is a parameter.
pub mod Types
use anml_client_rust.Common.{
  ℕ, suc, Bool, true, false, ◌&&◌, ◌||◌, Option, none, some, List, [], ◌∷◌, ◌==◌, leb, length, find,
  any, is_some, get_elem?, Text, text_eq, codes, is_float, parse_unsigned,
}
use anml_client_rust.Document.{AnmlDocument, AnmlAsk, AnmlKnowledge, FieldType}
use anml_client_rust.Disclosure.Matching.{drop}

abbrev pub asks_for : Text → List AnmlAsk → Option AnmlAsk
asks_for field asks = find (λ a. text_eq a.field field) asks

abbrev pub knowledge_asks : Option AnmlKnowledge → Option (List AnmlAsk)
knowledge_asks none = none
knowledge_asks (some k) = k.asks

-- The top-level asks are looked at only where the knowledge section has none at all.
unfoldable pub find_ask : AnmlDocument → Text → Option AnmlAsk
find_ask doc field = elim (knowledge_asks doc.knowledge) [
  | some asks ↦ asks_for field asks
  | none ↦ elim doc.asks [ some asks ↦ asks_for field asks | none ↦ none ]
]

abbrev pub take : ℕ → Text → Text
take ℕ.zero s = []
take (suc n) [] = []
take (suc n) (c ∷ s) = c ∷ take n s

abbrev pub byte_is : Option ℕ → ℕ → Bool
byte_is none b = false
byte_is (some c) b = c == b

module _ (url_parses : Text → Bool) where
  unfoldable pub validate_type : Text → FieldType → Bool
  validate_type value FieldType.string = true
  validate_type value FieldType.number = is_float value
  validate_type value FieldType.boolean =
      text_eq value (codes "true") || text_eq value (codes "false")
  validate_type value FieldType.date =
      (length value == 10)
      && byte_is (get_elem? value 4) b'-'
      && byte_is (get_elem? value 7) b'-'
      && is_some (parse_unsigned 65535 (take 4 value))
      && is_some (parse_unsigned 255 (take 2 (drop 5 value)))
      && is_some (parse_unsigned 255 (take 2 (drop 8 value)))
  validate_type value FieldType.datetime = any (λ c. c == b'T') value && leb 19 (length value)
  validate_type value FieldType.uri = url_parses value
  validate_type value FieldType.other = true

  unfoldable pub validate_value : AnmlDocument → Text → Text → Bool
  validate_value doc field value = elim (find_ask doc field) [
    | none ↦ true
    | some ask ↦ elim ask.ask_type [ none ↦ true | some t ↦ validate_type value t ]
  ]
