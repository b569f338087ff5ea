-- ===== src/Disclosure/Values/Types.antt =====
-- Which values step 5 of `evaluate` in src/disclosure/mod.rs takes.
use anml_client_rust.Common.{
  ℕ, ◌≤◌, Bool, true, Option, none, some, List, [], ◌∷◌, ◌==◌, ◌≡◌, ◌≢◌, ◌⊎◌, ◌↔◌, length,
  get_elem?, Text, text_eq, text_eq_iff, codes, is_float, parse_unsigned, Member, any-Member,
  is_some_iff, arith, Bool-cases, refl, inl, inr, subst, sym,
}
use anml_client_rust.Document.{AnmlDocument, AnmlAsk, FieldType}
use anml_client_rust.Disclosure.Matching.{drop}
use anml_client_rust.Disclosure.Values.{
  asks_for, knowledge_asks, find_ask, take, byte_is, validate_type, validate_value,
}

-- A number of at most `most` stands there.
abbrev pub IsNumber : ℕ → Text → Type 0
IsNumber most s = (n : ℕ) × (parse_unsigned most s ≡ some n)

-- Four bytes, a dash, two bytes, a dash and two bytes, where the bytes are numbers.
abbrev pub IsDate : Text → Type 0
IsDate s =
    (length s ≡ 10)
    × (get_elem? s 4 ≡ some b'-')
    × (get_elem? s 7 ≡ some b'-')
    × IsNumber 65535 (take 4 s)
    × IsNumber 255 (take 2 (drop 5 s))
    × IsNumber 255 (take 2 (drop 8 s))

byte_is_iff : (o : Option ℕ) (b : ℕ) → (byte_is o b ≡ true) ↔ (o ≡ some b)
byte_is_iff none b = ground arith
byte_is_iff (some c) b = ground arith

abbrev pub first_list : Option (List AnmlAsk) → Option (List AnmlAsk) → List AnmlAsk
first_list (some asks) top = asks
first_list none (some top) = top
first_list none none = []

-- The questions of the knowledge section where it has a list of them, else those of the document.
abbrev pub questions : AnmlDocument → List AnmlAsk
questions doc = first_list (knowledge_asks doc.knowledge) doc.asks

by_lists :
    (field : Text) (known top : Option (List AnmlAsk))
    → (elim known [
      | some asks ↦ asks_for field asks
      | none ↦ elim top [ some asks ↦ asks_for field asks | none ↦ none ]
    ])
      ≡ asks_for field (first_list known top)
by_lists field (some asks) top = refl
by_lists field none (some top) = refl
by_lists field none none = refl

module _ (url_parses : Text → Bool) where
  abbrev pub HasType : Text → FieldType → Type 0
  HasType value FieldType.string = Unit
  HasType value FieldType.number = is_float value ≡ true
  HasType value FieldType.boolean = (value ≡ codes "true") ⊎ (value ≡ codes "false")
  HasType value FieldType.date = IsDate value
  HasType value FieldType.datetime = Member b'T' value × (19 ≤ length value)
  HasType value FieldType.uri = url_parses value ≡ true
  HasType value FieldType.other = Unit

  validate_type_iff :
      (value : Text) (t : FieldType) → (validate_type url_parses value t ≡ true) ↔ HasType value t
  unfolding validate_type
  validate_type_iff value FieldType.string = ground arith
  validate_type_iff value FieldType.number = ground arith
  validate_type_iff value FieldType.boolean =
      ground (arith, text_eq_iff value (codes "true"), text_eq_iff value (codes "false"))
  validate_type_iff value FieldType.date = ground (
    arith,
    byte_is_iff (get_elem? value 4) b'-',
    byte_is_iff (get_elem? value 7) b'-',
    is_some_iff (parse_unsigned 65535 (take 4 value)),
    is_some_iff (parse_unsigned 255 (take 2 (drop 5 value))),
    is_some_iff (parse_unsigned 255 (take 2 (drop 8 value))),
  )
  validate_type_iff value FieldType.datetime =
      ground (arith, any-Member (λ c. c == b'T') b'T' value (λ c. ground arith))
  validate_type_iff value FieldType.uri = ground arith
  validate_type_iff value FieldType.other = ground arith

  abbrev pub HasAskedType : Text → Option FieldType → Type 0
  HasAskedType value none = Unit
  HasAskedType value (some t) = HasType value t

  -- The first question for the field, if there is one, asks for a type that the value has, or for none.
  abbrev pub Answers : Text → Text → List AnmlAsk → Type 0
  Answers field value [] = Unit
  Answers field value (a ∷ asks) =
      ((a.field ≡ field) × HasAskedType value a.ask_type)
      ⊎ ((a.field ≢ field) × Answers field value asks)

  abbrev checked : Text → Option AnmlAsk → Bool
  checked value none = true
  checked value (some ask) = elim ask.ask_type [
    | none ↦ true
    | some t ↦ validate_type url_parses value t
  ]

  by_type :
      (value : Text) (t : Option FieldType)
      → (elim t [ none ↦ true | some t ↦ validate_type url_parses value t ] ≡ true)
        ↔ HasAskedType value t
  by_type value none = ground arith
  by_type value (some t) = validate_type_iff value t

  asks_for-Answers :
      (field value : Text) (asks : List AnmlAsk)
      → (checked value (asks_for field asks) ≡ true) ↔ Answers field value asks
  asks_for-Answers field value [] = ground arith
  asks_for-Answers field value (a ∷ asks) = elim (Bool-cases (text_eq a.field field)) [
    | inl here ↦ rw here (ground (arith, text_eq_iff a.field field, here, by_type value a.ask_type))
    | inr behind ↦
        rw behind
          (ground (arith, text_eq_iff a.field field, behind, asks_for-Answers field value asks))
  ]

  find_ask_lem :
      (doc : AnmlDocument) (field : Text) → find_ask doc field ≡ asks_for field (questions doc)
  unfolding find_ask
  find_ask_lem doc field = by_lists field (knowledge_asks doc.knowledge) doc.asks

  pub validate_value_iff :
      (doc : AnmlDocument) (field value : Text)
      → (validate_value url_parses doc field value ≡ true) ↔ Answers field value (questions doc)
  unfolding validate_value
  validate_value_iff doc field value =
      subst (λ o. (checked value o ≡ true) ↔ Answers field value (questions doc))
        (sym (find_ask_lem doc field)) (asks_for-Answers field value (questions doc))
