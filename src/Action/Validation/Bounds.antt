-- ===== src/Action/Validation/Bounds.antt =====
-- The types and the bounds that src/action/validation.rs asks of a value.
use anml_client_rust.Common.{
  ℕ, ◌≤◌, Bool, true, false, Option, none, some, List, [], ◌∷◌, ◌==◌, ◌≡◌, ◌⊎◌, ◌↔◌, inl, inr, refl,
  length, Text, text_eq_iff, codes, split, parse_unsigned, Member, any-Member, is_some_iff, arith,
  Option-cases,
}
use anml_client_rust.Document.{ParamType, string, number, boolean, date, datetime, uri, enum, other}
use anml_client_rust.Action.Params.{Floats}
use anml_client_rust.Action.Validation.{
  in_range, date_parts, is_valid_date, is_valid_datetime, has_type, both_less, parse_usize,
  is_below, is_above, too_small, too_large,
}

-- A number of at most `most` that lies between the two.
abbrev pub IsWithin : ℕ → ℕ → ℕ → Text → Type 0
IsWithin most low high s = (n : ℕ) × (parse_unsigned most s ≡ some n) × (low ≤ n) × (n ≤ high)

in_range_iff :
    (most low high : ℕ) (s : Text)
    → (in_range low high (parse_unsigned most s) ≡ true) ↔ IsWithin most low high s
in_range_iff most low high s = elim (Option-cases (parse_unsigned most s)) [
  | inl missing ↦ rw missing ((λ h. ground (arith, h)), λ (n, h, l, k). ground (arith, h))
  | inr (n, found) ↦ rw found (
    (λ h. (n, refl, ground (arith, h), ground (arith, h))),
    λ (m, e, l, k). let same : n ≡ m = ground (arith, e) in ground (arith, l, k, same),
  )
]

-- A year of four bytes, a month and a day of two.
abbrev pub AreDate : Text → Text → Text → Type 0
AreDate y m d =
    (length y ≡ 4)
    × (length m ≡ 2)
    × (length d ≡ 2)
    × ((n : ℕ) × (parse_unsigned 65_535 y ≡ some n))
    × IsWithin 255 1 12 m
    × IsWithin 255 1 31 d

three_parts : (y m d : Text) → (date_parts (y ∷ m ∷ d ∷ []) ≡ true) ↔ AreDate y m d
three_parts y m d =
    ground (
      arith,
      is_some_iff (parse_unsigned 65_535 y),
      in_range_iff 255 1 12 m,
      in_range_iff 255 1 31 d,
    )

-- The parts between the dashes.
abbrev pub IsDate : Text → Type 0
IsDate value =
    (length value ≡ 10)
    × ((y : Text) × (m : Text) × (d : Text) × (split b'-' value ≡ y ∷ m ∷ d ∷ []) × AreDate y m d)

date_parts_iff :
    (parts : List Text)
    → (date_parts parts ≡ true)
      ↔ ((y : Text) × (m : Text) × (d : Text) × (parts ≡ y ∷ m ∷ d ∷ []) × AreDate y m d)
date_parts_iff parts = (forward parts, λ (y, m, d, e, are). rw e ((three_parts y m d).1 are))
  where
    forward :
        (parts : List Text)
        → date_parts parts ≡ true
        → (y : Text) × (m : Text) × (d : Text) × (parts ≡ y ∷ m ∷ d ∷ []) × AreDate y m d
    forward [] h = ground arith
    forward (y ∷ []) h = ground arith
    forward (y ∷ m ∷ []) h = ground arith
    forward (y ∷ m ∷ d ∷ []) h = (y, m, d, refl, (three_parts y m d).0 h)
    forward (y ∷ m ∷ d ∷ e ∷ rest) h = ground arith

is_valid_date_iff : (value : Text) → (is_valid_date value ≡ true) ↔ IsDate value
unfolding is_valid_date
is_valid_date_iff value = ground (arith, date_parts_iff (split b'-' value))

module _ (floats : Floats) (is_uri : Text → Bool) where
  abbrev pub HasType : Text → ParamType → Type 0
  HasType value string = Unit
  HasType value number = (n : ℕ) × (floats.parse value ≡ some n)
  HasType value boolean = (value ≡ codes "true") ⊎ (value ≡ codes "false")
  HasType value date = IsDate value
  HasType value datetime = Member b'T' value × (19 ≤ length value)
  HasType value uri = is_uri value ≡ true
  HasType value enum = Unit
  HasType value other = Unit

  pub has_type_iff :
      (value : Text) (t : ParamType) → (has_type floats is_uri value t ≡ true) ↔ HasType value t
  unfolding has_type is_valid_datetime
  has_type_iff value string = ground arith
  has_type_iff value number = is_some_iff (floats.parse value)
  has_type_iff value boolean =
      ground (arith, text_eq_iff value (codes "true"), text_eq_iff value (codes "false"))
  has_type_iff value date = is_valid_date_iff value
  has_type_iff value datetime =
      ground (arith, any-Member (λ c. c == b'T') b'T' value (λ c. ground arith))
  has_type_iff value uri = ground arith
  has_type_iff value enum = ground arith
  has_type_iff value other = ground arith

module _ (floats : Floats) where
  -- A float that is not below the bound by `<`; or a length that is not below it. A bound that cannot
  -- be read asks for nothing.
  abbrev pub AtLeast : Option ParamType → Text → Text → Type 0
  AtLeast (some number) value min =
      (v m : ℕ) → floats.parse value ≡ some v → floats.parse min ≡ some m → floats.less v m ≡ false
  AtLeast _ value min = (m : ℕ) → parse_usize min ≡ some m → m ≤ length value

  abbrev pub AtMost : Option ParamType → Text → Text → Type 0
  AtMost (some number) value max =
      (m v : ℕ) → floats.parse max ≡ some m → floats.parse value ≡ some v → floats.less m v ≡ false
  AtMost _ value max = (m : ℕ) → parse_usize max ≡ some m → length value ≤ m

  not_less :
      (a b : Option ℕ)
      → (both_less floats a b ≡ false)
        ↔ ((v m : ℕ) → a ≡ some v → b ≡ some m → floats.less v m ≡ false)
  not_less none b = grind arith
  not_less (some a) none = grind arith
  not_less (some a) (some b) = (
    λ h v m p q.
        let first : v ≡ a = ground (arith, p) in
        let second : m ≡ b = ground (arith, q) in rw (first, second) h,
    λ h. h a b refl refl,
  )

  not_below : (n : ℕ) (o : Option ℕ) → (is_below n o ≡ false) ↔ ((m : ℕ) → o ≡ some m → m ≤ n)
  not_below n none = grind arith
  not_below n (some b) =
      (λ h m p. ground (arith, h, p), λ h. let k : b ≤ n = h b refl in ground (arith, k))

  not_above : (n : ℕ) (o : Option ℕ) → (is_above n o ≡ false) ↔ ((m : ℕ) → o ≡ some m → n ≤ m)
  not_above n none = grind arith
  not_above n (some b) =
      (λ h m p. ground (arith, h, p), λ h. let k : n ≤ b = h b refl in ground (arith, k))

  pub too_small_iff :
      (t : Option ParamType) (value min : Text)
      → (too_small floats value min t ≡ false) ↔ AtLeast t value min
  unfolding too_small
  too_small_iff none value min = not_below (length value) (parse_usize min)
  too_small_iff (some number) value min = not_less (floats.parse value) (floats.parse min)
  too_small_iff (some string) value min = not_below (length value) (parse_usize min)
  too_small_iff (some boolean) value min = not_below (length value) (parse_usize min)
  too_small_iff (some date) value min = not_below (length value) (parse_usize min)
  too_small_iff (some datetime) value min = not_below (length value) (parse_usize min)
  too_small_iff (some uri) value min = not_below (length value) (parse_usize min)
  too_small_iff (some enum) value min = not_below (length value) (parse_usize min)
  too_small_iff (some other) value min = not_below (length value) (parse_usize min)

  pub too_large_iff :
      (t : Option ParamType) (value max : Text)
      → (too_large floats value max t ≡ false) ↔ AtMost t value max
  unfolding too_large
  too_large_iff none value max = not_above (length value) (parse_usize max)
  too_large_iff (some number) value max = not_less (floats.parse max) (floats.parse value)
  too_large_iff (some string) value max = not_above (length value) (parse_usize max)
  too_large_iff (some boolean) value max = not_above (length value) (parse_usize max)
  too_large_iff (some date) value max = not_above (length value) (parse_usize max)
  too_large_iff (some datetime) value max = not_above (length value) (parse_usize max)
  too_large_iff (some uri) value max = not_above (length value) (parse_usize max)
  too_large_iff (some enum) value max = not_above (length value) (parse_usize max)
  too_large_iff (some other) value max = not_above (length value) (parse_usize max)
