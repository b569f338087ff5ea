-- ===== src/Common/Numbers.antt =====
-- The standard library's parsers that the client calls: unsigned integers, and the test that a text
-- is a float literal.
use Prim.Native.Nat.{ℕ, ◌+◌, ◌-◌, ◌*◌}
use mathlib.Core.Bool.{Bool, true, false, ◌&&◌, ◌||◌}
use mathlib.Core.List.{[], ◌∷◌, map}
use mathlib.Core.Option.{Option, none, some}
use anml_client_rust.Common.Tests.{◌==◌, leb, if◌then◌else◌}
use anml_client_rust.Common.Bytes.{Text, text_eq, codes, decimal}

abbrev pub is_digit : ℕ → Bool
is_digit c = leb b'0' c && leb c b'9'

digits_value : ℕ → Text → Option ℕ
digits_value n [] = some n
digits_value n (c ∷ s) =
    let rest = digits_value (n * 10 + (c - 48)) s in if is_digit c then rest else none

abbrev strip_plus : Text → Text
strip_plus [] = []
strip_plus (c ∷ s) = if c == b'+' then s else c ∷ s

abbrev at_most : ℕ → Option ℕ → Option ℕ
at_most bound none = none
at_most bound (some n) = if leb n bound then some n else none

-- `parse` into an unsigned type whose greatest value is `bound`: an optional plus, then one or more
-- digits, and a value in range.
unfoldable pub parse_unsigned : ℕ → Text → Option ℕ
unfolding digits_value
parse_unsigned bound s = elim (strip_plus s) [
  | [] ↦ none
  | c ∷ rest ↦ at_most bound (digits_value 0 (c ∷ rest))
]

drop_digits : Text → Text
drop_digits [] = []
drop_digits (c ∷ s) = let rest = drop_digits s in if is_digit c then rest else c ∷ s

abbrev strip_sign : Text → Text
strip_sign [] = []
strip_sign (c ∷ s) = if (c == b'+') || (c == b'-') then s else c ∷ s

abbrev starts_with_digit : Text → Bool
starts_with_digit [] = false
starts_with_digit (c ∷ s) = is_digit c

abbrev is_empty_text : Text → Bool
is_empty_text [] = true
is_empty_text (c ∷ s) = false

-- What may stand behind the digits: nothing, or an exponent.
exponent_ok : Text → Bool
exponent_ok [] = true
exponent_ok (c ∷ s) =
    ((c == b'e') || (c == b'E'))
    && (starts_with_digit (strip_sign s) && is_empty_text (drop_digits (strip_sign s)))

-- Behind the digits before the point: `some_digit` says whether there were any.
fraction_ok : Bool → Text → Bool
fraction_ok some_digit [] = some_digit
fraction_ok some_digit (c ∷ s) =
    if c == b'.'
    then (some_digit || starts_with_digit s) && exponent_ok (drop_digits s)
    else some_digit && exponent_ok (c ∷ s)

abbrev pub ascii_lower : ℕ → ℕ
ascii_lower c = if leb b'A' c && leb c b'Z' then c + 32 else c

-- `parse::<f64>().is_ok()`, by the grammar that the standard library documents.
unfoldable pub is_float : Text → Bool
unfolding fraction_ok exponent_ok drop_digits
is_float s =
    let body = strip_sign s in
    let word = map ascii_lower body in
    text_eq word (codes "inf")
    || text_eq word (codes "infinity")
    || text_eq word (codes "nan")
    || fraction_ok (starts_with_digit body) (drop_digits body)

-- The integers; `negsuc n` is -(n + 1).
pub data ℤ : Type 0 where
  pos negsuc : ℕ → ℤ

-- `to_string` of an `i64`
unfoldable pub signed_decimal : ℤ → Text
unfolding decimal
signed_decimal (pos n) = decimal n
signed_decimal (negsuc n) = b'-' ∷ decimal (n + 1)
