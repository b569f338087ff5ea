-- ===== src/Action/Params.antt =====
-- src/action/params.rs: the collection of a form's parameters and their encodings. The
-- standard library's `f64` is the record `Floats`, in which a float is its 64 bits; the random bytes
-- of a boundary are an argument.
mod Examples
pub mod Json
pub mod Base32
pub mod Forms
pub mod Strings
pub mod Objects
pub mod Members
use anml_client_rust.Common.{
  ℕ, zero, suc, ◌+◌, ◌*◌, ◌/◌, ◌%◌, ◌^◌, ◌-◌, Bool, true, false, ◌&&◌, ◌||◌, Option, none, some,
  List, [], ◌∷◌, ◌++◌, ◌==◌, ltb, leb, if◌then◌else◌, Text, text_eq, codes, any, map, retain,
  get_elem?, ascii_lower, trim,
}
use anml_client_rust.Document.{ParamType, number, boolean, datetime, AnmlParam}

pub record Floats : Type 0 where
  pub parse : Text → Option ℕ
  -- no fraction, and below 2 ^ 63 in magnitude
  pub is_integral : ℕ → Bool
  -- the text of the value as an `i64`
  pub show_integer : ℕ → Text
  pub show : ℕ → Text
  pub is_finite : ℕ → Bool
  pub less : ℕ → ℕ → Bool

pub record ParamValue : Type 0 where
  pub name : Text
  pub value : Text
  pub param_type : Option ParamType

abbrev pub show_float : Floats → ℕ → Text
show_float floats n = if floats.is_integral n then floats.show_integer n else floats.show n

unfoldable pub canonical_number : Floats → Text → Text
canonical_number floats value = elim (floats.parse value) [
  | none ↦ value
  | some n ↦ show_float floats n
]

unfoldable pub canonical_boolean : Text → Text
canonical_boolean value =
    let s = map ascii_lower (trim value) in
    if text_eq s (codes "true") || text_eq s (codes "1")
    then codes "true"
    else if text_eq s (codes "false") || text_eq s (codes "0")
    then codes "false"
    else value

abbrev pub canonical_datetime : Text → Text
canonical_datetime value = value

unfoldable pub canonical_value : Floats → Text → Option ParamType → Text
unfolding canonical_number canonical_boolean
canonical_value floats value (some number) = canonical_number floats value
canonical_value floats value (some boolean) = canonical_boolean value
canonical_value floats value (some datetime) = canonical_datetime value
canonical_value floats value _ = value

abbrev pub is_unreserved : ℕ → Bool
is_unreserved b =
    (leb b'a' b && leb b b'z')
    || (leb b'A' b && leb b b'Z')
    || (leb b'0' b && leb b b'9')
    || (b == b'-')
    || (b == b'.')
    || (b == b'_')
    || (b == b'~')

-- `HEX_UPPER`
abbrev pub hex_upper : ℕ → ℕ
hex_upper d = if ltb d 10 then 48 + d else 55 + d

unfoldable pub encode_byte : ℕ → Text
encode_byte b =
    if b == b' '
    then b'+' ∷ []
    else if is_unreserved b
    then b ∷ []
    else b'%' ∷ hex_upper (b / 16) ∷ hex_upper (b % 16) ∷ []

unfoldable pub percent_encode : Text → Text
percent_encode [] = []
percent_encode (b ∷ s) = encode_byte b ++ percent_encode s

-- `join` with one byte
unfoldable pub join : ℕ → List Text → Text
join b [] = []
join b (s ∷ []) = s
join b (s ∷ t ∷ rest) = s ++ (b ∷ join b (t ∷ rest))

unfoldable pub encode_pair : Floats → ParamValue → Text
unfolding canonical_value percent_encode
encode_pair floats p =
    percent_encode p.name ++ (b'=' ∷ percent_encode (canonical_value floats p.value p.param_type))

unfoldable pub encode_urlencoded : Floats → List ParamValue → Text
unfolding encode_pair join
encode_urlencoded floats params = join b'&' (map (encode_pair floats) params)

abbrev pub base32_digit : ℕ → ℕ
base32_digit d = if ltb d 26 then 65 + d else 24 + d

-- The digits that the buffer has, and the bits that it keeps; a byte completes two at most.
unfoldable pub drain : ℕ → ℕ → ℕ → Text × ℕ
drain zero buffer bits_left = ([], bits_left)
drain (suc fuel) buffer bits_left =
    let (digits, bits) = drain fuel buffer (bits_left - 5) in
    if leb 5 bits_left
    then (base32_digit (buffer / 2 ^ (bits_left - 5) % 32) ∷ digits, bits)
    else ([], bits_left)

-- The buffer is 64 bits wide.
unfoldable pub base32_loop : Text → ℕ → ℕ → Text
unfolding drain
base32_loop [] buffer bits_left =
    if ltb 0 bits_left then base32_digit (buffer * 2 ^ (5 - bits_left) % 32) ∷ [] else []
base32_loop (byte ∷ bytes) buffer bits_left =
    let shifted = (buffer * 256 + byte) % 2 ^ 64 in
    let (digits, bits) = drain 2 shifted (bits_left + 8) in digits ++ base32_loop bytes shifted bits

unfoldable pub base32_encode_no_pad : Text → Text
unfolding base32_loop
base32_encode_no_pad bytes = base32_loop bytes 0 0

abbrev pub generate_boundary : Text → Text → Text
generate_boundary random_bytes doc_id =
    codes "anml-" ++ (doc_id ++ base32_encode_no_pad random_bytes)

abbrev crlf : Text
crlf = 13 ∷ 10 ∷ []

unfoldable pub multipart_part : Floats → Text → ParamValue → Text
unfolding canonical_value
multipart_part floats boundary p =
    codes "--"
    ++ boundary
    ++ crlf
    ++ codes "Content-Disposition: form-data; name=\""
    ++ p.name
    ++ codes "\""
    ++ crlf
    ++ crlf
    ++ canonical_value floats p.value p.param_type
    ++ crlf

unfoldable pub multipart_body : Floats → Text → List ParamValue → Text
unfolding multipart_part
multipart_body floats boundary [] = codes "--" ++ boundary ++ codes "--" ++ crlf
multipart_body floats boundary (p ∷ params) =
    multipart_part floats boundary p ++ multipart_body floats boundary params

-- The content type and the body.
unfoldable pub encode_multipart : Floats → Text → List ParamValue → Text → Text × Text
unfolding multipart_body
encode_multipart floats random_bytes params doc_id =
    let boundary = generate_boundary random_bytes doc_id in
    (codes "multipart/form-data; boundary=" ++ boundary, multipart_body floats boundary params)

abbrev pub has_name : Text → ParamValue → Bool
has_name n p = text_eq p.name n

-- The map of the user's values: a later value replaces an earlier one of the same name.
unfoldable pub user_value : Text → List (Text × Text) → Option Text
user_value n [] = none
user_value n ((k, v) ∷ rest) = elim (user_value n rest) [
  | some later ↦ some later
  | none ↦ if text_eq k n then some v else none
]

abbrev pub supplied : Option Text → Option Text → Option Text
supplied (some v) default = some (trim v)
supplied none default = default

unfoldable pub collect_params : List AnmlParam → List (Text × Text) → List ParamValue
unfolding user_value
collect_params [] user_values = []
collect_params (def ∷ defs) user_values =
    elim (supplied (user_value def.name user_values) def.default) [
      | none ↦ collect_params defs user_values
      | some v ↦
          record { name = def.name; value = v; param_type = def.param_type }
          ∷ collect_params defs user_values
    ]
