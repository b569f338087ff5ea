-- ===== src/Action/Params/Examples.antt =====
-- Witnesses for the encodings of src/action/params.rs.
use anml_client_rust.Common.{true, false, none, some, List, [], ◌∷◌, ◌≡◌, refl, codes, map, arith}
use anml_client_rust.Document.{string, boolean}
use anml_client_rust.Action.Params.{
  Floats, ParamValue, canonical_value, encode_urlencoded, base32_digit, base32_encode_no_pad,
}
use anml_client_rust.Action.Params.Base32.{bits, quintets, base32_encode_no_pad-quintets}
use anml_client_rust.Action.Params.Forms.{read_form, carried, encode_urlencoded-read_form}

-- No text is a float.
abbrev no_floats : Floats
no_floats = record {
  parse = λ s. none;
  is_integral = λ n. true;
  show_integer = λ n. [];
  show = λ n. [];
  is_finite = λ n. true;
  less = λ a b. false;
}

abbrev typed : List ParamValue
typed = record { name = codes "a&b"; value = codes "1 +"; param_type = some string } ∷ []

encode_urlencoded-read_form_example :
    read_form (encode_urlencoded no_floats typed) ≡ map (carried no_floats) typed
unfolding canonical_value
encode_urlencoded-read_form_example = encode_urlencoded-read_form no_floats typed (
  (
    (omega arith, (omega arith, (omega arith, tt))),
    (omega arith, (omega arith, (omega arith, tt))),
  ),
  tt,
)

-- A name that stands twice, with the values 1 and 0 of a Boolean.
abbrev flags : List ParamValue
flags =
    record { name = codes "flag"; value = codes "1"; param_type = some boolean }
    ∷ record { name = codes "note"; value = codes "a\"b"; param_type = some string }
    ∷ record { name = codes "flag"; value = codes "0"; param_type = some boolean }
    ∷ []

base32_encode_no_pad-quintets_example :
    base32_encode_no_pad (codes "foobar") ≡ map base32_digit (quintets (bits (codes "foobar")))
base32_encode_no_pad-quintets_example =
    base32_encode_no_pad-quintets (codes "foobar")
      (omega arith, (omega arith, (omega arith, (omega arith, (omega arith, (omega arith, tt))))))

-- A test vector of RFC 4648.
foobar_encoded : base32_encode_no_pad (codes "foobar") ≡ codes "MZXW6YTBOI"
unfolding base32_encode_no_pad
foobar_encoded = refl
