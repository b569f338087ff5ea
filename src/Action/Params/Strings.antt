-- ===== src/Action/Params/Strings.antt =====
-- The strings of the JSON encoding of src/action/params.rs against the reader of JSON strings.
use anml_client_rust.Common.{
  ℕ, zero, suc, ◌+◌, ◌*◌, ◌-◌, Option, none, some, [], ◌∷◌, ◌++◌, ◌==◌, ◌≡◌, refl, ltb,
  if◌then◌else◌, Text, arith, append_assoc,
}
use anml_client_rust.Action.Params.Json.{escape_char, json_escape_string, quoted}

-- Where the reader stands in a string: after a backslash, or at a digit of a numeric escape.
pub data Reading : Type 0 where
  plain after_backslash : Reading
  -- the digits that are left, and the value of those read
  digits : ℕ → ℕ → Reading

abbrev pub hex_value : ℕ → ℕ
hex_value c = if ltb c 58 then c - 48 else c - 87

-- A letter behind a backslash.
abbrev pub escaped : ℕ → ℕ
escaped c = if c == b'n' then 10 else if c == b'r' then 13 else if c == b't' then 9 else c

abbrev pub prefix_char : ℕ → Option (Text × Text) → Option (Text × Text)
prefix_char c none = none
prefix_char c (some (s, rest)) = some (c ∷ s, rest)

-- The characters up to the closing quote, and what stands behind it; nothing if there is no such
-- quote or a control character stands before it.
unfoldable pub read_string : Reading → Text → Option (Text × Text)
read_string _ [] = none
read_string plain (c ∷ s) =
    let escape = read_string after_backslash s in
    let rest = read_string plain s in
    if c == 34
    then some ([], s)
    else if c == 92
    then escape
    else if ltb c 32
    then none
    else prefix_char c rest
read_string after_backslash (c ∷ s) =
    let numeric = read_string (digits 3 0) s in
    let rest = read_string plain s in if c == b'u' then numeric else prefix_char (escaped c) rest
read_string (digits zero n) (c ∷ s) = prefix_char (n * 16 + hex_value c) (read_string plain s)
read_string (digits (suc left) n) (c ∷ s) = read_string (digits left (n * 16 + hex_value c)) s

read_string-escape_char :
    (c : ℕ) (t : Text)
    → read_string plain (escape_char c ++ t) ≡ prefix_char c (read_string plain t)
unfolding read_string escape_char
read_string-escape_char c t = ground arith

-- A string with its opening quote.
unfoldable pub read_quoted : Text → Option (Text × Text)
unfolding read_string
read_quoted [] = none
read_quoted (c ∷ s) = if c == 34 then read_string plain s else none

read_string-escaped :
    (s t : Text) → read_string plain (json_escape_string s ++ (34 ∷ t)) ≡ some (s, t)
unfolding json_escape_string read_string
read_string-escaped [] t = refl
read_string-escaped (c ∷ s) t =
    rw
      (
        append_assoc (escape_char c) (json_escape_string s) (34 ∷ t),
        read_string-escape_char c (json_escape_string s ++ (34 ∷ t)),
        read_string-escaped s t,
      )
      refl

-- The reader of JSON strings takes from a quoted text exactly that text, and stops behind its
-- closing quote: no character of the text ends the string early or is changed.
pub quoted-read_quoted : (s t : Text) → read_quoted (quoted s ++ t) ≡ some (s, t)
unfolding read_quoted json_escape_string
quoted-read_quoted s t =
    rw (append_assoc (json_escape_string s) (34 ∷ []) t) (read_string-escaped s t)
