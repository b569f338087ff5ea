-- ===== src/Action/Params/Forms.antt =====
-- The form encoding of src/action/params.rs against the reader of the form format.
use anml_client_rust.Common.{
  ℕ, ◌+◌, ◌*◌, ◌-◌, ◌<◌, false, none, some, List, [], ◌∷◌, ◌++◌, ◌==◌, ◌≡◌, refl, ap, ltb,
  if◌then◌else◌, Text, map, arith, All, All-append, split, split_once, ◌≢◌, subst,
}
use anml_client_rust.Action.Params.{
  Floats, ParamValue, canonical_value, encode_byte, percent_encode, join, encode_pair,
  encode_urlencoded,
}

-- The reader of the format, by its standard: where it stands in an escape.
pub data Reading : Type 0 where
  plain after_percent : Reading
  after_digit : ℕ → Reading

abbrev pub hex_value : ℕ → ℕ
hex_value c = if ltb c 58 then c - 48 else c - 55

abbrev pub plus_as_space : ℕ → ℕ
plus_as_space c = if c == b'+' then b' ' else c

abbrev pub read : Reading → Text → Text
read _ [] = []
read plain (c ∷ s) =
    let escape = read after_percent s in
    let rest = read plain s in if c == b'%' then escape else plus_as_space c ∷ rest
read after_percent (c ∷ s) = read (after_digit (hex_value c)) s
read (after_digit h) (c ∷ s) = (h * 16 + hex_value c) ∷ read plain s

abbrev pub read_pair : Text → Text × Text
read_pair s = elim (split_once b'=' s) [
  | none ↦ (read plain s, [])
  | some (n, v) ↦ (read plain n, read plain v)
]

unfoldable pub read_form : Text → List (Text × Text)
read_form [] = []
read_form (c ∷ s) = map read_pair (split b'&' (c ∷ s))

abbrev pub IsByte : ℕ → Type 0
IsByte b = b < 256

abbrev pub Bytes : Text → Type 0
Bytes s = All IsByte s

read-encode_byte :
    (b : ℕ) (t : Text) → IsByte b → read plain (encode_byte b ++ t) ≡ b ∷ read plain t
unfolding encode_byte
read-encode_byte b t h = ground arith

read-percent_encode : (s : Text) → Bytes s → read plain (percent_encode s) ≡ s
unfolding percent_encode
read-percent_encode [] h = refl
read-percent_encode (b ∷ s) (h, t) =
    rw (read-encode_byte b (percent_encode s) h, read-percent_encode s t) refl

-- None of the two separators.
abbrev IsClean : ℕ → Type 0
IsClean c = ((c == b'&') ≡ false) × ((c == b'=') ≡ false)

encode_byte-IsClean : (b : ℕ) → IsByte b → All IsClean (encode_byte b)
unfolding encode_byte
encode_byte-IsClean b h = ground arith

percent_encode-IsClean : (s : Text) → Bytes s → All IsClean (percent_encode s)
unfolding percent_encode
percent_encode-IsClean [] h = tt
percent_encode-IsClean (b ∷ s) (h, t) =
    All-append IsClean (encode_byte b) (percent_encode s) (encode_byte-IsClean b h)
      (percent_encode-IsClean s t)

abbrev Lacks : ℕ → Text → Type 0
Lacks b s = All (λ c. (c == b) ≡ false) s

split_once-append : (b : ℕ) (s t : Text) → Lacks b s → split_once b (s ++ (b ∷ t)) ≡ some (s, t)
split_once-append b [] t h = ground arith
split_once-append b (c ∷ s) t (h, hs) = rw (h, split_once-append b s t hs) refl

split-lacking : (b : ℕ) (s : Text) → Lacks b s → split b s ≡ s ∷ []
split-lacking b [] h = refl
split-lacking b (c ∷ s) (h, hs) = rw (h, split-lacking b s hs) refl

split-append : (b : ℕ) (s t : Text) → Lacks b s → split b (s ++ (b ∷ t)) ≡ s ∷ split b t
split-append b [] t h = ground arith
split-append b (c ∷ s) t (h, hs) = rw (h, split-append b s t hs) refl

split-join :
    (b : ℕ) (s : Text) (ss : List Text)
    → All (Lacks b) (s ∷ ss)
    → split b (join b (s ∷ ss)) ≡ s ∷ ss
unfolding join
split-join b s [] (h, hs) = split-lacking b s h
split-join b s (t ∷ ss) (h, hs) =
    rw (split-append b s (join b (t ∷ ss)) h, split-join b t ss hs) refl

no_separator : (s : Text) → All IsClean s → Lacks b'&' s × Lacks b'=' s
no_separator [] h = (tt, tt)
no_separator (c ∷ s) ((amp, eq), h) = let (amps, eqs) = no_separator s h in ((amp, amps), (eq, eqs))

module _ (floats : Floats) where
  -- The pair that the form carries.
  abbrev pub carried : ParamValue → Text × Text
  carried p = (p.name, canonical_value floats p.value p.param_type)

  abbrev pub IsCarried : ParamValue → Type 0
  IsCarried p = Bytes p.name × Bytes (canonical_value floats p.value p.param_type)

  read_pair-encode_pair :
      (p : ParamValue) → IsCarried p → read_pair (encode_pair floats p) ≡ carried p
  unfolding encode_pair
  read_pair-encode_pair p (h, k) =
      rw
        (
          split_once-append b'=' (percent_encode p.name)
              (percent_encode (canonical_value floats p.value p.param_type))
              ((no_separator (percent_encode p.name) (percent_encode-IsClean p.name h)).1),
          read-percent_encode p.name h,
          read-percent_encode (canonical_value floats p.value p.param_type) k,
          read_pair,
        )
        refl

  encode_pair-Lacks : (p : ParamValue) → IsCarried p → Lacks b'&' (encode_pair floats p)
  unfolding encode_pair
  encode_pair-Lacks p (h, k) =
      All-append (λ c. (c == b'&') ≡ false) (percent_encode p.name) _
        ((no_separator (percent_encode p.name) (percent_encode-IsClean p.name h)).0)
        (
          refl,
          (no_separator _
              (percent_encode-IsClean (canonical_value floats p.value p.param_type) k)).0,
        )

  encoded-Lacks :
      (params : List ParamValue)
      → All IsCarried params
      → All (Lacks b'&') (map (encode_pair floats) params)
  encoded-Lacks [] h = tt
  encoded-Lacks (p ∷ params) (h, hs) = (encode_pair-Lacks p h, encoded-Lacks params hs)

  read-pairs :
      (params : List ParamValue)
      → All IsCarried params
      → map read_pair (map (encode_pair floats) params) ≡ map carried params
  read-pairs [] h = refl
  read-pairs (p ∷ params) (h, hs) = rw (read_pair-encode_pair p h, read-pairs params hs) refl

  append-nonempty : (b : ℕ) (s t : Text) → s ++ (b ∷ t) ≢ []
  append-nonempty b [] t = ground arith
  append-nonempty b (c ∷ s) t = ground arith

  join-nonempty : (s : Text) (ss : List Text) → s ≢ [] → join b'&' (s ∷ ss) ≢ []
  unfolding join
  join-nonempty s [] h = h
  join-nonempty s (t ∷ ss) h = append-nonempty b'&' s _

  -- A form that is not empty reads back as its pieces.
  joined_form :
      (s : Text) (ss : List Text)
      → All (Lacks b'&') (s ∷ ss)
      → join b'&' (s ∷ ss) ≢ []
      → read_form (join b'&' (s ∷ ss)) ≡ map read_pair (s ∷ ss)
  unfolding read_form
  joined_form s ss h k = by_text (join b'&' (s ∷ ss)) refl
    where
      by_text : (t : Text) → join b'&' (s ∷ ss) ≡ t → read_form t ≡ map read_pair (s ∷ ss)
      by_text [] e = absurd (k e)
      by_text (c ∷ t) e =
          ap (map read_pair) (subst (λ u. split b'&' u ≡ s ∷ ss) e (split-join b'&' s ss h))

  -- The reader of forms yields from an encoded form the name and the canonical value of each
  -- parameter, in their order, whatever bytes they have.
  pub encode_urlencoded-read_form :
      (params : List ParamValue)
      → All IsCarried params
      → read_form (encode_urlencoded floats params) ≡ map carried params
  unfolding encode_urlencoded read_form encode_pair join
  encode_urlencoded-read_form [] h = refl
  encode_urlencoded-read_form (p ∷ params) h =
      rw
        (joined_form (encode_pair floats p) (map (encode_pair floats) params)
          (encoded-Lacks (p ∷ params) h)
          (join-nonempty (encode_pair floats p) _ (append-nonempty b'=' (percent_encode p.name) _)))
        (read-pairs (p ∷ params) h)
