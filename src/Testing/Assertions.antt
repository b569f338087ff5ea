-- ===== src/Testing/Assertions.antt =====
-- src/testing/assertions.rs: each assertion as whether it passes, on bodies of ASCII text.
use anml_client_rust.Common.{
  ℕ, Bool, true, false, ◌||◌, Option, none, some, List, [], ◌∷◌, ◌++◌, ◌==◌, ◌≡◌, ◌⊎◌, inl, inr,
  refl, sym, ap, ◌∙◌, subst, if◌then◌else◌, Text, text_eq, text_instance, codes, map, ascii_lower,
  starts_with, starts_with-append, is_empty, All, Member, append_assoc, append-nil, arith,
}
use anml_client_rust.Common.Assoc.{get}
use anml_client_rust.Action.Params.{
  Floats, ParamValue, canonical_value, is_unreserved, encode_byte, percent_encode, join,
  encode_pair, encode_urlencoded,
}
use anml_client_rust.Testing.MockServer.{RecordedRequest}

-- `contains` of a text
unfoldable pub contains_text : Text → Text → Bool
contains_text part [] = is_empty part
contains_text part (c ∷ s) = starts_with part (c ∷ s) || contains_text part s

-- `replace` of a byte by a text
abbrev pub replace : ℕ → Text → Text → Text
replace b by [] = []
replace b by (c ∷ s) = (if c == b then by else c ∷ []) ++ replace b by s

unfoldable pub url_encode_value : Text → Text
url_encode_value s =
    replace b'=' (codes "%3D") (replace b'&' (codes "%26") (replace b' ' (codes "+") s))

unfoldable pub assert_param : RecordedRequest → Text → Text → Bool
unfolding contains_text url_encode_value
assert_param request name expected_value =
    contains_text (name ++ (b'=' ∷ url_encode_value expected_value)) request.body
    || contains_text (name ++ (b'=' ∷ expected_value)) request.body

abbrev pub is_value : Option Text → Text → Bool
is_value none expected = false
is_value (some actual) expected = text_eq actual expected

abbrev pub assert_header : RecordedRequest → Text → Text → Bool
assert_header request name expected_value =
    is_value (get (map ascii_lower name) request.headers) expected_value

abbrev pub or_nothing : Option Text → Text
or_nothing none = []
or_nothing (some s) = s

abbrev pub assert_anml_content_type : RecordedRequest → Bool
assert_anml_content_type request =
    let ct = or_nothing (get (codes "content-type") request.headers) in
    contains_text (codes "application/anml+xml") ct
    || contains_text (codes "application/x-www-form-urlencoded") ct
    || contains_text (codes "application/json") ct
    || contains_text (codes "multipart/form-data") ct

abbrev pub assert_method : RecordedRequest → Text → Bool
assert_method request expected = text_eq request.method expected

-- The bytes on which `url_encode_value` encodes as forms do.
abbrev pub IsSimple : ℕ → Type 0
IsSimple c = (is_unreserved c ≡ true) ⊎ ((c ≡ b' ') ⊎ ((c ≡ b'&') ⊎ (c ≡ b'=')))

url_encode_value-cons :
    (c : ℕ) (s : Text) → IsSimple c → url_encode_value (c ∷ s) ≡ encode_byte c ++ url_encode_value s
unfolding url_encode_value encode_byte
url_encode_value-cons c s h = ground arith

url_encode_value-percent_encode :
    (s : Text) → All IsSimple s → percent_encode s ≡ url_encode_value s
unfolding percent_encode url_encode_value
url_encode_value-percent_encode [] h = refl
url_encode_value-percent_encode (c ∷ s) (h, hs) =
    ap (λ t. encode_byte c ++ t) (url_encode_value-percent_encode s hs)
    ∙ sym (url_encode_value-cons c s h)

percent_encode-unreserved : (s : Text) → All (λ c. is_unreserved c ≡ true) s → percent_encode s ≡ s
unfolding percent_encode encode_byte
percent_encode-unreserved [] h = refl
percent_encode-unreserved (c ∷ s) (h, hs) = rw (percent_encode-unreserved s hs) (ground arith)

contains_text-start : (s t : Text) → starts_with s t ≡ true → contains_text s t ≡ true
unfolding contains_text
contains_text-start [] [] h = refl
contains_text-start (a ∷ s) [] h = ground arith
contains_text-start s (c ∷ t) h = rw h refl

contains_text-append : (a s t : Text) → contains_text s (a ++ (s ++ t)) ≡ true
unfolding contains_text
contains_text-append [] s t = contains_text-start s (s ++ t) (starts_with-append s t)
contains_text-append (c ∷ a) s t = ground (arith, contains_text-append a s t)

-- A joined text contains_text each of its pieces.
join-Member :
    (b : ℕ) (x : Text) (xs : List Text)
    → Member x xs
    → (before : Text) × (after : Text) × (join b xs ≡ before ++ (x ++ after))
unfolding join
join-Member b x (y ∷ []) (inl e) = ([], [], sym (append-nil x ∙ e))
join-Member b x (y ∷ z ∷ ys) (inl e) =
    ([], b ∷ join b (z ∷ ys), ap (λ t. t ++ (b ∷ join b (z ∷ ys))) (sym e))
join-Member b x (y ∷ z ∷ ys) (inr m) =
    let (before, after, e) = join-Member b x (z ∷ ys) m in
    (
      y ++ (b ∷ before),
      after,
      ap (λ t. y ++ (b ∷ t)) e ∙ sym (append_assoc y (b ∷ before) (x ++ after)),
    )
join-Member b x [] m = absurd m
join-Member b x (y ∷ []) (inr m) = absurd m

map-Member :
    (f : ParamValue → Text) (p : ParamValue) (ps : List ParamValue)
    → Member p ps
    → Member (f p) (map f ps)
map-Member f p (q ∷ ps) (inl e) = inl (ap f e)
map-Member f p (q ∷ ps) (inr m) = inr (map-Member f p ps m)
map-Member f p [] m = absurd m

-- On a form that the client encodes, the assertion on a parameter passes for each parameter whose
-- name has only unreserved bytes and whose canonical value has only those, spaces, `&` and `=`.
pub assert_param-encode_urlencoded :
    (floats : Floats) (params : List ParamValue) (p : ParamValue) (request : RecordedRequest)
    → Member p params
    → All (λ c. is_unreserved c ≡ true) p.name
    → All IsSimple (canonical_value floats p.value p.param_type)
    → request.body ≡ encode_urlencoded floats params
    → assert_param request p.name (canonical_value floats p.value p.param_type) ≡ true
unfolding assert_param encode_urlencoded encode_pair
assert_param-encode_urlencoded floats params p request m name simple body =
    let value = canonical_value floats p.value p.param_type in
    let (before, after, e) =
      join-Member b'&' (encode_pair floats p) (map (encode_pair floats) params)
        (map-Member (encode_pair floats) p params m) in
    let pair : encode_pair floats p ≡ p.name ++ (b'=' ∷ url_encode_value value) =
      ap (λ t. t ++ (b'=' ∷ percent_encode value)) (percent_encode-unreserved p.name name)
      ∙ ap (λ t. p.name ++ (b'=' ∷ t)) (url_encode_value-percent_encode value simple) in
    let found : contains_text (p.name ++ (b'=' ∷ url_encode_value value)) request.body ≡ true =
      subst (λ t. contains_text (p.name ++ (b'=' ∷ url_encode_value value)) t ≡ true)
        (sym (body ∙ e ∙ ap (λ t. before ++ (t ++ after)) pair))
        (contains_text-append before (p.name ++ (b'=' ∷ url_encode_value value)) after) in
    rw found refl
