-- ===== src/Discovery/Links.antt =====
-- src/discovery/link_header.rs: the values of the `Link` header. A slice of a lone quotation mark from
-- its second to before its last byte panics.
pub mod Alternate
mod Examples
pub mod First
use anml_client_rust.Common.{
  ℕ, Bool, true, false, ◌&&◌, ◌||◌, not, Option, none, some, List, [], ◌∷◌, ◌++◌, ◌==◌,
  if◌then◌else◌, Text, text_eq, codes, map, retain, is_empty, ascii_lower, starts_with, ends_with,
  trim, trim_end_matches, split, split_once, cons_head,
}
use anml_client_rust.Error.{malformed_document, Result, ok, err}
use anml_client_rust.Client.Fetch.{anml_content_type}
use anml_client_rust.Discovery.{DiscoveryResult, link_header, resolve_href}

-- What a call gives back.
pub data Run {ℓ} (A : Type ℓ) : Type ℓ where
  returns : A → Run A
  panics : Run A

abbrev pub angle : Bool → ℕ → Bool
angle inside c = if c == b'<' then true else if c == b'>' then false else inside

-- The pieces between the commas outside of angle brackets.
unfoldable pub pieces : Bool → Text → List Text
pieces inside [] = [] ∷ []
pieces inside (c ∷ s) =
    let rest = pieces (angle inside c) s in
    if (c == b',') && not (angle inside c) then [] ∷ rest else cons_head c rest

unfoldable pub split_links : Text → List Text
unfolding pieces
split_links header = retain (λ s. not (is_empty s)) (map trim (pieces false header))

abbrev pub is_quoted_by : ℕ → Text → Bool
is_quoted_by q s = starts_with (q ∷ []) s && ends_with q s

abbrev pub drop_last : Text → Text
drop_last [] = []
drop_last (c ∷ []) = []
drop_last (c ∷ d ∷ s) = c ∷ drop_last (d ∷ s)

-- `value[1..value.len() - 1]`
abbrev pub inner : Text → Run Text
inner [] = panics
inner (c ∷ []) = panics
inner (c ∷ d ∷ s) = returns (drop_last (d ∷ s))

unfoldable pub strip_quotes : Text → Run Text
strip_quotes value =
    if is_quoted_by 34 value || is_quoted_by 39 value then inner value else returns value

-- The parameters, the newest first.
unfoldable pub params_loop : List Text → List (Text × Text) → Run (List (Text × Text))
unfolding strip_quotes
params_loop [] params = returns params
params_loop (part ∷ parts) params = elim (split_once b'=' (trim part)) [
  | none ↦ params_loop parts params
  | some (k, v) ↦ elim (strip_quotes (trim v)) [
    | panics ↦ panics
    | returns value ↦ params_loop parts ((map ascii_lower (trim k), value) ∷ params)
  ]
]

unfoldable pub parse_params : Text → Run (List (Text × Text))
unfolding params_loop
parse_params param_str = params_loop (split b';' param_str) []

abbrev pub get : Text → List (Text × Text) → Option Text
get k [] = none
get k ((k', v) ∷ params) = if text_eq k' k then some v else get k params

abbrev pub is_text : Text → Option Text → Bool
is_text t none = false
is_text t (some s) = text_eq s t

abbrev pub is_anml_link : List (Text × Text) → Bool
is_anml_link params =
    is_text (codes "alternate") (get (codes "rel") params)
    && is_text anml_content_type (get (codes "type") params)

abbrev pub link_result : Text → Text → DiscoveryResult
link_result origin href = record {
  endpoint = resolve_href origin href;
  version = none;
  metadata = [];
  mechanism = link_header;
}

-- The loop over the entries: one without angle brackets ends it.
unfoldable pub link_loop : Text → List Text → Run (Option DiscoveryResult)
unfolding parse_params
link_loop origin [] = returns none
link_loop origin (link ∷ links) = elim (split_once b'<' link) [
  | none ↦ returns none
  | some (before, rest) ↦ elim (split_once b'>' rest) [
    | none ↦ returns none
    | some (href, params_str) ↦ elim (parse_params params_str) [
      | panics ↦ panics
      | returns params ↦ elim (is_anml_link params) [
        | true ↦ returns (some (link_result origin href))
        | false ↦ link_loop origin links
      ]
    ]
  ]
]

unfoldable pub parse_link_header : Text → Text → Run (Option DiscoveryResult)
unfolding split_links link_loop
parse_link_header header origin = link_loop origin (split_links header)

unfoldable pub header_loop : Text → List Text → Run (Result DiscoveryResult)
unfolding parse_link_header
header_loop origin [] = returns (err malformed_document)
header_loop origin (value ∷ values) = elim (parse_link_header value origin) [
  | panics ↦ panics
  | returns none ↦ header_loop origin values
  | returns (some r) ↦ returns (ok r)
]

-- `head` is the exchange for a URL: the values of the `Link` headers that are text.
unfoldable pub discover_link_header :
    (Text → Result (List Text)) → Text → Run (Result DiscoveryResult)
unfolding header_loop
discover_link_header head origin = elim (head (trim_end_matches b'/' origin ++ codes "/")) [
  | err e ↦ returns (err e)
  | ok values ↦ header_loop origin values
]
