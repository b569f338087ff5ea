-- ===== src/Discovery.antt =====
-- src/discovery: how the client finds the endpoint of a service. The four mechanisms are tried in a
-- fixed order. What the HTTP client, the parsers and the resolver answer are arguments. Of a result,
-- the table of metadata is a list of pairs, the newest first.
pub mod Links
pub mod Records
use anml_client_rust.Common.{
  ℕ, Bool, true, false, ◌&&◌, ◌||◌, Option, none, some, List, [], ◌∷◌, ◌++◌, leb, if◌then◌else◌,
  Text, codes, starts_with, trim_end_matches,
}
use anml_client_rust.Document.{AnmlDocument, AnmlMeta}
use anml_client_rust.Error.{
  AnmlClientError, http, parse, malformed_document, content_type_mismatch, Result, ok, err, ◌>>=◌,
  ok_or,
}
use anml_client_rust.Client.Fetch.{anml_content_type, or_empty}

pub data DiscoveryMechanism : Type 0 where
  well_known link_header html_link dns_sd : DiscoveryMechanism

pub record DiscoveryResult : Type 0 where
  pub endpoint : Text
  pub version : Option Text
  pub metadata : List (Text × Text)
  pub mechanism : DiscoveryMechanism

-- The first result; the errors before it are dropped.
abbrev pub or_next : Result DiscoveryResult → Result DiscoveryResult → Result DiscoveryResult
or_next (ok r) next = ok r
or_next (err e) next = next

-- With both features: an absent feature is a mechanism that fails.
unfoldable pub discover :
    Result DiscoveryResult
    → Result DiscoveryResult
    → Result DiscoveryResult
    → Result DiscoveryResult
    → Result DiscoveryResult
discover by_well_known by_link_header by_html_link by_dns_sd =
    or_next by_well_known
      (or_next by_link_header (or_next by_html_link (or_next by_dns_sd (err malformed_document))))

-- What the mechanisms read of an answer; the body is what `text` yields.
pub record Page : Type 0 where
  pub status : ℕ
  pub content_type : Option Text
  pub body : Result Text

abbrev pub is_success : ℕ → Bool
is_success status = leb 200 status && leb status 299

unfoldable pub meta_entries : List AnmlMeta → List (Text × Text) → List (Text × Text)
meta_entries [] table = table
meta_entries (m ∷ metas) table = meta_entries metas ((m.name, m.value) ∷ table)

abbrev pub title_entry : Option Text → List (Text × Text)
title_entry none = []
title_entry (some title) = (codes "title", title) ∷ []

unfoldable pub metadata_of : AnmlDocument → List (Text × Text)
unfolding meta_entries
metadata_of doc = elim doc.head [
  | none ↦ []
  | some head ↦ elim head.meta [
    | none ↦ title_entry head.title
    | some metas ↦ meta_entries metas (title_entry head.title)
  ]
]

-- What the answer to the request for `url` yields.
unfoldable pub well_known_result :
    (Text → Option AnmlDocument) → Text → Page → Result DiscoveryResult
unfolding metadata_of
well_known_result parse_document url page =
    if is_success page.status
    then if starts_with anml_content_type (or_empty page.content_type)
      then (page.body >>= λ body. ok_or (parse_document body) parse >>= λ doc. ok (record {
        endpoint = url;
        version = doc.version;
        metadata = metadata_of doc;
        mechanism = well_known;
      }))
      else err (content_type_mismatch (or_empty page.content_type))
    else err malformed_document

-- `get` is the exchange for a URL, and `parse_document` the parser of the crate `anml`.
unfoldable pub discover_well_known :
    (Text → Result Page) → (Text → Option AnmlDocument) → Text → Result DiscoveryResult
unfolding well_known_result
discover_well_known get parse_document origin =
    let url = trim_end_matches b'/' origin ++ codes "/.well-known/anml" in
    get url >>= λ page. well_known_result parse_document url page

-- A reference to the service, absolute or below the origin.
abbrev pub resolve_href : Text → Text → Text
resolve_href origin href =
    if starts_with (codes "http://") href || starts_with (codes "https://") href
    then href
    else trim_end_matches b'/' origin ++ href

-- The `href` attributes of the elements that the selector finds, where they have one.
unfoldable pub first_href : Text → List (Option Text) → Result DiscoveryResult
first_href origin [] = err malformed_document
first_href origin (none ∷ elements) = first_href origin elements
first_href origin (some href ∷ elements) = ok (record {
  endpoint = resolve_href origin href;
  version = none;
  metadata = [];
  mechanism = html_link;
})

unfoldable pub discover_html_link :
    (Text → Result Page) → (Text → List (Option Text)) → Text → Result DiscoveryResult
unfolding first_href
discover_html_link get select origin = get (trim_end_matches b'/' origin ++ codes "/") >>= λ page.
    if is_success page.status
    then (page.body >>= λ body. first_href origin (select body))
    else err malformed_document
