-- ===== src/Client/Fetch.antt =====
-- `fetch`, `fetch_url` and `execute_fetch` of src/client.rs. The HTTP client (the crate `reqwest`), the
-- URL parser (`url`), the document parser (`anml`) and the decoder of UTF-8 are the record `Web`. The
-- parser runs without a point where its timeout could take effect, so there is no such error.
use anml_client_rust.Common.{
  ℕ, ◌/◌, Bool, false, ◌&&◌, not, Option, none, some, List, [], ◌∷◌, ◌++◌, ◌==◌, ltb, leb,
  if◌then◌else◌, length, Text, text_eq, codes, starts_with, trim, split, map, retain, ascii_lower,
}
use anml_client_rust.Document.{AnmlDocument}
use anml_client_rust.Config.{Origin}
use anml_client_rust.Config.Builder.{ClientConfig}
use anml_client_rust.Error.{
  HttpSource, http, parse, content_type_mismatch, unsupported_version, malformed_document,
  resource_limit_exceeded, timeout, Result, ok, err, ◌>>=◌, ok_or,
}
use anml_client_rust.Client.Checks.{post_parse_checks}

pub record Request : Type 0 where
  pub url : Text
  -- by their names in lower case
  pub headers : List (Text × Text)

pub record Response : Type 0 where
  pub status : ℕ
  -- as text, where it is
  pub content_type : Option Text
  -- what `bytes` yields
  pub body : Result (List ℕ)
  -- what `text` yields, empty where it fails
  pub text : Text

pub data Exchange : Type 0 where
  answered : Response → Exchange
  broken : HttpSource → Exchange
  -- nothing within the time limit
  late : Exchange

-- The limits that `build_parse_options` passes on.
pub record ParseOptions : Type 0 where
  pub max_size : ℕ
  pub max_depth : ℕ
  pub max_elements : ℕ

pub record Web : Type 0 where
  pub parse_url : Text → Option Origin
  -- what `build` reports of the request for this URL
  pub build_error : Text → Option HttpSource
  pub valid_header : Text → Text → Bool
  -- the exchange of the attempt with this number
  pub execute : ℕ → Request → Exchange
  pub from_utf8 : List ℕ → Option Text
  pub parse_with_options : ParseOptions → Text → Option AnmlDocument
  pub parse : Text → Option AnmlDocument

pub record HttpMiddleware : Type 0 where
  pub on_request : Request → Result Request
  pub on_response : Response → Result Response

-- `HeaderMap::insert`, which replaces a header of the same name.
abbrev pub insert_header : Text → Text → List (Text × Text) → List (Text × Text)
insert_header name value headers =
    let n = map ascii_lower name in retain (λ h. not (text_eq h.0 n)) headers ++ ((n, value) ∷ [])

unfoldable pub add_default_headers :
    (Text → Text → Bool) → List (Text × Text) → List (Text × Text) → List (Text × Text)
add_default_headers valid [] headers = headers
add_default_headers valid ((n, v) ∷ rest) headers =
    add_default_headers valid rest (if valid n v then insert_header n v headers else headers)

-- The chain of requests, first to last.
unfoldable pub request_chain : List HttpMiddleware → Request → Result Request
request_chain [] r = ok r
request_chain (m ∷ ms) r = m.on_request r >>= λ r'. request_chain ms r'

-- The chain of responses over the same list, last to first.
unfoldable pub response_chain : List HttpMiddleware → Response → Result Response
response_chain [] r = ok r
response_chain (m ∷ ms) r = response_chain ms r >>= λ r'. m.on_response r'

abbrev pub anml_content_type : Text
anml_content_type = codes "application/anml+xml"

abbrev pub or_empty : Option Text → Text
or_empty none = []
or_empty (some s) = s

unfoldable pub validate_content_type : Response → Result (Unit {0})
validate_content_type r =
    if starts_with anml_content_type (or_empty r.content_type)
    then ok tt
    else err (content_type_mismatch (or_empty r.content_type))

abbrev pub versions_of : Option AnmlDocument → List Text
versions_of none = []
versions_of (some doc) = elim doc.supported_versions [
  | none ↦ []
  | some sv ↦ map trim (split b',' sv)
]

-- The body of a 406 answer is parsed for the versions that the service supports.
unfoldable pub handle_406 : Web → Response → Result AnmlDocument
handle_406 web r = err (unsupported_version (versions_of (web.parse r.text)))

unfoldable pub read_limited_body : Response → ℕ → Result (List ℕ)
read_limited_body r max_size = do
  bytes ← r.body
  if ltb max_size (length bytes)
      then err (resource_limit_exceeded (codes "max_document_size") (length bytes) max_size)
      else ok bytes

unfoldable pub build_parse_options : ClientConfig → ParseOptions
build_parse_options config = record {
  max_size = config.resource_limits.max_document_size;
  max_depth = config.resource_limits.max_depth;
  max_elements = config.resource_limits.max_elements;
}

abbrev pub http_status : ℕ → HttpSource
http_status s = record { status = some s; connect = false; timed_out = false }

abbrev pub as_secs : ℕ → ℕ
as_secs d = d / 1_000_000_000

abbrev pub outcome_of : ℕ → Exchange → Result Response
outcome_of limit (answered r) = ok r
outcome_of limit (broken source) = err (http source)
outcome_of limit late = err (timeout (codes "per_request") (as_secs limit))

abbrev pub built : Web → Text → Result (Unit {0})
built web url = elim (web.build_error url) [ none ↦ ok tt | some source ↦ err (http source) ]

module _ (web : Web) (config : ClientConfig) (middleware : List HttpMiddleware) where
  -- The request of an attempt, as the middleware leaves it.
  unfoldable pub outgoing : Text → Text → Result Request
  outgoing url accept = do
    _ ← built web url
    request_chain middleware (record {
      url = url;
      headers =
          add_default_headers web.valid_header config.default_headers
            ((codes "accept", accept) ∷ []);
    })

  -- What follows an answer that is neither a 406 nor an error.
  unfoldable pub accept_response : Text → Text → Response → Result AnmlDocument
  accept_response url scheme response = do
    _ ← validate_content_type response
    response' ← response_chain middleware response
    bytes ← read_limited_body response' config.resource_limits.max_document_size
    text ← ok_or (web.from_utf8 bytes) malformed_document
    doc ← ok_or (web.parse_with_options (build_parse_options config) text) parse
    _ ← post_parse_checks config.allow_plaintext_http doc (text_eq scheme (codes "http")) url
    ok doc

  unfoldable pub answer_of : Text → Text → Response → Result AnmlDocument
  unfolding accept_response handle_406
  answer_of url scheme response =
      if response.status == 406
      then handle_406 web response
      else if leb 500 response.status && leb response.status 599
      then err (http (http_status response.status))
      else if leb 400 response.status && leb response.status 499
      then err (http (http_status response.status))
      else accept_response url scheme response

  unfoldable pub execute_fetch : ℕ → Text → Text → Text → Result AnmlDocument
  unfolding outgoing answer_of
  execute_fetch attempt url accept scheme = do
    request ← outgoing url accept
    response ← outcome_of config.timeouts.per_request (web.execute attempt request)
    answer_of url scheme response
