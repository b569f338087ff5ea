-- ===== src/Testing/MockServer.antt =====
-- src/testing/mock_server.rs: the mock server as a function of its state and a request. The listener
-- and the crate `axum` are left out; a request arrives with what they make of it.
use anml_client_rust.Common.{
  ℕ, ◌&&◌, Bool, not, Option, none, some, List, [], ◌∷◌, ◌++◌, leb, if◌then◌else◌, Text, text_eq,
  text_instance, codes, retain, is_empty,
}
use anml_client_rust.Common.Assoc.{get, insert}

pub record RecordedRequest : Type 0 where
  pub method : Text
  pub path : Text
  pub headers : List (Text × Text)
  pub body : List ℕ

pub record MockState : Type 0 where
  pub documents : List (Text × Text)
  pub action_responses : List (Text × Text)
  pub recorded : List RecordedRequest
  pub status_overrides : List (Text × ℕ)

-- `MockAnmlServerBuilder`
pub record MockBuilder : Type 0 where
  pub documents : List (Text × Text)
  pub action_responses : List (Text × Text)
  pub status_overrides : List (Text × ℕ)

abbrev pub mock_builder : MockBuilder
mock_builder = record { documents = []; action_responses = []; status_overrides = [] }

abbrev pub add_document : Text → Text → MockBuilder → MockBuilder
add_document path xml b = record b { documents = insert path xml b.documents }

abbrev pub add_action_response : Text → Text → MockBuilder → MockBuilder
add_action_response path xml b = record b { action_responses = insert path xml b.action_responses }

abbrev pub override_status : Text → ℕ → MockBuilder → MockBuilder
override_status path code b = record b { status_overrides = insert path code b.status_overrides }

abbrev pub build_mock : MockBuilder → MockState
build_mock b = record {
  documents = b.documents;
  action_responses = b.action_responses;
  recorded = [];
  status_overrides = b.status_overrides;
}

-- `SocketAddr` is shown by the standard library.
abbrev pub mock_url : Text → Text
mock_url addr = codes "http://" ++ addr

pub record MockRequest : Type 0 where
  pub method : Text
  pub path : Text
  -- the values that are text
  pub headers : List (Text × Option Text)
  -- what is read of at most a mebibyte, if it could be
  pub body : Option (List ℕ)

pub record MockResponse : Type 0 where
  pub status : ℕ
  pub content_type : Option Text
  pub body : Text

abbrev pub text_or_empty : Option (List ℕ) → List ℕ
text_or_empty none = []
text_or_empty (some s) = s

-- `collect` into a map: the last header of a name is kept.
abbrev pub collect_headers : List (Text × Option Text) → List (Text × Text) → List (Text × Text)
collect_headers [] headers = headers
collect_headers ((k, v) ∷ rest) headers = collect_headers rest (insert k (text_or_empty v) headers)

abbrev pub recorded_of : MockRequest → RecordedRequest
recorded_of r = record {
  method = r.method;
  path = r.path;
  headers = collect_headers r.headers [];
  body = text_or_empty r.body;
}

abbrev pub status_or_error : ℕ → ℕ
status_or_error code = if leb 100 code && leb code 999 then code else 500

abbrev pub with_document : ℕ → Text → MockResponse
with_document status doc = record {
  status = status;
  content_type = some (codes "application/anml+xml");
  body = doc;
}

abbrev pub plain_text : Option Text
plain_text = some (codes "text/plain; charset=utf-8")

abbrev pub document_or_not_found : MockState → Text → MockResponse
document_or_not_found state path = elim (get path state.documents) [
  | some doc ↦ with_document 200 doc
  | none ↦ record { status = 404; content_type = plain_text; body = codes "not found" }
]

unfoldable pub answer_request : MockState → MockRequest → MockResponse
answer_request state r = elim (get r.path state.status_overrides) [
  | some code ↦ elim (get r.path state.documents) [
    | some doc ↦ with_document (status_or_error code) doc
    | none ↦ record { status = status_or_error code; content_type = plain_text; body = [] }
  ]
  | none ↦
      if text_eq r.method (codes "POST")
      then elim (get r.path state.action_responses) [
        | some doc ↦ with_document 200 doc
        | none ↦ document_or_not_found state r.path
      ]
      else document_or_not_found state r.path
]

unfoldable pub handle_request : MockState → MockRequest → MockState × MockResponse
unfolding answer_request
handle_request state r =
    (record state { recorded = state.recorded ++ (recorded_of r ∷ []) }, answer_request state r)

abbrev pub recorded_requests : MockState → List RecordedRequest
recorded_requests state = state.recorded

abbrev pub requests_to : Text → MockState → List RecordedRequest
requests_to path state = retain (λ r. text_eq r.path path) (recorded_requests state)

-- Whether the assertion passes.
unfoldable pub assert_received : Text → MockState → Bool
assert_received path state = not (is_empty (requests_to path state))

unfoldable pub assert_not_received : Text → MockState → Bool
assert_not_received path state = is_empty (requests_to path state)

abbrev pub clear_recorded : MockState → MockState
clear_recorded state = record state { recorded = [] }
