-- ===== src/Testing/Received.antt =====
-- What the mock server of src/testing/mock_server.rs has recorded.
use anml_client_rust.Common.{
  true, false, List, [], ◌∷◌, ◌++◌, ◌≡◌, refl, ap, sym, ◌∙◌, Text, text_eq, map, any, append_assoc,
  append-nil, retain, is_empty, not, arith, Bool,
}
use anml_client_rust.Testing.MockServer.{
  MockState, MockRequest, MockResponse, recorded_of, answer_request, handle_request,
  assert_received, assert_not_received,
}

-- The requests are handled one after another.
abbrev pub serve_all : List MockRequest → MockState → MockState × List MockResponse
serve_all [] state = (state, [])
serve_all (r ∷ rs) state =
    let (state', response) = handle_request state r in
    let (after, responses) = serve_all rs state' in (after, response ∷ responses)

-- Whatever was requested, the server has recorded each request in its order behind those of
-- before, and has answered each as it would have answered it first.
pub serve_all-recorded :
    (rs : List MockRequest) (state : MockState)
    → ((serve_all rs state).0 ≡ record state { recorded = state.recorded ++ map recorded_of rs })
      × ((serve_all rs state).1 ≡ map (answer_request state) rs)
unfolding handle_request answer_request
serve_all-recorded [] state =
    (ap (λ l. record state { recorded = l }) (sym (append-nil state.recorded)), refl)
serve_all-recorded (r ∷ rs) state =
    let (recorded, answered) = serve_all-recorded rs (handle_request state r).0 in
    (
      recorded
          ∙ ap (λ l. record state { recorded = l })
              (append_assoc state.recorded (recorded_of r ∷ []) (map recorded_of rs)),
      ap (◌∷◌ (answer_request state r)) answered,
    )

retain-is_empty :
    (path : Text) (rs : List MockRequest)
    → is_empty (retain (λ r. text_eq r.path path) (map recorded_of rs))
      ≡ not (any (λ r. text_eq r.path path) rs)
retain-is_empty path [] = refl
retain-is_empty path (r ∷ rs) = ground (arith, retain-is_empty path rs)

not-not : (b : Bool) → not (not b) ≡ b
not-not true = refl
not-not false = refl

-- An assertion that a path was requested passes exactly when one of the requests since the last
-- clearing was to that path.
pub assert_received_iff :
    (path : Text) (rs : List MockRequest) (state : MockState)
    → state.recorded ≡ []
    → (assert_received path (serve_all rs state).0 ≡ any (λ r. text_eq r.path path) rs)
      × (assert_not_received path (serve_all rs state).0 ≡ not (any (λ r. text_eq r.path path) rs))
unfolding assert_received assert_not_received
assert_received_iff path rs state h =
    let recorded : (serve_all rs state).0.recorded ≡ map recorded_of rs =
      ap (λ s. s.recorded) ((serve_all-recorded rs state).0)
      ∙ ap (λ l. l ++ map recorded_of rs) h in
    let found =
      ap (λ l. is_empty (retain (λ r. text_eq r.path path) l)) recorded ∙ retain-is_empty path rs in
    (ap not found ∙ not-not _, found)
