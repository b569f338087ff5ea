-- ===== src/Client/Accepted.antt =====
-- Which answers `execute_fetch` of src/client.rs accepts as documents.
use anml_client_rust.Common.{
  ℕ, ◌≤◌, ◌<◌, Bool, none, some, List, ◌≡◌, ◌⊎◌, length, Text, codes, not, ◌||◌, Begins, Member,
  ◌≢◌, All,
}
use anml_client_rust.Document.{AnmlDocument, AnmlMeta}
use anml_client_rust.Config.Builder.{ClientConfig}
use anml_client_rust.Error.{ok}
use anml_client_rust.Client.Checks.{metas_of, names_profile, is_supported, supported_profiles}
use anml_client_rust.Client.Fetch.{
  Web, HttpMiddleware, Request, Response, answered, response_chain, anml_content_type, or_empty,
  build_parse_options, outgoing,
}

abbrev pub NoExtension : AnmlMeta → Type 0
NoExtension m = m.name ≢ codes "requires-ext"

abbrev pub KnownProfile : AnmlMeta → Type 0
KnownProfile m = (m.name ≢ codes "profile") ⊎ Member m.value supported_profiles

-- The test that the loop makes of an entry.
abbrev knows : AnmlMeta → Bool
knows m = not (names_profile m) || is_supported m.value

abbrev pub IsPlainHttp : Text → Type 0
IsPlainHttp scheme = scheme ≡ codes "http"

-- What the checks behind the parser let pass.
abbrev pub Passes : Text → AnmlDocument → Type 0
Passes scheme doc =
    (IsPlainHttp scheme → (doc.constraints ≡ none) × (doc.interact ≡ none))
    × All NoExtension (metas_of doc)
    × All KnownProfile (metas_of doc)

module _ (web : Web) (config : ClientConfig) (middleware : List HttpMiddleware) where
  -- An answer of the service becomes the document: its media type begins with that of ANML, its body, as the
  -- middleware leaves it, is within the limit, is UTF-8 and parses to a document that passes.
  abbrev pub AcceptsAs : Text → Response → AnmlDocument → Type 0
  AcceptsAs scheme response doc =
      Begins anml_content_type (or_empty response.content_type)
      × ((response' : Response) × (bytes : List ℕ) × (text : Text) × (response_chain middleware
              response
            ≡ ok response')
          × (response'.body ≡ ok bytes)
          × (length bytes ≤ config.resource_limits.max_document_size)
          × (web.from_utf8 bytes ≡ some text)
          × (web.parse_with_options (build_parse_options config) text ≡ some doc)
          × Passes scheme doc)

  abbrev pub Fetches : ℕ → Text → Text → Text → AnmlDocument → Type 0
  Fetches attempt url accept scheme doc =
      (request : Request) × (response : Response) × (outgoing web config middleware url accept
        ≡ ok request)
      × (web.execute attempt request ≡ answered response)
      × ((response.status < 400) ⊎ (599 < response.status))
      × AcceptsAs scheme response doc
