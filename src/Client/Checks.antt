-- ===== src/Client/Checks.antt =====
-- The checks of a fetched document in src/client.rs, `post_parse_checks`, and the test for errors that
-- are worth a retry.
use anml_client_rust.Common.{
  Bool, true, false, ◌&&◌, ◌||◌, not, none, some, List, [], ◌∷◌, ◌==◌, if◌then◌else◌, any, is_some,
  Text, text_eq, codes, ℕ,
}
use anml_client_rust.Document.{AnmlDocument, AnmlMeta}
use anml_client_rust.Error.{
  AnmlClientError, http, timeout, transport_insecure, unsupported_extension, unsupported_profile,
  Result, ok, err, ◌>>=◌,
}

abbrev pub supported_profiles : List Text
supported_profiles = codes "urn:ietf:anml:profile:core-1.0" ∷ codes "core-1.0" ∷ []

-- The two loops over `asks` have no effect.
unfoldable pub check_http_restrictions : Text → AnmlDocument → Result (Unit {0})
check_http_restrictions url doc =
    if is_some doc.constraints
    then err (transport_insecure url)
    else if is_some doc.interact
    then err (transport_insecure url)
    else ok tt

abbrev pub metas_of : AnmlDocument → List AnmlMeta
metas_of doc = elim doc.head [ none ↦ [] | some h ↦ elim h.meta [ none ↦ [] | some metas ↦ metas ] ]

unfoldable pub requires_extension : AnmlMeta → Bool
requires_extension m = text_eq m.name (codes "requires-ext")

unfoldable pub names_profile : AnmlMeta → Bool
names_profile m = text_eq m.name (codes "profile")

unfoldable pub extension_loop : List AnmlMeta → Result (Unit {0})
extension_loop [] = ok tt
extension_loop (m ∷ metas) =
    let rest = extension_loop metas in
    if requires_extension m then err (unsupported_extension m.value) else rest

unfoldable pub check_required_extensions : AnmlDocument → Result (Unit {0})
check_required_extensions doc = extension_loop (metas_of doc)

unfoldable pub is_supported : Text → Bool
is_supported profile = any (λ p. text_eq p profile) supported_profiles

unfoldable pub profile_loop : List AnmlMeta → Result (Unit {0})
profile_loop [] = ok tt
profile_loop (m ∷ metas) =
    let rest = profile_loop metas in
    if names_profile m
    then if is_supported m.value then rest else err (unsupported_profile m.value)
    else rest

unfoldable pub check_required_profiles : AnmlDocument → Result (Unit {0})
check_required_profiles doc = profile_loop (metas_of doc)

unfoldable pub post_parse_checks : Bool → AnmlDocument → Bool → Text → Result (Unit {0})
post_parse_checks allow_plaintext_http doc is_http url = do
  _ ← if is_http && not allow_plaintext_http then check_http_restrictions url doc else ok tt
  _ ← if is_http then check_http_restrictions url doc else ok tt
  _ ← check_required_extensions doc
  check_required_profiles doc

-- `RetryPolicy::is_retryable_status`
abbrev pub is_retryable_status : ℕ → Bool
is_retryable_status s = (s == 500) || (s == 502) || (s == 503) || (s == 504)

unfoldable pub is_retryable_error : AnmlClientError → Bool
is_retryable_error (http source) = elim source.status [
  | some s ↦ is_retryable_status s
  | none ↦ source.connect || source.timed_out
]
is_retryable_error (timeout operation secs) = true
is_retryable_error _ = false
