-- ===== src/Error/Display.antt =====
-- The messages of the errors of src/error.rs.
use anml_client_rust.Common.{
  ℕ, suc, Option, none, some, List, [], ◌∷◌, ◌++◌, ◌≡◌, refl, if◌then◌else◌, Text, codes, decimal,
  join_with, starts_with,
}
use anml_client_rust.Error.{
  AnmlClientError, http, parse, transport_insecure, content_type_mismatch, unsupported_version,
  unsupported_profile, unsupported_extension, malformed_document, flow_aborted, integrity_mismatch,
  resource_limit_exceeded, consent_denied, rate_limited, trust_insufficient, action_budget_exceeded,
  ssrf_blocked, unexpected_state_regression, param_validation, timeout,
}

-- The fields of an error that hold prose, and the message of the error that it wraps.
pub record Prose : Type 0 where
  pub source : Text
  pub detail : Text
  pub reason : Text
  pub expected : Text
  pub actual : Text

abbrev pub retry_part : Option ℕ → Text
retry_part none = []
retry_part (some secs) = codes ", retry after " ++ decimal secs ++ codes "s"

abbrev quote_mark : Text
quote_mark = codes "'"

unfoldable pub display : Prose → AnmlClientError → Text
display p (http source) = codes "HTTP error: " ++ p.source
display p parse = codes "ANML parse error: " ++ p.source
display p (transport_insecure url) =
    codes "transport insecure: " ++ (p.reason ++ codes " (url: " ++ url ++ codes ")")
display p (content_type_mismatch actual) =
    codes "content type mismatch: expected '"
    ++ (p.expected ++ codes "', got '" ++ actual ++ quote_mark)
display p (unsupported_version supported) =
    codes "unsupported version: "
    ++ (p.detail ++ codes " (supported: " ++ join_with (codes ", ") supported ++ codes ")")
display p (unsupported_profile uri) = codes "unsupported profile: '" ++ (uri ++ quote_mark)
display p (unsupported_extension uri) =
    codes "unsupported required extension: '" ++ (uri ++ quote_mark)
display p malformed_document = codes "malformed document: " ++ p.detail
display p (flow_aborted step) = codes "flow aborted at step '" ++ (step ++ codes "': " ++ p.detail)
display p (integrity_mismatch element expected observed) =
    codes "integrity mismatch on <"
    ++ (element ++ codes ">: expected '" ++ expected ++ codes "', got '" ++ observed ++ quote_mark)
display p (resource_limit_exceeded limit value max) =
    codes "resource limit exceeded: '"
    ++ (limit ++ codes "' is " ++ decimal value ++ codes ", max is " ++ decimal max)
display p (consent_denied field rule scope) =
    codes "consent denied: field '"
    ++ (field ++ codes "' requires " ++ rule ++ codes " (consent-scope=" ++ scope ++ codes ")")
display p (rate_limited field after) =
    codes "rate limited: field '" ++ (field ++ quote_mark ++ retry_part after)
display p (trust_insufficient origin) =
    codes "trust insufficient for origin '" ++ (origin ++ codes "': " ++ p.reason)
display p (action_budget_exceeded kind limit) =
    codes "action budget exceeded: '" ++ (kind ++ codes "' limit is " ++ decimal limit)
display p (ssrf_blocked endpoint) =
    codes "SSRF blocked: endpoint '" ++ (endpoint ++ codes "' resolves to a private address")
display p (unexpected_state_regression step from to) =
    codes "unexpected state regression: step '"
    ++ (step ++ codes "' moved from '" ++ from ++ codes "' to '" ++ to ++ quote_mark)
display p (param_validation param constraint) =
    codes "param validation: '"
    ++ (param
        ++ codes "' "
        ++ constraint
        ++ codes " expected "
        ++ p.expected
        ++ codes ", got '"
        ++ p.actual
        ++ quote_mark)
display p (timeout operation secs) =
    codes "timeout: " ++ (operation ++ codes " exceeded " ++ decimal secs ++ codes "s")

-- The opening words of the messages, in the order of the variants.
abbrev openings : List Text
openings =
    codes "HTTP error: "
    ∷ codes "ANML parse error: "
    ∷ codes "transport insecure: "
    ∷ codes "content type mismatch: "
    ∷ codes "unsupported version: "
    ∷ codes "unsupported profile: "
    ∷ codes "unsupported required extension: "
    ∷ codes "malformed document: "
    ∷ codes "flow aborted at step "
    ∷ codes "integrity mismatch on "
    ∷ codes "resource limit exceeded: "
    ∷ codes "consent denied: "
    ∷ codes "rate limited: "
    ∷ codes "trust insufficient for origin "
    ∷ codes "action budget exceeded: "
    ∷ codes "SSRF blocked: "
    ∷ codes "unexpected state regression: "
    ∷ codes "param validation: "
    ∷ codes "timeout: "
    ∷ []

abbrev pub opening_from : ℕ → List Text → Text → Option ℕ
opening_from n [] s = none
opening_from n (o ∷ os) s =
    let later = opening_from (suc n) os s in if starts_with o s then some n else later

-- The variant that a message names, by its position.
unfoldable pub variant_of : Text → Option ℕ
variant_of s = opening_from 0 openings s

abbrev pub variant : AnmlClientError → ℕ
variant (http source) = 0
variant parse = 1
variant (transport_insecure url) = 2
variant (content_type_mismatch actual) = 3
variant (unsupported_version supported) = 4
variant (unsupported_profile uri) = 5
variant (unsupported_extension uri) = 6
variant malformed_document = 7
variant (flow_aborted step) = 8
variant (integrity_mismatch element expected observed) = 9
variant (resource_limit_exceeded limit value max) = 10
variant (consent_denied field rule scope) = 11
variant (rate_limited field after) = 12
variant (trust_insufficient origin) = 13
variant (action_budget_exceeded kind limit) = 14
variant (ssrf_blocked endpoint) = 15
variant (unexpected_state_regression step from to) = 16
variant (param_validation param constraint) = 17
variant (timeout operation secs) = 18

-- The opening words of a message tell its variant, whatever its fields hold.
pub display-variant_of :
    (p : Prose) (e : AnmlClientError) → variant_of (display p e) ≡ some (variant e)
unfolding display variant_of
display-variant_of p (http source) = refl
display-variant_of p parse = refl
display-variant_of p (transport_insecure url) = refl
display-variant_of p (content_type_mismatch actual) = refl
display-variant_of p (unsupported_version supported) = refl
display-variant_of p (unsupported_profile uri) = refl
display-variant_of p (unsupported_extension uri) = refl
display-variant_of p malformed_document = refl
display-variant_of p (flow_aborted step) = refl
display-variant_of p (integrity_mismatch element expected observed) = refl
display-variant_of p (resource_limit_exceeded limit value max) = refl
display-variant_of p (consent_denied field rule scope) = refl
display-variant_of p (rate_limited field after) = refl
display-variant_of p (trust_insufficient origin) = refl
display-variant_of p (action_budget_exceeded kind limit) = refl
display-variant_of p (ssrf_blocked endpoint) = refl
display-variant_of p (unexpected_state_regression step from to) = refl
display-variant_of p (param_validation param constraint) = refl
display-variant_of p (timeout operation secs) = refl
