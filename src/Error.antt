-- ===== src/Error.antt =====
-- src/error.rs: the unified error type. The prose of the `detail` and `reason` fields is left out;
-- the fields that name a step, a limit, a constraint or a status are kept.
pub mod Display
use anml_client_rust.Common.{
  ℕ, Bool, Option, List, ◌≡◌, refl, ◌⊎◌, inl, inr, Text, ◌++◌, codes, text_eq, if◌then◌else◌,
}

-- What the client reads of a `reqwest::Error`: `status()`, `is_connect()`, `is_timeout()`.
pub record HttpSource : Type 0 where
  pub status : Option ℕ
  pub connect : Bool
  pub timed_out : Bool

pub data AnmlClientError : Type 0 where
  http : HttpSource → AnmlClientError
  parse : AnmlClientError
  -- url
  transport_insecure : Text → AnmlClientError
  -- actual
  content_type_mismatch : Text → AnmlClientError
  -- supported
  unsupported_version : List Text → AnmlClientError
  -- profile_uri
  unsupported_profile : Text → AnmlClientError
  -- namespace_uri
  unsupported_extension : Text → AnmlClientError
  malformed_document : AnmlClientError
  -- step_id
  flow_aborted : Text → AnmlClientError
  -- element, expected, observed
  integrity_mismatch : Text → Text → Text → AnmlClientError
  -- limit, value, max
  resource_limit_exceeded : Text → ℕ → ℕ → AnmlClientError
  -- field, rule, consent_scope
  consent_denied : Text → Text → Text → AnmlClientError
  -- field, retry_after
  rate_limited : Text → Option ℕ → AnmlClientError
  -- origin
  trust_insufficient : Text → AnmlClientError
  -- budget_type, limit
  action_budget_exceeded : Text → ℕ → AnmlClientError
  -- endpoint
  ssrf_blocked : Text → AnmlClientError
  -- step_id, from, to
  unexpected_state_regression : Text → Text → Text → AnmlClientError
  -- param, constraint
  param_validation : Text → Text → AnmlClientError
  -- operation, timeout_secs
  timeout : Text → ℕ → AnmlClientError

-- `crate::Result`
pub data Result {ℓ} (A : Type ℓ) : Type ℓ where
  ok : A → Result A
  err : AnmlClientError → Result A

-- The operator `?`: an error returns at once.
infixl 5 ◌>>=◌
abbrev pub ◌>>=◌ {ℓ κ} : {X : Type ℓ} {Y : Type κ} (r : Result X) → ((x : X) → Result Y) → Result Y
err e >>= next = err e
ok x >>= next = next x

-- `ok_or_else`
abbrev pub ok_or {ℓ} : {A : Type ℓ} → Option A → AnmlClientError → Result A
ok_or (Option.some a) e = ok a
ok_or Option.none e = err e

pub Result-cases {ℓ} :
    {A : Type ℓ} (r : Result A) → ((a : A) × (r ≡ ok a)) ⊎ ((e : AnmlClientError) × (r ≡ err e))
Result-cases (ok a) = inl (a, refl)
Result-cases (err e) = inr (e, refl)

abbrev pub problem : Text → Text
problem name = codes "urn:ietf:params:xml:ns:anml:problem:" ++ name

-- The name of the variant for a problem type, if it is known.
unfoldable pub problem_type_to_variant : Text → Option Text
problem_type_to_variant uri =
    if text_eq uri (problem (codes "unsupported-version"))
    then Option.some (codes "UnsupportedVersion")
    else if text_eq uri (problem (codes "unsupported-profile"))
    then Option.some (codes "UnsupportedProfile")
    else if text_eq uri (problem (codes "malformed-document"))
    then Option.some (codes "MalformedDocument")
    else if text_eq uri (problem (codes "flow-aborted"))
    then Option.some (codes "FlowAborted")
    else if text_eq uri (problem (codes "trust-level-regression"))
    then Option.some (codes "TrustInsufficient")
    else if text_eq uri (problem (codes "integrity-mismatch"))
    then Option.some (codes "IntegrityMismatch")
    else if text_eq uri (problem (codes "resource-limit-exceeded"))
    then Option.some (codes "ResourceLimitExceeded")
    else Option.none
