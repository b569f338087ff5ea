-- ===== src/Action/Builder.antt =====
-- src/action/builder.rs: the builder of a request, and src/action/idempotency.rs. Its copies of the
-- document's origin and of the base are never read, and are left out. A float arrives as its text.
mod Examples
pub mod Agrees
use anml_client_rust.Common.{
  ℕ, Bool, true, false, ◌&&◌, not, Option, none, some, List, [], ◌∷◌, ◌++◌, if◌then◌else◌, Text,
  text_eq, codes, map, ascii_lower, is_empty, is_some, any, ◌≡◌, refl, decimal, ℤ, signed_decimal,
  join_with,
}
use anml_client_rust.Document.{AnmlDocument, AnmlAction, AnmlParam, number}
use anml_client_rust.Error.{malformed_document, param_validation, Result, ok, err, ◌>>=◌, ok_or}
use anml_client_rust.Disclosure.Consent.{ConsentBasis, basis_text, explicit, implicit, delegated}
use anml_client_rust.Action.Params.{Floats, canonical_value, collect_params}
use anml_client_rust.Action.Prepare.{Platform, ActionContext, find_action, list_or, validate_params}
use anml_client_rust.Action.Execute.{ActionState, Executed, execute_action}

pub record ActionRequestBuilder : Type 0 where
  pub doc : AnmlDocument
  pub action : AnmlAction
  pub params : List (Text × Text)
  -- the newest first
  pub set_params : List Text
  pub consent_basis : Option ConsentBasis

unfoldable pub check_not_deferred_ask : Text → Result (Unit {0})
check_not_deferred_ask action_id = if is_empty action_id then err malformed_document else ok tt

-- `new`
unfoldable pub new_builder : AnmlDocument → Text → Result ActionRequestBuilder
unfolding check_not_deferred_ask
new_builder doc action_id = do
  _ ← check_not_deferred_ask action_id
  action ← ok_or (find_action doc action_id) malformed_document
  ok (record { doc = doc; action = action; params = []; set_params = []; consent_basis = none })

unfoldable pub param : Text → Text → ActionRequestBuilder → ActionRequestBuilder
param name value b = record b {
  set_params = name ∷ b.set_params;
  params = b.params ++ ((name, value) ∷ []);
}

abbrev pub param_i64 : Text → ℤ → ActionRequestBuilder → ActionRequestBuilder
param_i64 name value b = param name (signed_decimal value) b

abbrev pub param_u64 : Text → ℕ → ActionRequestBuilder → ActionRequestBuilder
param_u64 name value b = param name (decimal value) b

abbrev pub param_f64 : Floats → Text → Text → ActionRequestBuilder → ActionRequestBuilder
param_f64 floats name value b = param name (canonical_value floats value (some number)) b

abbrev pub param_bool : Text → Bool → ActionRequestBuilder → ActionRequestBuilder
param_bool name value b = param name (if value then codes "true" else codes "false") b

-- The types that implement `IntoParamValue`.
pub data ParamInput : Type 0 where
  str f64 : Text → ParamInput
  i64 : ℤ → ParamInput
  u64 : ℕ → ParamInput
  bool : Bool → ParamInput

unfoldable pub into_param_value : Floats → ParamInput → Text
into_param_value floats (str value) = value
into_param_value floats (f64 value) = canonical_value floats value (some number)
into_param_value floats (i64 value) = signed_decimal value
into_param_value floats (u64 value) = decimal value
into_param_value floats (bool value) = if value then codes "true" else codes "false"

-- What the message of `new` lists.
abbrev pub available_action_ids : AnmlDocument → Text
available_action_ids doc = elim doc.interact [
  | none ↦ []
  | some interact ↦ join_with (codes ", ") (map (λ a. a.id) interact.actions)
]

abbrev pub with_consent : ConsentBasis → ActionRequestBuilder → ActionRequestBuilder
with_consent basis b = record b { consent_basis = some basis }

unfoldable pub parse_consent_basis : Text → Result ConsentBasis
parse_consent_basis s =
    let word = map ascii_lower s in
    if text_eq word (codes "explicit")
    then ok explicit
    else if text_eq word (codes "implicit")
    then ok implicit
    else if text_eq word (codes "delegated")
    then ok delegated
    else err (param_validation (codes "consent_basis") (codes "one-of"))

-- The text of a basis is read as that basis.
pub parse_consent_basis-basis_text :
    (basis : ConsentBasis) → parse_consent_basis (basis_text basis) ≡ ok basis
unfolding parse_consent_basis
parse_consent_basis-basis_text explicit = refl
parse_consent_basis-basis_text implicit = refl
parse_consent_basis-basis_text delegated = refl

unfoldable pub with_consent_str : Text → ActionRequestBuilder → Result ActionRequestBuilder
unfolding parse_consent_basis
with_consent_str basis b = parse_consent_basis basis >>= λ parsed. ok (with_consent parsed b)

abbrev pub is_unset : List Text → AnmlParam → Bool
is_unset set_params def = elim def.required [
  | some true ↦ not (any (λ n. text_eq n def.name) set_params) && not (is_some def.default)
  | _ ↦ false
]

unfoldable pub required_loop : List Text → List AnmlParam → Result (Unit {0})
required_loop set_params [] = ok tt
required_loop set_params (def ∷ defs) =
    let rest = required_loop set_params defs in
    if is_unset set_params def then err (param_validation def.name (codes "required")) else rest

unfoldable pub validate_required_params : ActionRequestBuilder → Result (Unit {0})
unfolding required_loop
validate_required_params b = required_loop b.set_params (list_or b.action.params)

module _ (platform : Platform) where
  unfoldable pub validate_param_values : ActionRequestBuilder → Result (Unit {0})
  validate_param_values b =
      validate_params platform (list_or b.action.params)
        (collect_params (list_or b.action.params) b.params)

  unfoldable pub execute : ActionContext → Option ℕ → ActionRequestBuilder → ActionState → Executed
  unfolding validate_required_params validate_param_values
  execute ctx expires b s = elim (validate_required_params b >>= λ u. validate_param_values b) [
    | err e ↦ record { state = s; sent = []; outcome = err e }
    | ok u ↦ execute_action platform ctx b.doc b.action.id b.params expires s
  ]

pub data RetryDecision : Type 0 where
  retry_with_same_key retry_with_new_key do_not_retry : RetryDecision

abbrev pub is_transient : Option Text → Bool
is_transient none = false
is_transient (some pt) = text_eq pt (codes "urn:ietf:params:xml:ns:anml:problem:transient")

unfoldable pub evaluate_retry : Bool → Option ℕ → Option Text → RetryDecision
evaluate_retry is_network_failure retry_after problem_type =
    if is_network_failure
    then retry_with_same_key
    else if is_some retry_after
    then retry_with_new_key
    else if is_transient problem_type
    then retry_with_new_key
    else do_not_retry
