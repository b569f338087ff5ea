-- ===== src/Action/Builder/Agrees.antt =====
-- The builder of src/action/builder.rs against `execute_action`.
use anml_client_rust.Common.{
  ℕ, Bool, true, false, ◌||◌, Option, none, some, List, [], ◌∷◌, ◌++◌, ◌≡◌, ◌≢◌, ◌⊎◌, inl, inr,
  refl, sym, ap, subst, ◌∙◌, Text, text_eq, text_eq_iff, any, find, find-some, is_empty, All,
  Member, All-Member, arith, Bool-cases, Option-cases,
}
use anml_client_rust.Document.{AnmlDocument, AnmlAction, AnmlParam}
use anml_client_rust.Error.{AnmlClientError, Result, ok, err, ◌>>=◌, Result-cases}
use anml_client_rust.Action.Params.{has_name, user_value, collect_params}
use anml_client_rust.Action.Prepare.{
  Platform, ActionContext, action_id_is, find_action, list_or, resolve_endpoint, check_ssrf,
  validate_params, prepare,
}
use anml_client_rust.Action.Prepare.Passed.{IsValid, validate_params-IsValid}
use anml_client_rust.Action.Execute.{ActionState, Executed, execute_action}
use anml_client_rust.Action.Builder.{
  ActionRequestBuilder, new_builder, param, is_unset, required_loop, validate_required_params,
  validate_param_values, execute,
}

abbrev pub is_set : List Text → Text → Bool
is_set set_params n = any (λ m. text_eq m n) set_params

abbrev pub is_given : List (Text × Text) → Text → Bool
is_given params n = any (λ kv. text_eq kv.0 n) params

-- The action is the document's, and the names that are noted are those of the parameters.
pub record IsBuilt (b : ActionRequestBuilder) : Type 0 where
  pub found : find_action b.doc b.action.id ≡ some b.action
  pub noted : (n : Text) → is_set b.set_params n ≡ is_given b.params n

is_given-append :
    (params : List (Text × Text)) (name value n : Text)
    → is_given (params ++ ((name, value) ∷ [])) n ≡ text_eq name n || is_given params n
is_given-append [] name value n = refl
is_given-append ((k, v) ∷ params) name value n = ground (arith, is_given-append params name value n)

pub param-IsBuilt :
    (name value : Text) (b : ActionRequestBuilder) → IsBuilt b → IsBuilt (param name value b)
unfolding param
param-IsBuilt name value b h = record {
  found = h.found;
  noted = λ n. ground (arith, h.noted n, is_given-append b.params name value n);
}

-- The first action with an identifier is the first with its own.
find_action-id :
    (doc : AnmlDocument) (i : Text) (a : AnmlAction)
    → find_action doc i ≡ some a
    → find_action doc a.id ≡ some a
unfolding find_action
find_action-id doc i a h = elim (Option-cases doc.interact) [
  | inl missing ↦ ground (arith, (rw missing at h))
  | inr (interact, e) ↦
      let (same, m) = find-some (action_id_is i) interact.actions {x = a} (rw e at h) in
      subst (λ j. find_action doc j ≡ some a) (sym ((text_eq_iff a.id i).0 same)) h
]

abbrev built_or : ActionRequestBuilder → Result ActionRequestBuilder → ActionRequestBuilder
built_or b (ok built) = built
built_or b (err e) = b

pub new_builder-IsBuilt :
    (doc : AnmlDocument) (action_id : Text) (b : ActionRequestBuilder)
    → new_builder doc action_id ≡ ok b
    → IsBuilt b
unfolding new_builder
new_builder-IsBuilt doc action_id b h = elim (Bool-cases (is_empty action_id)) [
  | inl deferred ↦ ground (arith, (rw deferred at h))
  | inr named ↦ elim (Option-cases (find_action doc action_id)) [
    | inl missing ↦ ground (arith, (rw (named, missing) at h))
    | inr (action, e) ↦
        subst IsBuilt (ap (built_or b) (rw (named, e) at h))
          (record { found = find_action-id doc action_id action e; noted = λ n. refl })
  ]
]

user_value-none :
    (params : List (Text × Text)) (n : Text)
    → is_given params n ≡ false
    → user_value n params ≡ none
unfolding user_value
user_value-none [] n h = refl
user_value-none ((k, v) ∷ params) n h = ground (arith, user_value-none params n)

-- Definitions of this name have no default.
abbrev LacksDefault : Text → AnmlParam → Type 0
LacksDefault n d = text_eq d.name n ≡ true → d.default ≡ none

collect_params-missing :
    (defs : List AnmlParam) (params : List (Text × Text)) (n : Text)
    → user_value n params ≡ none
    → All (LacksDefault n) defs
    → find (has_name n) (collect_params defs params) ≡ none
unfolding collect_params
collect_params-missing [] params n u h = refl
collect_params-missing (d ∷ defs) params n u (h, hs) =
    ground (arith, text_eq_iff d.name n, collect_params-missing defs params n u hs)

required_loop-err :
    (set_params : List Text) (defs : List AnmlParam) (e : AnmlClientError)
    → required_loop set_params defs ≡ err e
    → (def : AnmlParam) × Member def defs × (is_unset set_params def ≡ true)
unfolding required_loop
required_loop-err set_params [] e h = ground arith
required_loop-err set_params (def ∷ defs) e h = elim (Bool-cases (is_unset set_params def)) [
  | inl unset ↦ (def, inl refl, unset)
  | inr fine ↦ let (d, m, u) = required_loop-err set_params defs e (rw fine at h) in (d, inr m, u)
]

-- Definitions of the same name agree on whether there is no default.
abbrev pub AgreesWith : List AnmlParam → AnmlParam → Type 0
AgreesWith defs d =
    All (λ e. text_eq e.name d.name ≡ true → d.default ≡ none → e.default ≡ none) defs

is_unset-lacks :
    (set_params : List Text) (d : AnmlParam)
    → is_unset set_params d ≡ true
    → (d.required ≡ some true) × (is_set set_params d.name ≡ false) × (d.default ≡ none)
is_unset-lacks set_params d h = ground arith

All-applied :
    (d : AnmlParam) (defs : List AnmlParam)
    → AgreesWith defs d
    → d.default ≡ none
    → All (LacksDefault d.name) defs
All-applied d [] h n = tt
All-applied d (e ∷ defs) (h, hs) n = (λ same. h same n, All-applied d defs hs n)

module _ (platform : Platform) where
  -- What the request's checks yield for the parameters of a builder.
  abbrev checked : ActionRequestBuilder → Result (Unit {0})
  checked b =
      validate_params platform (list_or b.action.params)
        (collect_params (list_or b.action.params) b.params)

  unset-refused :
      (b : ActionRequestBuilder) (d : AnmlParam)
      → IsBuilt b
      → AgreesWith (list_or b.action.params) d
      → Member d (list_or b.action.params)
      → is_unset b.set_params d ≡ true
      → checked b ≢ ok tt
  unset-refused b d h agrees m unset valid =
      let (required, lacks, default) = is_unset-lacks b.set_params d unset in
      let missing =
        collect_params-missing (list_or b.action.params) b.params d.name
          (user_value-none b.params d.name (sym (h.noted d.name) ∙ lacks))
          (All-applied d _ agrees default) in
      let meets =
        All-Member (IsValid platform (collect_params (list_or b.action.params) b.params))
          (list_or b.action.params) (validate_params-IsValid platform _ _ valid) m in
      (rw missing at meets) required

  refused_by_action :
      (b : ActionRequestBuilder) (e : AnmlClientError)
      → IsBuilt b
      → All (AgreesWith (list_or b.action.params)) (list_or b.action.params)
      → (validate_required_params b >>= λ u. validate_param_values platform b) ≡ err e
      → (e' : AnmlClientError) × (checked b ≡ err e')
  unfolding validate_required_params validate_param_values
  refused_by_action b e h agree failed = elim (Result-cases (checked b)) [
    | inr refusal ↦ refusal
    | inl (tt, valid) ↦ elim (Result-cases (validate_required_params b)) [
      | inl (tt, set) ↦ ground (arith, (rw (set, valid) at failed))
      | inr (e', unset) ↦
          let (d, m, u) = required_loop-err b.set_params (list_or b.action.params) e' unset in
          absurd (
            unset-refused b d h
              (All-Member (AgreesWith (list_or b.action.params)) (list_or b.action.params) agree m)
              m u valid)
    ]
  ]

  prepare-refused :
      (ctx : ActionContext) (b : ActionRequestBuilder) (e : AnmlClientError)
      → IsBuilt b
      → checked b ≡ err e
      → (e' : AnmlClientError) × (prepare platform ctx b.doc b.action.id b.params ≡ err e')
  unfolding prepare
  prepare-refused ctx b e h failed =
      elim (Result-cases
        (resolve_endpoint platform b.action.endpoint ctx.document_origin ctx.xml_base)) [
          | inr (e', unresolved) ↦ (e', rw (h.found, unresolved) refl)
          | inl (endpoint, resolved) ↦ elim (Result-cases (check_ssrf platform endpoint)) [
            | inr (e', blocked) ↦ (e', rw (h.found, resolved, blocked) refl)
            | inl (tt, public) ↦ (e, rw (h.found, resolved, public, failed) refl)
          ]
        ]

  -- Nothing is sent and the state is kept.
  abbrev pub fails : ActionState → AnmlClientError → Executed
  fails s e = record { state = s; sent = []; outcome = err e }

  -- A builder that comes from `new` and the setters of parameters, of an action whose definitions of
  -- one name agree on whether there is no default, executes as `execute_action` does on its
  -- parameters; or both fail before anything is sent and leave the state, by errors that may differ.
  -- So the checks that the builder puts in front refuse nothing that the action would not refuse.
  pub execute-execute_action :
      (b : ActionRequestBuilder)
      → IsBuilt b
      → All (AgreesWith (list_or b.action.params)) (list_or b.action.params)
      → (ctx : ActionContext) (expires : Option ℕ) (s : ActionState)
      → (execute platform ctx expires b s
          ≡ execute_action platform ctx b.doc b.action.id b.params expires s)
        ⊎ ((e : AnmlClientError) × (e' : AnmlClientError) × (execute platform ctx expires b s
              ≡ fails s e)
            × (execute_action platform ctx b.doc b.action.id b.params expires s ≡ fails s e'))
  unfolding execute execute_action
  execute-execute_action b h agree ctx expires s =
      elim (Result-cases (validate_required_params b >>= λ u. validate_param_values platform b)) [
        | inl (tt, passed) ↦ inl (rw (passed, execute) refl)
        | inr (e, failed) ↦
            let (e', invalid) = refused_by_action b e h agree failed in
            let (e'', stopped) = prepare-refused ctx b e' h invalid in
            inr (e, e'', rw (failed, execute) refl, rw (stopped, execute_action) refl)
      ]
