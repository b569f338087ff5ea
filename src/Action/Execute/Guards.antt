-- ===== src/Action/Execute/Guards.antt =====
-- What stands before a request of `execute_action` of src/action/mod.rs.
use anml_client_rust.Common.{
  ℕ, zero, suc, Option, none, some, List, [], ◌∷◌, ◌≡◌, ◌≢◌, inl, inr, refl, sym, ap, All-map,
  subst, Text, All, take,
}
use anml_client_rust.Document.{AnmlDocument}
use anml_client_rust.Error.{ok, Result-cases}
use anml_client_rust.Action.Budget.{check_and_record}
use anml_client_rust.Action.Send.{HttpRequest, Call, built_request, execute_http_request}
use anml_client_rust.Action.Send.Attempts.{execute_http_request-Sends}
use anml_client_rust.Action.Prepare.{
  Platform, ActionContext, endpoint_origin, check_confirmed, Prepared, prepare,
}
use anml_client_rust.Action.Prepare.Passed.{
  Confirmed, check_confirmed-Confirmed, Cleared, prepare-Cleared,
}
use anml_client_rust.Action.Execute.{ActionState, call_of, exchange, perform, execute_action}

module _ (platform : Platform) where
  -- A request of the action, whatever its credentials.
  abbrev pub IsOf : Call → HttpRequest → Type 0
  IsOf call r = (creds : List (Text × Text)) × (r ≡ built_request platform.net call creds)

  sent-IsOf : (call : Call) → All (IsOf call) (execute_http_request platform.net call).0
  sent-IsOf call = elim (execute_http_request-Sends platform.net call) [
    | inl (e, u) ↦ subst (λ run. All (IsOf call) run.0) (sym e) tt
    | inr (inl (creds, e, h)) ↦ subst (λ rs. All (IsOf call) rs) (sym e) ((creds, refl), tt)
    | inr (inr (creds, creds', response, e, x, renewed)) ↦
        subst (λ rs. All (IsOf call) rs) (sym e) ((creds, refl), ((creds', refl), tt))
  ]

  All-take :
      (call : Call) (n : ℕ) (rs : List HttpRequest)
      → All (IsOf call) rs
      → All (IsOf call) (take n rs)
  All-take call zero rs h = tt
  All-take call (suc n) [] h = tt
  All-take call (suc n) (r ∷ rs) (h, hs) = (h, All-take call n rs hs)

  pub exchange-IsOf :
      (ctx : ActionContext) (doc : AnmlDocument) (p : Prepared) (expires : Option ℕ)
      → All (IsOf (call_of platform ctx doc p)) (exchange platform ctx doc p expires).0
  unfolding exchange
  exchange-IsOf ctx doc p none = sent-IsOf (call_of platform ctx doc p)
  exchange-IsOf ctx doc p (some n) =
      All-take (call_of platform ctx doc p) n _ (sent-IsOf (call_of platform ctx doc p))

  built_request-url :
      (ctx : ActionContext) (doc : AnmlDocument) (p : Prepared) (r : HttpRequest)
      → IsOf (call_of platform ctx doc p) r
      → IsOf (call_of platform ctx doc p) r × (r.url ≡ p.endpoint)
  unfolding built_request call_of
  built_request-url ctx doc p r (creds, e) = ((creds, e), ap (λ x. x.url) e)

  exchange-goes_to :
      (ctx : ActionContext) (doc : AnmlDocument) (p : Prepared) (expires : Option ℕ)
      → All
          (λ r. IsOf (call_of platform ctx doc p) r × (r.url ≡ p.endpoint))
          (exchange platform ctx doc p expires).0
  exchange-goes_to ctx doc p expires =
      All-map _ _ _ (built_request-url ctx doc p) (exchange-IsOf ctx doc p expires)

  -- The state of the budget behind the action, and that it was not exhausted.
  abbrev pub Budgeted : Prepared → ActionState → ActionState → Type 0
  Budgeted p s s' =
      check_and_record (endpoint_origin platform p.endpoint) s.budget_tracker
      ≡ (s'.budget_tracker, ok tt)

  -- A request is sent only for an action that the document declares, which is the first with the
  -- id; to an endpoint whose host is an address that is not private, or a name that does not resolve
  -- or resolves only to such addresses; with parameters that meet their definitions; with the
  -- principal's confirmation, where the action asks for one; and within the budget, which counts the
  -- execution. Every request is that action's, and goes to that endpoint.
  pub execute_action-Cleared :
      (ctx : ActionContext) (doc : AnmlDocument) (action_id : Text)
      (user_params : List (Text × Text)) (expires : Option ℕ) (s : ActionState)
      → (execute_action platform ctx doc action_id user_params expires s).sent ≢ []
      → (p : Prepared) × Cleared platform ctx doc action_id user_params p
        × Confirmed ctx p.action p.endpoint
        × Budgeted p s (execute_action platform ctx doc action_id user_params expires s).state
        × All
            (λ r. IsOf (call_of platform ctx doc p) r × (r.url ≡ p.endpoint))
            (execute_action platform ctx doc action_id user_params expires s).sent
  unfolding execute_action perform
  execute_action-Cleared ctx doc action_id user_params expires s h =
      elim (Result-cases (prepare platform ctx doc action_id user_params)) [
        | inr (e, failed) ↦ absurd (h (rw (failed, execute_action) refl))
        | inl (p, prepared) ↦
            elim (Result-cases (check_confirmed ctx action_id p.action p.endpoint)) [
              | inr (e, failed) ↦ absurd (h (rw (prepared, execute_action, perform, failed) refl))
              | inl (tt, confirmed) ↦
                  elim (Result-cases
                    (check_and_record (endpoint_origin platform p.endpoint) s.budget_tracker).1) [
                      | inr (e, failed) ↦
                          absurd
                            (h (rw (prepared, execute_action, perform, confirmed, failed) refl))
                      | inl (tt, admitted) ↦ (
                        p,
                        prepare-Cleared platform ctx doc action_id user_params p prepared,
                        check_confirmed-Confirmed ctx action_id p.action p.endpoint confirmed,
                        rw (prepared, execute_action, perform, confirmed, admitted) refl,
                        rw (prepared, execute_action, perform, confirmed, admitted)
                            (exchange-goes_to ctx doc p expires),
                      )
                    ]
            ]
      ]
