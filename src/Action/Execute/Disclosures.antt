-- ===== src/Action/Execute/Disclosures.antt =====
-- What `execute_action` of src/action/mod.rs makes of the disclosure rules.
use anml_client_rust.Common.{ℕ, Option, ◌≡◌, refl, inl, inr, Text, List}
use anml_client_rust.Document.{AnmlDocument}
use anml_client_rust.Error.{Result-cases}
use anml_client_rust.Action.Budget.{check_and_record}
use anml_client_rust.Disclosure.Evaluate.{DisclosureContext, Stores}
use anml_client_rust.Action.Prepare.{
  Platform, ActionContext, Prepared, check_confirmed, endpoint_origin, prepare,
}
use anml_client_rust.Action.Execute.{ActionState, Executed, exchange, perform, execute_action}

-- The same requests, result and budget.
abbrev pub SameExchange : Executed → Executed → Type 0
SameExchange a b =
    (a.sent ≡ b.sent) × (a.outcome ≡ b.outcome) × (a.state.budget_tracker ≡ b.state.budget_tracker)

module _ (platform : Platform) where
  perform-SameExchange :
      (ctx : ActionContext) (other_ctx : Option DisclosureContext) (doc : AnmlDocument)
      (action_id : Text) (p : Prepared) (expires : Option ℕ) (s : ActionState)
      (stores stores' : Stores)
      → SameExchange (perform platform ctx doc action_id p expires (record s { stores = stores })) (
          perform platform
            (record ctx { disclosure_ctx = other_ctx })
            doc
            action_id
            p
            expires
            (record s { stores = stores' }))
  unfolding perform exchange check_confirmed
  perform-SameExchange ctx other_ctx doc action_id p expires s stores stores' =
      elim (Result-cases (check_confirmed ctx action_id p.action p.endpoint)) [
        | inr (e, failed) ↦ rw (failed, perform) (refl, refl, refl)
        | inl (tt, confirmed) ↦
            elim (Result-cases
              (check_and_record (endpoint_origin platform p.endpoint) s.budget_tracker).1) [
                | inr (e, failed) ↦ rw (confirmed, failed, perform) (refl, refl, refl)
                | inl (tt, admitted) ↦ rw (confirmed, admitted, perform) (refl, refl, refl)
              ]
      ]

  -- The disclosure rules have no say in whether an action is sent: with any other disclosure
  -- context, or none, an execution sends the same requests, with the same values, has the same
  -- result and leaves the same budget.
  pub execute_action-disclosure_ctx :
      (ctx : ActionContext) (other_ctx : Option DisclosureContext) (doc : AnmlDocument)
      (action_id : Text) (user_params : List (Text × Text)) (expires : Option ℕ) (s : ActionState)
      → SameExchange (execute_action platform ctx doc action_id user_params expires s) (
          execute_action platform
            (record ctx { disclosure_ctx = other_ctx })
            doc
            action_id
            user_params
            expires
            s)
  unfolding execute_action prepare
  execute_action-disclosure_ctx ctx other_ctx doc action_id user_params expires s =
      elim (Result-cases (prepare platform ctx doc action_id user_params)) [
        | inr (e, failed) ↦ rw (failed, execute_action) (refl, refl, refl)
        | inl (p, prepared) ↦
            rw (prepared, execute_action)
              (perform-SameExchange ctx other_ctx doc action_id p expires s _ _)
      ]
