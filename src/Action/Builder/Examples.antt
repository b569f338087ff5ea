-- ===== src/Action/Builder/Examples.antt =====
-- Witnesses for src/action/builder.rs.
use anml_client_rust.Common.{none, [], ◌≡◌, ◌⊎◌, refl, All, codes}
use anml_client_rust.Error.{AnmlClientError, ok}
use anml_client_rust.Action.Prepare.{find_action, list_or}
use anml_client_rust.Action.Execute.{execute_action}
use anml_client_rust.Action.Builder.{ActionRequestBuilder, new_builder, param, execute}
use anml_client_rust.Action.Builder.Agrees.{
  IsBuilt, param-IsBuilt, new_builder-IsBuilt, AgreesWith, fails, execute-execute_action,
}
use anml_client_rust.Action.Execute.Fixtures.{
  example_platform, buy, buy_document, buy_context, idle_state,
}

abbrev started : ActionRequestBuilder
started = record {
  doc = buy_document;
  action = buy;
  params = [];
  set_params = [];
  consent_basis = none;
}

started_new : new_builder buy_document (codes "buy") ≡ ok started
unfolding new_builder find_action
started_new = refl

-- The parameter that the action requires is set.
abbrev noted_builder : ActionRequestBuilder
noted_builder = param (codes "note") (codes "ok") started

noted_builder-IsBuilt : IsBuilt noted_builder
noted_builder-IsBuilt =
    param-IsBuilt (codes "note") (codes "ok") started
      (new_builder-IsBuilt buy_document (codes "buy") started started_new)

noted_agrees :
    All (AgreesWith (list_or noted_builder.action.params)) (list_or noted_builder.action.params)
unfolding param
noted_agrees = ((λ same missing. missing, tt), tt)

execute-execute_action_example :
    (execute example_platform buy_context none noted_builder idle_state
      ≡ execute_action example_platform buy_context noted_builder.doc noted_builder.action.id
          noted_builder.params none idle_state)
    ⊎ ((e : AnmlClientError) × (e' : AnmlClientError) × (execute example_platform buy_context none
            noted_builder idle_state
          ≡ fails example_platform idle_state e)
        × (execute_action example_platform buy_context noted_builder.doc noted_builder.action.id
              noted_builder.params none idle_state
            ≡ fails example_platform idle_state e'))
execute-execute_action_example =
    execute-execute_action example_platform noted_builder noted_builder-IsBuilt noted_agrees
      buy_context none idle_state
