-- ===== src/Flow/Update.antt =====
-- `update_state_from_document` of src/flow/mod.rs: the statuses that a response carries.
use anml_client_rust.Common.{Option, none, some, List, [], ◌∷◌, if◌then◌else◌, Text, text_eq, codes}
use anml_client_rust.Document.{
  StepStatus, pending, current, completed, skipped, AnmlStep, AnmlDocument,
}
use anml_client_rust.Error.{AnmlClientError, unexpected_state_regression, Result, ok, err, ◌>>=◌}
use anml_client_rust.Flow.{StepInfo, FlowNavigator, detect_regression, unwrap_or}

abbrev pub status_text : StepStatus → Text
status_text pending = codes "pending"
status_text current = codes "current"
status_text completed = codes "completed"
status_text skipped = codes "skipped"

-- One round of the loop of `update_state_from_document`: the first step with the id is updated,
-- unless its status regresses.
unfoldable pub update_step : AnmlStep → List StepInfo → Result (List StepInfo)
unfolding detect_regression
update_step new [] = ok []
update_step new (s ∷ steps) =
    let rest = update_step new steps in
    let new_status = unwrap_or new.status pending in
    if text_eq s.id new.id
    then if detect_regression s.status new_status
      then err (unexpected_state_regression s.id (status_text s.status) (status_text new_status))
      else ok (record s { status = new_status } ∷ steps)
    else rest >>= λ steps'. ok (s ∷ steps')

-- The loop: the steps as they stand when it ends, and the error that ended it early, if any.
unfoldable pub update_steps : List AnmlStep → List StepInfo → List StepInfo × Option AnmlClientError
update_steps [] steps = (steps, none)
update_steps (new ∷ news) steps = elim (update_step new steps) [
  | ok steps' ↦ update_steps news steps'
  | err e ↦ (steps, some e)
]

abbrev pub flow_steps : AnmlDocument → List AnmlStep
flow_steps doc = elim doc.state [
  | none ↦ []
  | some s ↦ elim s.flow [ none ↦ [] | some f ↦ f.steps ]
]

unfoldable pub update_state_from_document :
    AnmlDocument → FlowNavigator → FlowNavigator × Option AnmlClientError
update_state_from_document doc nav =
    let (steps, e) = update_steps (flow_steps doc) nav.steps in (record nav { steps = steps }, e)
