-- ===== src/Flow/Examples.antt =====
-- Witnesses for src/flow/mod.rs.
use anml_client_rust.Common.{
  ℕ, zero, suc, ◌+◌, true, false, Option, none, some, [], ◌∷◌, ◌++◌, map, ◌≡◌, refl, ◌≢◌, ◌⊎◌, All,
  Text, codes, arith,
}
use anml_client_rust.Document.{pending, AnmlStep, AnmlDocument, empty_document}
use anml_client_rust.Error.{malformed_document, Result, ok, err}
use anml_client_rust.Config.{from_secs}
use anml_client_rust.Flow.{
  StepInfo, FlowNavigator, Evaluator, returns, panics, unfinished, from_anml_step,
  from_document_with_timeout, evaluate_condition, next_index, advance_to_next_step, timed_out,
}
use anml_client_rust.Flow.Start.{StartsAt}
use anml_client_rust.Flow.Update.{flow_steps}
use anml_client_rust.Flow.Advance.{World, advance, to_snapshot, from_snapshot}
use anml_client_rust.Flow.Invariant.{IsValid}
use anml_client_rust.Flow.Safety.{advance-Safe}
use anml_client_rust.Flow.Returns.{advance-Returns}
use anml_client_rust.Flow.Progress.{settle, settled_at, advance_to_next_step-settle}
use anml_client_rust.Flow.Cycle.{Trap, advance_to_next_step-cycle}
use anml_client_rust.Flow.Documents.{from_document-IsValid, flow_context, from_snapshot-panics}

abbrev anml_step : Text → AnmlStep
anml_step i = record {
  id = i;
  label = none;
  status = none;
  required = none;
  next = none;
  condition = none;
  action = some (codes "submit");
}

abbrev two_steps : AnmlDocument
two_steps = record empty_document {
  state = some (record {
    flow = some (record { steps = anml_step (codes "cart") ∷ anml_step (codes "pay") ∷ [] });
    context = none;
  });
}

abbrev step : Text → Option Text → StepInfo
step i condition = record {
  id = i;
  label = none;
  status = pending;
  required = false;
  next = none;
  condition = condition;
  action = some (codes "submit");
  next_on_error = none;
  retry_budget = 2;
}

-- Three steps, of which the second is never available.
abbrev shop_flow : FlowNavigator
shop_flow = record {
  steps =
      step (codes "cart") none
      ∷ step (codes "gift") (some (codes "gift"))
      ∷ step (codes "pay") none
      ∷ [];
  current_index = 0;
  history = [];
  document = empty_document;
  retry_states = 0 ∷ 0 ∷ 0 ∷ [];
  created_at = 0;
  flow_timeout = from_secs 300;
}

abbrev never : Evaluator
never = some (λ c i. false)

-- A world in which every call fails after a second.
abbrev failing : World
failing = record {
  evaluator = never;
  execute = λ k doc a. err malformed_document;
  took = λ k. from_secs 1;
  overslept = λ k. 0;
  fuel = 3;
}

shop_flow-IsValid : IsValid shop_flow
shop_flow-IsValid = record {
  in_range = omega arith;
  budgets = (omega arith, (omega arith, (omega arith, tt)));
}

advance-Safe_example :
    IsValid (advance failing 5 shop_flow).0 × ((advance failing 5 shop_flow).1 ≢ panics)
advance-Safe_example = advance-Safe failing 5 shop_flow shop_flow-IsValid

advance-Returns_example : (r : Result AnmlDocument) × ((advance failing 5 shop_flow).1 ≡ returns r)
advance-Returns_example =
    advance-Returns failing 5 shop_flow shop_flow-IsValid (refl, (refl, (refl, tt))) (omega arith)

advance_to_next_step-settle_example :
    ((advance_to_next_step never 5 3 shop_flow).1 ≡ returns (ok tt))
    × ((advance_to_next_step never 5 3 shop_flow).0.steps
        ≡ []
          ++ (step (codes "cart") none
              ∷ settle never
                  (step (codes "gift") (some (codes "gift")) ∷ step (codes "pay") none ∷ [])))
    × ((advance_to_next_step never 5 3 shop_flow).0.current_index
        ≡ 0
          + settled_at never
              (step (codes "gift") (some (codes "gift")) ∷ step (codes "pay") none ∷ []))
advance_to_next_step-settle_example =
    advance_to_next_step-settle never 5 3 shop_flow [] (step (codes "cart") none)
      (step (codes "gift") (some (codes "gift")) ∷ step (codes "pay") none ∷ [])
      (record { steps = refl; index = refl }) (refl, (refl, (refl, tt))) (omega arith)

-- Two steps that name each other as the next, neither of them ever available.
abbrev loop_step : Text → Text → StepInfo
loop_step i j = record (step i (some (codes "no"))) { next = some j }

abbrev circle : FlowNavigator
circle = record shop_flow {
  steps = loop_step (codes "a") (codes "b") ∷ loop_step (codes "b") (codes "a") ∷ [];
  retry_states = 0 ∷ 0 ∷ [];
}

abbrev Two : ℕ → Type 0
Two zero = Unit
Two (suc zero) = Unit
Two (suc (suc i)) = ⊥

circle-Trap : Trap never Two circle.steps
unfolding next_index evaluate_condition
circle-Trap zero m = (
  loop_step (codes "a") (codes "b"),
  1,
  loop_step (codes "b") (codes "a"),
  refl,
  refl,
  refl,
  refl,
  tt,
)
circle-Trap (suc zero) m = (
  loop_step (codes "b") (codes "a"),
  0,
  loop_step (codes "a") (codes "b"),
  refl,
  refl,
  refl,
  refl,
  tt,
)
circle-Trap (suc (suc i)) m = absurd m

advance_to_next_step-cycle_example : (advance_to_next_step never 5 100 circle).1 ≡ unfinished
advance_to_next_step-cycle_example =
    advance_to_next_step-cycle never Two 5 100 circle circle-Trap tt

from_document-IsValid_example :
    ((flow_steps two_steps ≡ [])
      × (from_document_with_timeout 5 two_steps (from_secs 300) ≡ err malformed_document))
    ⊎ ((nav : FlowNavigator) × (from_document_with_timeout 5 two_steps (from_secs 300) ≡ ok nav)
        × IsValid nav
        × (nav.steps ≡ map from_anml_step (flow_steps two_steps))
        × StartsAt
            (map from_anml_step (flow_steps two_steps))
            (flow_context two_steps)
            nav.current_index
        × All (λ a. a ≡ 0) nav.retry_states)
from_document-IsValid_example = from_document-IsValid 5 (from_secs 300) two_steps

restored_in_time : timed_out 9 (from_snapshot 7 (to_snapshot shop_flow) empty_document) ≡ false
unfolding timed_out from_snapshot to_snapshot
restored_in_time = refl

first_available : evaluate_condition (step (codes "cart") none) never ≡ true
unfolding evaluate_condition
first_available = refl

from_snapshot-panics_example :
    (advance failing 9 (from_snapshot 7 (to_snapshot shop_flow) empty_document)).1 ≡ panics
from_snapshot-panics_example =
    from_snapshot-panics failing 9 7 shop_flow empty_document (step (codes "cart") none)
      (codes "submit") malformed_document restored_in_time refl first_available refl refl
