-- ===== src/Flow.antt =====
-- src/flow/mod.rs: the navigator of a multi-step flow. `&mut self` is state passing; an index out of
-- range panics. Instants and durations are nanoseconds. The recursion of `advance_to_next_step` has
-- no bound of its own, so it runs on fuel, and `unfinished` means that the fuel ran out.
mod Examples
pub mod Start
pub mod Update
pub mod Display
pub mod Plain
pub mod Advance
pub mod Steps
pub mod Retry
pub mod Progress
pub mod Invariant
pub mod Safety
pub mod Returns
pub mod Cycle
pub mod Documents
use anml_client_rust.Common.{
  ℕ, zero, suc, ◌+◌, ◌-◌, ◌*◌, ◌^◌, min, Bool, true, false, ◌&&◌, ◌||◌, not, Option, none, some,
  List, [], ◌∷◌, ◌++◌, map, ◌==◌, ltb, leb, if◌then◌else◌, length, get_elem?, set, position, all,
  retain, replicate, is_empty, Text, text_eq, codes,
}
use anml_client_rust.Document.{
  StepStatus, pending, current, completed, skipped, AnmlStep, AnmlFlow, AnmlContext, AnmlState,
  AnmlDocument,
}
use anml_client_rust.Config.{from_secs, from_millis}
use anml_client_rust.Error.{
  AnmlClientError, malformed_document, flow_aborted, unexpected_state_regression, Result, ok, err,
  ◌>>=◌, ok_or,
}

pub record StepInfo : Type 0 where
  pub id : Text
  pub label : Option Text
  pub status : StepStatus
  pub required : Bool
  pub next : Option Text
  pub condition : Option Text
  pub action : Option Text
  pub next_on_error : Option Text
  pub retry_budget : ℕ

abbrev pub unwrap_or {ℓ} : {A : Type ℓ} → Option A → A → A
unwrap_or none d = d
unwrap_or (some a) d = a

unfoldable pub from_anml_step : AnmlStep → StepInfo
from_anml_step s = record {
  id = s.id;
  label = s.label;
  status = unwrap_or s.status pending;
  required = unwrap_or s.required false;
  next = s.next;
  condition = s.condition;
  action = s.action;
  next_on_error = none;
  retry_budget = 0;
}

pub record HistoryEntry : Type 0 where
  pub step_id : Text
  pub status : StepStatus
  pub timestamp : Option ℕ

abbrev pub u64_max : ℕ
u64_max = 2 ^ 64 - 1

-- `RetryState::backoff_delay`
unfoldable pub backoff_delay : ℕ → Option ℕ → ℕ
backoff_delay attempts remaining_ttl =
    let delay_ms : ℕ = min (1000 * min (2 ^ attempts) u64_max) u64_max in
    let delay : ℕ = min (from_millis delay_ms) (from_secs 60) in
    elim remaining_ttl [ some ttl ↦ min delay ttl | none ↦ delay ]

-- `retry_states` holds the attempts of each step.
pub record FlowNavigator : Type 0 where
  pub steps : List StepInfo
  pub current_index : ℕ
  pub history : List HistoryEntry
  pub document : AnmlDocument
  pub retry_states : List ℕ
  pub created_at : ℕ
  pub flow_timeout : ℕ

-- The derived equality of `StepStatus`.
abbrev pub status_eq : StepStatus → StepStatus → Bool
status_eq pending pending = true
status_eq current current = true
status_eq completed completed = true
status_eq skipped skipped = true
status_eq _ _ = false

abbrev pub has_id : Text → StepInfo → Bool
has_id i s = text_eq s.id i

abbrev pub first_pending : List StepInfo → ℕ
first_pending steps = unwrap_or (position (λ s. status_eq s.status pending) steps) 0

unfoldable pub resolve_current_index : List StepInfo → Option AnmlContext → ℕ
resolve_current_index steps context = elim (position (λ s. status_eq s.status current) steps) [
  | some i ↦ i
  | none ↦ elim context [
    | none ↦ first_pending steps
    | some ctx ↦ unwrap_or (position (has_id ctx.step) steps) (first_pending steps)
  ]
]

unfoldable pub record_history : ℕ → FlowNavigator → FlowNavigator
record_history now nav = elim (get_elem? nav.steps nav.current_index) [
  | none ↦ nav
  | some step ↦ record nav {
    history =
        nav.history
        ++ (record { step_id = step.id; status = step.status; timestamp = some now } ∷ []);
  }
]

unfoldable pub from_document_with_timeout : ℕ → AnmlDocument → ℕ → Result FlowNavigator
unfolding from_anml_step
from_document_with_timeout now doc flow_timeout = do
  state ← ok_or doc.state malformed_document
  flow ← ok_or state.flow malformed_document
  let steps = map from_anml_step flow.steps
  if is_empty flow.steps
      then err malformed_document
      else ok (
          record_history now (record {
            steps = steps;
            current_index = resolve_current_index steps state.context;
            history = [];
            document = doc;
            retry_states = replicate (length steps) 0;
            created_at = now;
            flow_timeout = flow_timeout;
          }))

unfoldable pub from_document : ℕ → AnmlDocument → Result FlowNavigator
unfolding from_document_with_timeout
from_document now doc = from_document_with_timeout now doc (from_secs 300)

unfoldable pub current_step : FlowNavigator → Option StepInfo
current_step nav = get_elem? nav.steps nav.current_index

unfoldable pub pending_steps : FlowNavigator → List StepInfo
pending_steps nav = retain (λ s. status_eq s.status pending) nav.steps

unfoldable pub completed_steps : FlowNavigator → List StepInfo
completed_steps nav = retain (λ s. status_eq s.status completed) nav.steps

unfoldable pub is_complete : FlowNavigator → Bool
is_complete nav = all (λ s. status_eq s.status completed || status_eq s.status skipped) nav.steps

-- `check_flow_timeout`: the error, if the time is over.
unfoldable pub timed_out : ℕ → FlowNavigator → Bool
timed_out now nav = leb nav.flow_timeout (now - nav.created_at)

abbrev pub step_name : Option StepInfo → Text
step_name none = codes "unknown"
step_name (some s) = s.id

unfoldable pub remaining_ttl : ℕ → FlowNavigator → Option ℕ
remaining_ttl now nav =
    if ltb nav.flow_timeout (now - nav.created_at)
    then none
    else some (nav.flow_timeout - (now - nav.created_at))

unfoldable pub detect_regression : StepStatus → StepStatus → Bool
detect_regression completed current = true
detect_regression completed pending = true
detect_regression current pending = true
detect_regression _ _ = false

-- `ConditionEvaluator::evaluate`, a function of the condition and the step's id.
abbrev pub Evaluator : Type 0
Evaluator = Option (Text → Text → Bool)

unfoldable pub evaluate_condition : StepInfo → Evaluator → Bool
evaluate_condition step ev = elim step.condition [
  | none ↦ true
  | some c ↦ elim ev [ none ↦ true | some e ↦ e c step.id ]
]

-- `steps[i].status = st`, at an index in range.
abbrev pub set_status : ℕ → StepStatus → List StepInfo → List StepInfo
set_status i st [] = []
set_status zero st (s ∷ steps) = record s { status = st } ∷ steps
set_status (suc i) st (s ∷ steps) = s ∷ set_status i st steps

-- How a method ends.
pub data Ending (A : Type 0) : Type 0 where
  returns : Result A → Ending A
  panics : Ending A
  unfinished : Ending A

-- The explicit `next`, or the step behind the current one.
unfoldable pub next_index : List StepInfo → ℕ → StepInfo → Option ℕ
next_index steps i step = elim step.next [
  | some next_id ↦ position (has_id next_id) steps
  | none ↦ if ltb (suc i) (length steps) then some (suc i) else none
]

-- The navigator when the step at index `i` is entered, or passed over.
unfoldable pub enter : ℕ → ℕ → FlowNavigator → FlowNavigator
unfolding record_history
enter now i nav =
    record_history now (record nav { current_index = i; steps = set_status i current nav.steps })

unfoldable pub pass_over : ℕ → FlowNavigator → FlowNavigator
pass_over i nav = record nav { current_index = i; steps = set_status i skipped nav.steps }

unfoldable pub advance_to_next_step :
    Evaluator → ℕ → ℕ → FlowNavigator → FlowNavigator × Ending (Unit {0})
advance_to_next_step ev now zero nav = (nav, unfinished)
advance_to_next_step ev now (suc fuel) nav = elim (get_elem? nav.steps nav.current_index) [
  | none ↦ (nav, panics)
  | some step ↦ elim (next_index nav.steps nav.current_index step) [
    | none ↦ (nav, returns (ok tt))
    | some i ↦ elim (get_elem? nav.steps i) [
      | none ↦ (nav, panics)
      | some candidate ↦ elim (evaluate_condition candidate ev) [
        | true ↦ (enter now i nav, returns (ok tt))
        | false ↦ advance_to_next_step ev now fuel (pass_over i nav)
      ]
    ]
  ]
]
