-- ===== src/Flow/Advance.antt =====
-- `advance` and `handle_step_error` of src/flow/mod.rs, and the setters and snapshots of the navigator.
-- The executor is the caller's callback, a function of the number of the call (with the user's
-- parameters inside). Time passes in a call and in a sleep, which may last longer than asked.
use anml_client_rust.Common.{
  ℕ, zero, suc, ◌+◌, ◌/◌, true, false, none, some, List, [], ◌∷◌, ltb, if◌then◌else◌, get_elem?,
  set, position, Text, codes, text_eq,
}
use anml_client_rust.Document.{AnmlDocument, current, completed, skipped}
use anml_client_rust.Config.{from_secs}
use anml_client_rust.Error.{flow_aborted, Result, ok, err}
use anml_client_rust.Flow.{
  StepInfo, HistoryEntry, FlowNavigator, Evaluator, Ending, returns, panics, unfinished, unwrap_or,
  has_id, backoff_delay, remaining_ttl, timed_out, step_name, current_step, record_history,
  evaluate_condition, set_status, advance_to_next_step,
}
use anml_client_rust.Flow.Update.{update_state_from_document}

pub record World : Type 0 where
  pub evaluator : Evaluator
  -- the outcome of the call with this number, on the document and the action's id
  pub execute : ℕ → AnmlDocument → Text → Result AnmlDocument
  -- how long that call takes, and how much the sleep before it exceeds the delay
  pub took : ℕ → ℕ
  pub overslept : ℕ → ℕ
  -- the bound on the recursion of `advance_to_next_step`
  pub fuel : ℕ

abbrev pub and_return : {A : Type 0} → A → Ending (Unit {0}) → Ending A
and_return a (returns (ok u)) = returns (ok a)
and_return a (returns (err e)) = returns (err e)
and_return a panics = panics
and_return a unfinished = unfinished

-- The `Ok` arm that `advance` and `handle_step_error` share.
unfoldable pub complete_step :
    World → ℕ → ℕ → AnmlDocument → FlowNavigator → FlowNavigator × Ending AnmlDocument
complete_step w now idx next_doc nav =
    let (nav', e) =
      update_state_from_document next_doc
        (record nav { steps = set_status idx completed nav.steps }) in
    elim e [
      | some x ↦ (nav', returns (err x))
      | none ↦
          let (nav'', r) =
            advance_to_next_step w.evaluator now w.fuel (record nav' { document = next_doc }) in
          (nav'', and_return next_doc r)
    ]

-- The end of `handle_step_error`: `next-on-error`, or the abort.
unfoldable pub fall_back : ℕ → ℕ → StepInfo → FlowNavigator → FlowNavigator × Ending AnmlDocument
unfolding record_history
fall_back now idx step nav = elim step.next_on_error [
  | none ↦ (nav, returns (err (flow_aborted step.id)))
  | some error_step_id ↦ elim (position (has_id error_step_id) nav.steps) [
    | none ↦ (nav, returns (err (flow_aborted step.id)))
    | some error_idx ↦ (
      record_history now (record nav {
        current_index = error_idx;
        steps = set_status error_idx current (set_status idx skipped nav.steps);
      }),
      returns (ok nav.document),
    )
  ]
]

unfoldable pub handle_step_error :
    World → ℕ → ℕ → ℕ → ℕ → FlowNavigator → FlowNavigator × Ending AnmlDocument
unfolding timed_out current_step
handle_step_error w zero k now idx nav = (nav, unfinished)
handle_step_error w (suc fuel) k now idx nav = elim (get_elem? nav.steps idx) [
  | none ↦ (nav, panics)
  | some step ↦ elim (get_elem? nav.retry_states idx) [
    | none ↦ (nav, panics)
    | some attempts ↦ elim (ltb attempts step.retry_budget) [
      | false ↦ fall_back now idx step nav
      | true ↦
          let nav' = record nav { retry_states = set nav.retry_states idx (suc attempts) } in
          let awake : ℕ =
            now + backoff_delay (suc attempts) (remaining_ttl now nav') + w.overslept k in
          elim (timed_out awake nav') [
            | true ↦ (nav', returns (err (flow_aborted (step_name (current_step nav')))))
            | false ↦ elim (w.execute k nav'.document (unwrap_or step.action [])) [
              | ok next_doc ↦ complete_step w (awake + w.took k) idx next_doc nav'
              | err e ↦ handle_step_error w fuel (suc k) (awake + w.took k) idx nav'
            ]
          ]
    ]
  ]
]

unfoldable pub advance : World → ℕ → FlowNavigator → FlowNavigator × Ending AnmlDocument
unfolding timed_out current_step evaluate_condition
advance w now nav = elim (timed_out now nav) [
  | true ↦ (nav, returns (err (flow_aborted (step_name (current_step nav)))))
  | false ↦ elim (get_elem? nav.steps nav.current_index) [
    | none ↦ (nav, returns (err (flow_aborted (codes "unknown"))))
    | some step ↦ elim (evaluate_condition step w.evaluator) [
      | false ↦
          let (nav', r) =
            advance_to_next_step w.evaluator now w.fuel
              (record nav { steps = set_status nav.current_index skipped nav.steps }) in
          (nav', and_return nav'.document r)
      | true ↦ elim step.action [
        | none ↦ (nav, returns (err (flow_aborted step.id)))
        | some action_id ↦ elim (w.execute 0 nav.document action_id) [
          | ok next_doc ↦ complete_step w (now + w.took 0) nav.current_index next_doc nav
          | err e ↦
              handle_step_error w (suc step.retry_budget) 1 (now + w.took 0) nav.current_index nav
        ]
      ]
    ]
  ]
]

-- The first step with the id, changed.
abbrev pub alter_first : Text → (StepInfo → StepInfo) → List StepInfo → List StepInfo
alter_first i f [] = []
alter_first i f (s ∷ steps) = if text_eq s.id i then f s ∷ steps else s ∷ alter_first i f steps

unfoldable pub set_next_on_error : Text → Text → FlowNavigator → FlowNavigator
set_next_on_error step_id error_step_id nav = record nav {
  steps = alter_first step_id (λ s. record s { next_on_error = some error_step_id }) nav.steps;
}

unfoldable pub set_retry_budget : Text → ℕ → FlowNavigator → FlowNavigator
set_retry_budget step_id budget nav = record nav {
  steps = alter_first step_id (λ s. record s { retry_budget = budget }) nav.steps;
}

pub record FlowNavigatorSnapshot : Type 0 where
  pub steps : List StepInfo
  pub current_index : ℕ
  pub history : List HistoryEntry
  pub flow_timeout_secs : ℕ

unfoldable pub to_snapshot : FlowNavigator → FlowNavigatorSnapshot
to_snapshot nav = record {
  steps = nav.steps;
  current_index = nav.current_index;
  history = nav.history;
  flow_timeout_secs = nav.flow_timeout / 1_000_000_000;
}

-- `retry_states` is a vector of no elements.
unfoldable pub from_snapshot : ℕ → FlowNavigatorSnapshot → AnmlDocument → FlowNavigator
from_snapshot now snapshot doc = record {
  steps = snapshot.steps;
  current_index = snapshot.current_index;
  history = snapshot.history;
  document = doc;
  retry_states = [];
  created_at = now;
  flow_timeout = from_secs snapshot.flow_timeout_secs;
}
