-- ===== src/Flow/Safety.antt =====
-- Every method of src/flow/mod.rs keeps the invariant of the navigator and indexes in range.
use anml_client_rust.Common.{
  ℕ, zero, suc, ◌+◌, ◌<◌, Option, none, some, List, [], ◌∷◌, ◌≡◌, refl, ◌≢◌, inl, inr, Text, arith,
  get_elem?, set, length, position, position_from_lt, length-set, Option-cases, Bool-cases, ltb,
  if◌then◌else◌,
}
use anml_client_rust.Document.{StepStatus, current, completed, skipped, AnmlDocument}
use anml_client_rust.Error.{ok, err, Result-cases}
use anml_client_rust.Flow.{
  StepInfo, FlowNavigator, Evaluator, Ending, returns, panics, unfinished, unwrap_or, has_id,
  evaluate_condition, set_status, next_index, enter, pass_over, record_history,
  advance_to_next_step, timed_out, backoff_delay, remaining_ttl,
}
use anml_client_rust.Flow.Update.{update_steps, update_state_from_document, flow_steps}
use anml_client_rust.Flow.Advance.{
  World, and_return, complete_step, fall_back, handle_step_error, advance,
}
use anml_client_rust.Flow.Invariant.{
  Budgets, IsValid, Safe, length_of_Budgets, Budgets-set_status, Budgets-set, update_steps-Budgets,
}
use anml_client_rust.Flow.Steps.{length-set_status}

abbrev pub in_list {ℓ} :
    {A : Type ℓ} (xs : List A) (i : ℕ) → i < length xs → (x : A) × (get_elem? xs i ≡ some x)
in_list [] i h = elim h [ ]
in_list (x ∷ xs) zero h = (x, refl)
in_list (x ∷ xs) (suc i) h = in_list xs i (omega arith)

pub record_history-IsValid :
    (now : ℕ) (nav : FlowNavigator) → IsValid nav → IsValid (record_history now nav)
unfolding record_history
record_history-IsValid now nav v = elim (Option-cases (get_elem? nav.steps nav.current_index)) [
  | inl out ↦ rw (out, record_history) v
  | inr (s, at) ↦ rw (at, record_history) (record { in_range = v.in_range; budgets = v.budgets })
]

-- The steps of a valid navigator with one status changed, at an index in range.
moved :
    (i k : ℕ) (st : StepStatus) (nav : FlowNavigator)
    → IsValid nav
    → i < length nav.steps
    → IsValid (record nav { current_index = i; steps = set_status k st nav.steps })
moved i k st nav v h = record {
  in_range = omega (arith, length_of_Budgets nav.steps nav.retry_states v.budgets);
  budgets = Budgets-set_status k st nav.steps nav.retry_states v.budgets;
}

next_index-lt :
    (steps : List StepInfo) (i : ℕ) (s : StepInfo) (j : ℕ)
    → next_index steps i s ≡ some j
    → j < length steps
unfolding next_index
next_index-lt steps i s j e = by_next s.next e
  where
    by_next :
        (n : Option Text)
        → elim n [
          | some next_id ↦ position (has_id next_id) steps
          | none ↦ if ltb (suc i) (length steps) then some (suc i) else none
        ]
          ≡ some j
        → j < length steps
    by_next none e' = ground arith
    by_next (some a) e' = omega (arith, position_from_lt 0 (has_id a) steps j e')

pub advance_to_next_step-Safe :
    (ev : Evaluator) (now fuel : ℕ) (nav : FlowNavigator)
    → IsValid nav
    → Safe (advance_to_next_step ev now fuel nav)
unfolding advance_to_next_step enter record_history pass_over
advance_to_next_step-Safe ev now zero nav v = (v, λ e. cc)
advance_to_next_step-Safe ev now (suc fuel) nav v =
    let same_length = length_of_Budgets nav.steps nav.retry_states v.budgets in
    let (s, at) = in_list nav.steps nav.current_index (omega (arith, v.in_range)) in
    elim (Option-cases (next_index nav.steps nav.current_index s)) [
      | inl last ↦ rw (at, last, advance_to_next_step) (v, λ e. cc)
      | inr (i, to_i) ↦
          let i_lt = next_index-lt nav.steps nav.current_index s i to_i in
          let (c, at_i) = in_list nav.steps i i_lt in
          elim (Bool-cases (evaluate_condition c ev)) [
            | inl open_step ↦
                rw (at, to_i, at_i, open_step, advance_to_next_step)
                  (record_history-IsValid now _ (moved i i current nav v i_lt), λ e. cc)
            | inr shut ↦
                rw (at, to_i, at_i, shut, advance_to_next_step)
                  (advance_to_next_step-Safe ev now fuel (pass_over i nav)
                    (moved i i skipped nav v i_lt))
          ]
    ]

and_return-panics :
    {A : Type 0} (a : A) (r : Ending (Unit {0})) → r ≢ panics → and_return a r ≢ panics
and_return-panics a (returns (ok u)) h = λ e. cc
and_return-panics a (returns (err x)) h = λ e. cc
and_return-panics a panics h = absurd (h refl)
and_return-panics a unfinished h = λ e. cc

-- A change of the steps that keeps the budgets, with any document and counts of attempts that fit.
pub kept :
    {nav nav' : FlowNavigator}
    → nav'.current_index ≡ nav.current_index
    → length nav'.retry_states ≡ length nav.retry_states
    → Budgets nav'.steps nav'.retry_states
    → IsValid nav
    → IsValid nav'
kept same_index same_length b v = record { in_range = omega (arith, v.in_range); budgets = b }

complete_step-Safe :
    (w : World) (now idx : ℕ) (doc : AnmlDocument) (nav : FlowNavigator)
    → IsValid nav
    → Safe (complete_step w now idx doc nav)
unfolding complete_step update_state_from_document
complete_step-Safe w now idx doc nav v =
    let steps = set_status idx completed nav.steps in
    let b =
      update_steps-Budgets (flow_steps doc) steps nav.retry_states
        (Budgets-set_status idx completed nav.steps nav.retry_states v.budgets) in
    let after : FlowNavigator = record nav { steps = (update_steps (flow_steps doc) steps).0 } in
    elim (Option-cases (update_steps (flow_steps doc) steps).1) [
      | inl done ↦
          let (v', n) =
            advance_to_next_step-Safe w.evaluator now w.fuel (record after { document = doc })
              (kept refl refl b v) in
          rw (done, complete_step) (v', and_return-panics doc _ n)
      | inr (x, early) ↦ rw (early, complete_step) (kept {nav' = after} refl refl b v, λ e. cc)
    ]

fall_back-Safe :
    (now idx : ℕ) (step : StepInfo) (nav : FlowNavigator)
    → IsValid nav
    → Safe (fall_back now idx step nav)
unfolding fall_back
fall_back-Safe now idx step nav v = elim (Option-cases step.next_on_error) [
  | inl none_set ↦ rw (none_set, fall_back) (v, λ e. cc)
  | inr (a, named) ↦ elim (Option-cases (position (has_id a) nav.steps)) [
    | inl missing ↦ rw (named, missing, fall_back) (v, λ e. cc)
    | inr (j, at_j) ↦
        let shorter : FlowNavigator = record nav { steps = set_status idx skipped nav.steps } in
        let j_lt : j < length (set_status idx skipped nav.steps) = omega (
          arith,
          position_from_lt 0 (has_id a) nav.steps j at_j,
          length-set_status idx skipped nav.steps,
        ) in
        rw (named, at_j, fall_back)
          (
            record_history-IsValid now _ (
                moved j j current shorter
                  (kept {nav = nav} {nav' = shorter} refl refl
                    (Budgets-set_status idx skipped nav.steps nav.retry_states v.budgets) v)
                  j_lt),
            λ e. cc,
          )
  ]
]

handle_step_error-Safe :
    (w : World) (fuel k now idx : ℕ) (nav : FlowNavigator)
    → IsValid nav
    → idx < length nav.retry_states
    → Safe (handle_step_error w fuel k now idx nav)
unfolding handle_step_error
handle_step_error-Safe w zero k now idx nav v h = (v, λ e. cc)
handle_step_error-Safe w (suc fuel) k now idx nav v h =
    let (s, at) =
      in_list nav.steps idx
        (omega (arith, length_of_Budgets nav.steps nav.retry_states v.budgets)) in
    let (a, counted) = in_list nav.retry_states idx h in
    elim (Bool-cases (ltb a s.retry_budget)) [
      | inr spent ↦ rw (at, counted, spent, handle_step_error) (fall_back-Safe now idx s nav v)
      | inl left ↦
          let nav' : FlowNavigator = record nav {
            retry_states = set nav.retry_states idx (suc a);
          } in
          let v' : IsValid nav' =
            kept {nav = nav} {nav' = nav'} refl (length-set nav.retry_states idx (suc a))
              (Budgets-set idx nav.steps nav.retry_states s a v.budgets at counted (ground arith))
              v in
          let awake : ℕ = now + backoff_delay (suc a) (remaining_ttl now nav') + w.overslept k in
          elim (Bool-cases (timed_out awake nav')) [
            | inl late ↦ rw (at, counted, left, late, handle_step_error) (v', λ e. cc)
            | inr early ↦ elim (Result-cases (w.execute k nav'.document (unwrap_or s.action []))) [
              | inl (doc, answered) ↦
                  rw (at, counted, left, early, answered, handle_step_error)
                    (complete_step-Safe w (awake + w.took k) idx doc nav' v')
              | inr (x, failed) ↦
                  rw (at, counted, left, early, failed, handle_step_error)
                    (handle_step_error-Safe w fuel (suc k) (awake + w.took k) idx nav' v'
                      (omega (arith, length-set nav.retry_states idx (suc a))))
            ]
          ]
    ]

-- From a navigator whose current index is in range, and whose steps each have a count of attempts
-- within their budget, `advance` leads to such a navigator again, and it does not panic, whatever
-- the callback, the evaluator and the clock do.
pub advance-Safe :
    (w : World) (now : ℕ) (nav : FlowNavigator)
    → IsValid nav
    → IsValid (advance w now nav).0 × ((advance w now nav).1 ≢ panics)
unfolding advance
advance-Safe w now nav v = elim (Bool-cases (timed_out now nav)) [
  | inl late ↦ rw (late, advance) (v, λ e. cc)
  | inr early ↦
      let (s, at) =
        in_list nav.steps nav.current_index
          (omega (arith, v.in_range, length_of_Budgets nav.steps nav.retry_states v.budgets)) in
      elim (Bool-cases (evaluate_condition s w.evaluator)) [
        | inr shut ↦
            let (v', n) =
              advance_to_next_step-Safe w.evaluator now w.fuel
                (record nav { steps = set_status nav.current_index skipped nav.steps })
                (kept {nav = nav} refl refl
                  (Budgets-set_status nav.current_index skipped nav.steps nav.retry_states
                    v.budgets)
                  v) in
            rw (early, at, shut, advance) (v', and_return-panics _ _ n)
        | inl open_step ↦ elim (Option-cases s.action) [
          | inl no_action ↦ rw (early, at, open_step, no_action, advance) (v, λ e. cc)
          | inr (a, has_action) ↦ elim (Result-cases (w.execute 0 nav.document a)) [
            | inl (doc, answered) ↦
                rw (early, at, open_step, has_action, answered, advance)
                  (complete_step-Safe w (now + w.took 0) nav.current_index doc nav v)
            | inr (x, failed) ↦
                rw (early, at, open_step, has_action, failed, advance)
                  (handle_step_error-Safe w (suc s.retry_budget) 1 (now + w.took 0)
                    nav.current_index nav v v.in_range)
          ]
        ]
      ]
]
