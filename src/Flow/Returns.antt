-- ===== src/Flow/Returns.antt =====
-- The methods of src/flow/mod.rs return in a flow without explicit `next` links.
use anml_client_rust.Common.{
  ℕ, zero, suc, ◌+◌, ◌≤◌, ◌<◌, some, List, [], ◌∷◌, ◌≡◌, refl, inl, inr, arith, get_elem?, set,
  length, position, length-set, Option-cases, Bool-cases, ltb,
}
use anml_client_rust.Document.{completed, skipped, AnmlDocument}
use anml_client_rust.Error.{flow_aborted, Result, ok, err, Result-cases}
use anml_client_rust.Flow.{
  StepInfo, FlowNavigator, Ending, returns, unwrap_or, has_id, evaluate_condition, set_status,
  timed_out, current_step, step_name, backoff_delay, remaining_ttl,
}
use anml_client_rust.Flow.Update.{update_steps, update_state_from_document, flow_steps}
use anml_client_rust.Flow.Advance.{
  World, and_return, complete_step, fall_back, handle_step_error, advance,
}
use anml_client_rust.Flow.Invariant.{
  Budgets, IsValid, length_of_Budgets, Budgets-set_status, Budgets-set, update_steps-Budgets,
}
use anml_client_rust.Flow.Safety.{in_list, kept}
use anml_client_rust.Flow.Plain.{
  IsPlain, IsPlain-set_status, update_steps-IsPlain, advance_to_next_step-returns,
}

abbrev pub Returns : {A : Type 0} → Ending A → Type 0
Returns {A} e = (r : Result A) × (e ≡ returns r)

and_return-Returns :
    {A : Type 0} (a : A) (r : Ending (Unit {0})) → r ≡ returns (ok tt) → Returns (and_return a r)
and_return-Returns a r e = (ok a, rw e)

complete_step-Returns :
    (w : World) (now idx : ℕ) (doc : AnmlDocument) (nav : FlowNavigator)
    → IsValid nav
    → IsPlain nav.steps
    → length nav.retry_states ≤ w.fuel
    → Returns (complete_step w now idx doc nav).1
unfolding complete_step update_state_from_document
complete_step-Returns w now idx doc nav v plain bound =
    let steps = set_status idx completed nav.steps in
    let b =
      update_steps-Budgets (flow_steps doc) steps nav.retry_states
        (Budgets-set_status idx completed nav.steps nav.retry_states v.budgets) in
    let after : FlowNavigator = record nav {
      steps = (update_steps (flow_steps doc) steps).0;
      document = doc;
    } in
    elim (Option-cases (update_steps (flow_steps doc) steps).1) [
      | inl done ↦
          rw (done, complete_step)
            (and_return-Returns doc _ (
              advance_to_next_step-returns w.evaluator now w.fuel after
                (kept {nav = nav} {nav' = after} refl refl b v)
                (update_steps-IsPlain (flow_steps doc) steps
                  (IsPlain-set_status idx completed nav.steps plain))
                bound))
      | inr (x, early) ↦ rw (early, complete_step) (err x, refl)
    ]

fall_back-Returns :
    (now idx : ℕ) (step : StepInfo) (nav : FlowNavigator) → Returns (fall_back now idx step nav).1
unfolding fall_back
fall_back-Returns now idx step nav = elim (Option-cases step.next_on_error) [
  | inl none_set ↦ rw (none_set, fall_back) (err (flow_aborted step.id), refl)
  | inr (a, named) ↦ elim (Option-cases (position (has_id a) nav.steps)) [
    | inl missing ↦ rw (named, missing, fall_back) (err (flow_aborted step.id), refl)
    | inr (j, at_j) ↦ rw (named, at_j, fall_back) (ok nav.document, refl)
  ]
]

get_elem?-set :
    {A : Type 0} (xs : List A) (i : ℕ) (v b : A)
    → get_elem? xs i ≡ some b
    → get_elem? (set xs i v) i ≡ some v
get_elem?-set [] i v b h = ground arith
get_elem?-set (x ∷ xs) zero v b h = refl
get_elem?-set (x ∷ xs) (suc i) v b h = get_elem?-set xs i v b h

within_budget :
    (i : ℕ) (steps : List StepInfo) (attempts : List ℕ) (s : StepInfo) (a : ℕ)
    → Budgets steps attempts
    → get_elem? steps i ≡ some s
    → get_elem? attempts i ≡ some a
    → a ≤ s.retry_budget
within_budget i [] [] s a b at counted = ground arith
within_budget i [] (y ∷ attempts) s a b at counted = absurd b
within_budget i (x ∷ steps) [] s a b at counted = absurd b
within_budget zero (x ∷ steps) (y ∷ attempts) s a (b, bs) at counted = ground arith
within_budget (suc i) (x ∷ steps) (y ∷ attempts) s a (b, bs) at counted =
    within_budget i steps attempts s a bs at counted

-- The rounds of retrying are bounded by what is left of the step's budget.
handle_step_error-Returns :
    (w : World) (fuel k now idx : ℕ) (nav : FlowNavigator) (s : StepInfo) (a : ℕ)
    → IsValid nav
    → IsPlain nav.steps
    → length nav.retry_states ≤ w.fuel
    → get_elem? nav.steps idx ≡ some s
    → get_elem? nav.retry_states idx ≡ some a
    → s.retry_budget < a + fuel
    → Returns (handle_step_error w fuel k now idx nav).1
unfolding handle_step_error
handle_step_error-Returns w zero k now idx nav s a v plain bound at counted enough =
    let spent : ⊥ =
      omega
        (arith, within_budget idx nav.steps nav.retry_states s a v.budgets at counted, enough) in
    absurd spent
handle_step_error-Returns w (suc fuel) k now idx nav s a v plain bound at counted enough =
    elim (Bool-cases (ltb a s.retry_budget)) [
      | inr spent ↦ rw (at, counted, spent, handle_step_error) (fall_back-Returns now idx s nav)
      | inl left ↦
          let nav' : FlowNavigator = record nav {
            retry_states = set nav.retry_states idx (suc a);
          } in
          let v' : IsValid nav' =
            kept {nav = nav} {nav' = nav'} refl (length-set nav.retry_states idx (suc a))
              (Budgets-set idx nav.steps nav.retry_states s a v.budgets at counted (ground arith))
              v in
          let bound' : length nav'.retry_states ≤ w.fuel =
            omega (arith, length-set nav.retry_states idx (suc a)) in
          let awake : ℕ = now + backoff_delay (suc a) (remaining_ttl now nav') + w.overslept k in
          elim (Bool-cases (timed_out awake nav')) [
            | inl late ↦
                rw (at, counted, left, late, handle_step_error)
                  (err (flow_aborted (step_name (current_step nav'))), refl)
            | inr early ↦ elim (Result-cases (w.execute k nav'.document (unwrap_or s.action []))) [
              | inl (doc, answered) ↦
                  rw (at, counted, left, early, answered, handle_step_error)
                    (complete_step-Returns w (awake + w.took k) idx doc nav' v' plain bound')
              | inr (x, failed) ↦
                  rw (at, counted, left, early, failed, handle_step_error)
                    (handle_step_error-Returns w fuel (suc k) (awake + w.took k) idx nav' s (suc a)
                      v' plain bound' at (get_elem?-set nav.retry_states idx (suc a) a counted)
                      (omega arith))
            ]
          ]
    ]

-- In a valid navigator where no step names its next step, and with fuel for at least as many steps
-- as the flow has, `advance` returns a result: it neither panics nor runs out of fuel, however many
-- times the callback fails.
pub advance-Returns :
    (w : World) (now : ℕ) (nav : FlowNavigator)
    → IsValid nav
    → IsPlain nav.steps
    → length nav.retry_states ≤ w.fuel
    → (r : Result AnmlDocument) × ((advance w now nav).1 ≡ returns r)
unfolding advance
advance-Returns w now nav v plain bound = elim (Bool-cases (timed_out now nav)) [
  | inl late ↦ rw (late, advance) (err (flow_aborted (step_name (current_step nav))), refl)
  | inr early ↦
      let (s, at) =
        in_list nav.steps nav.current_index
          (omega (arith, v.in_range, length_of_Budgets nav.steps nav.retry_states v.budgets)) in
      let (a, counted) = in_list nav.retry_states nav.current_index v.in_range in
      elim (Bool-cases (evaluate_condition s w.evaluator)) [
        | inr shut ↦
            rw (early, at, shut, advance)
              (and_return-Returns _ _ (
                advance_to_next_step-returns w.evaluator now w.fuel
                  (record nav { steps = set_status nav.current_index skipped nav.steps })
                  (kept {nav = nav} refl refl
                    (Budgets-set_status nav.current_index skipped nav.steps nav.retry_states
                      v.budgets)
                    v)
                  (IsPlain-set_status nav.current_index skipped nav.steps plain) bound))
        | inl open_step ↦ elim (Option-cases s.action) [
          | inl no_action ↦
              rw (early, at, open_step, no_action, advance) (err (flow_aborted s.id), refl)
          | inr (b, has_action) ↦ elim (Result-cases (w.execute 0 nav.document b)) [
            | inl (doc, answered) ↦
                rw (early, at, open_step, has_action, answered, advance)
                  (complete_step-Returns w (now + w.took 0) nav.current_index doc nav v plain bound)
            | inr (x, failed) ↦
                rw (early, at, open_step, has_action, failed, advance)
                  (handle_step_error-Returns w (suc s.retry_budget) 1 (now + w.took 0)
                    nav.current_index nav s a v plain bound at counted (omega arith))
          ]
        ]
      ]
]
