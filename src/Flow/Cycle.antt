-- ===== src/Flow/Cycle.antt =====
-- The recursion of `advance_to_next_step` in src/flow/mod.rs need not end.
use anml_client_rust.Common.{ℕ, zero, suc, false, some, List, ◌≡◌, refl, get_elem?, ◌∙◌}
use anml_client_rust.Document.{StepStatus, skipped}
use anml_client_rust.Flow.{
  StepInfo, FlowNavigator, Evaluator, unfinished, evaluate_condition, set_status, next_index,
  pass_over, advance_to_next_step,
}
use anml_client_rust.Flow.Steps.{get_elem?-set_status, next_index-set_status}

-- From each index of `S` the next step is again one of `S`, and its condition is false.
abbrev pub Trap : Evaluator → (ℕ → Type 0) → List StepInfo → Type 0
Trap ev S steps =
    (i : ℕ)
    → S i
    → (step : StepInfo) × (j : ℕ) × (c : StepInfo) × (get_elem? steps i ≡ some step)
      × (next_index steps i step ≡ some j)
      × (get_elem? steps j ≡ some c)
      × (evaluate_condition c ev ≡ false)
      × S j

Trap-set_status :
    (ev : Evaluator) (S : ℕ → Type 0) (k : ℕ) (st : StepStatus) (steps : List StepInfo)
    → Trap ev S steps
    → Trap ev S (set_status k st steps)
unfolding evaluate_condition
Trap-set_status ev S k st steps trap i m =
    let (step, j, c, at_i, to_j, at_j, shut, m') = trap i m in
    let (t, at_i') = get_elem?-set_status k i st steps step at_i in
    let (u, at_j') = get_elem?-set_status k j st steps c at_j in
    (
      record step { status = t },
      j,
      record c { status = u },
      at_i',
      next_index-set_status k i st steps step t ∙ to_j,
      at_j',
      shut,
      m',
    )

-- Where the conditions along a cycle of `next` links are all false, the recursion does not end:
-- it is unfinished on every fuel.
pub advance_to_next_step-cycle :
    (ev : Evaluator) (S : ℕ → Type 0) (now fuel : ℕ) (nav : FlowNavigator)
    → Trap ev S nav.steps
    → S nav.current_index
    → (advance_to_next_step ev now fuel nav).1 ≡ unfinished
unfolding advance_to_next_step pass_over
advance_to_next_step-cycle ev S now zero nav trap m = refl
advance_to_next_step-cycle ev S now (suc fuel) nav trap m =
    let (step, j, c, at_i, to_j, at_j, shut, m') = trap nav.current_index m in
    rw (at_i, to_j, at_j, shut, advance_to_next_step)
      (advance_to_next_step-cycle ev S now fuel (pass_over j nav)
        (Trap-set_status ev S j skipped nav.steps trap) m')
