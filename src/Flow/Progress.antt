-- ===== src/Flow/Progress.antt =====
-- Where `advance_to_next_step` of src/flow/mod.rs goes in a flow without explicit `next` links.
use anml_client_rust.Common.{
  ℕ, zero, suc, ◌+◌, ◌<◌, none, some, List, [], ◌∷◌, ◌++◌, ◌≡◌, refl, ◌∙◌, ap, sym, inl, inr, arith,
  get_elem?, length, All, append_assoc, Bool-cases, if◌then◌else◌, length-append,
}
use anml_client_rust.Document.{StepStatus, current, skipped}
use anml_client_rust.Error.{ok}
use anml_client_rust.Flow.{
  StepInfo, FlowNavigator, Evaluator, returns, evaluate_condition, set_status, next_index, enter,
  pass_over, record_history, advance_to_next_step,
}

-- The steps behind the current one: those whose condition is false are skipped, and the first whose
-- condition holds becomes the current one.
abbrev pub settle : Evaluator → List StepInfo → List StepInfo
settle ev [] = []
settle ev (s ∷ steps) =
    if evaluate_condition s ev
    then record s { status = current } ∷ steps
    else record s { status = skipped } ∷ settle ev steps

-- How far that is.
abbrev pub settled_at : Evaluator → List StepInfo → ℕ
settled_at ev [] = 0
settled_at ev (s ∷ steps) = if evaluate_condition s ev then 1 else suc (settled_at ev steps)

get_elem?-middle :
    (before : List StepInfo) (s : StepInfo) (after : List StepInfo)
    → get_elem? (before ++ (s ∷ after)) (length before) ≡ some s
get_elem?-middle [] s after = refl
get_elem?-middle (b ∷ before) s after = get_elem?-middle before s after

get_elem?-behind :
    (before : List StepInfo) (s c : StepInfo) (after : List StepInfo)
    → get_elem? (before ++ (s ∷ c ∷ after)) (suc (length before)) ≡ some c
get_elem?-behind [] s c after = refl
get_elem?-behind (b ∷ before) s c after = get_elem?-behind before s c after

set_status-behind :
    (before : List StepInfo) (s c : StepInfo) (after : List StepInfo) (st : StepStatus)
    → set_status (suc (length before)) st (before ++ (s ∷ c ∷ after))
      ≡ before ++ (s ∷ record c { status = st } ∷ after)
set_status-behind [] s c after st = refl
set_status-behind (b ∷ before) s c after st = ap (◌∷◌ b) (set_status-behind before s c after st)

-- The navigator stands at the step `s`, between the steps `before` and `after`.
pub record StandsAt (nav : FlowNavigator) (before : List StepInfo) (s : StepInfo)
    (after : List StepInfo) : Type 0 where
  pub steps : nav.steps ≡ before ++ (s ∷ after)
  pub index : nav.current_index ≡ length before

next_index-last :
    (before : List StepInfo) (s : StepInfo)
    → s.next ≡ none
    → next_index (before ++ (s ∷ [])) (length before) s ≡ none
unfolding next_index
next_index-last before s h = rw (h, next_index) (ground (arith, length-append before (s ∷ [])))

next_index-behind :
    (before : List StepInfo) (s c : StepInfo) (after : List StepInfo)
    → s.next ≡ none
    → next_index (before ++ (s ∷ c ∷ after)) (length before) s ≡ some (suc (length before))
unfolding next_index
next_index-behind before s c after h =
    rw (h, next_index) (ground (arith, length-append before (s ∷ c ∷ after)))

record_history_fields :
    (now : ℕ) (nav : FlowNavigator)
    → ((record_history now nav).steps ≡ nav.steps)
      × ((record_history now nav).current_index ≡ nav.current_index)
unfolding record_history
record_history_fields now nav = ground arith

-- Without `next` links the navigator goes on in document order. It skips the steps whose condition
-- is false and stops at the first whose condition holds, which becomes the current step; where no
-- later step holds it stops at the last. The other steps stay as they are. A bound on the recursion
-- above the number of later steps is enough for it to return.
pub advance_to_next_step-settle :
    (ev : Evaluator) (now fuel : ℕ) (nav : FlowNavigator) (before : List StepInfo) (s : StepInfo)
    (after : List StepInfo)
    → StandsAt nav before s after
    → All (λ x. x.next ≡ none) (s ∷ after)
    → length after < fuel
    → ((advance_to_next_step ev now fuel nav).1 ≡ returns (ok tt))
      × ((advance_to_next_step ev now fuel nav).0.steps ≡ before ++ (s ∷ settle ev after))
      × ((advance_to_next_step ev now fuel nav).0.current_index
          ≡ length before + settled_at ev after)
unfolding advance_to_next_step enter pass_over
advance_to_next_step-settle ev now zero nav before s after at plain h = elim h [ ]
advance_to_next_step-settle ev now (suc fuel) nav before s [] at (p, plain) h =
    let at_s : get_elem? nav.steps nav.current_index ≡ some s =
      rw (at.steps, at.index) (get_elem?-middle before s []) in
    let last : next_index nav.steps nav.current_index s ≡ none =
      rw (at.steps, at.index) (next_index-last before s p) in
    rw (at_s, last, advance_to_next_step) (refl, at.steps, omega (arith, at.index))
advance_to_next_step-settle ev now (suc fuel) nav before s (c ∷ after) at (p, (q, plain)) h =
    let at_s : get_elem? nav.steps nav.current_index ≡ some s =
      rw (at.steps, at.index) (get_elem?-middle before s (c ∷ after)) in
    let to_c : next_index nav.steps nav.current_index s ≡ some (suc (length before)) =
      rw (at.steps, at.index) (next_index-behind before s c after p) in
    let at_c : get_elem? nav.steps (suc (length before)) ≡ some c =
      rw at.steps (get_elem?-behind before s c after) in
    elim (Bool-cases (evaluate_condition c ev)) [
      | inl open_step ↦
          let (same_steps, same_index) = record_history_fields now (record nav {
            current_index = suc (length before);
            steps = set_status (suc (length before)) current nav.steps;
          }) in
          rw (at_s, to_c, at_c, open_step, advance_to_next_step)
            (
              refl,
              same_steps ∙ rw at.steps (set_status-behind before s c after current),
              same_index ∙ omega arith,
            )
      | inr shut ↦
          let c' : StepInfo = record c { status = skipped } in
          let nav' : FlowNavigator = pass_over (suc (length before)) nav in
          let at' : StandsAt nav' (before ++ (s ∷ [])) c' after = record {
            steps = rw at.steps (
                set_status-behind before s c after skipped
                ∙ sym (append_assoc before (s ∷ []) (c' ∷ after)));
            index = omega (arith, length-append before (s ∷ []));
          } in
          let (done, steps, index) =
            advance_to_next_step-settle ev now fuel nav' (before ++ (s ∷ [])) c' after at'
              (q, plain) (omega arith) in
          rw (at_s, to_c, at_c, shut, advance_to_next_step)
            (
              done,
              steps ∙ append_assoc before (s ∷ []) (c' ∷ settle ev after),
              omega (arith, index, length-append before (s ∷ [])),
            )
    ]
