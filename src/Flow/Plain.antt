-- ===== src/Flow/Plain.antt =====
-- Flows in document order, without explicit `next` links, in src/flow/mod.rs.
use anml_client_rust.Common.{
  ℕ, zero, suc, ◌≤◌, ◌<◌, none, List, [], ◌∷◌, ◌≡◌, refl, ap, inl, inr, arith, length, Bool-cases,
  text_eq, All, ◌++◌,
}
use anml_client_rust.Document.{StepStatus, pending, AnmlStep}
use anml_client_rust.Error.{Result, ok, err, ◌>>=◌, Result-cases}
use anml_client_rust.Flow.{
  StepInfo, FlowNavigator, Evaluator, returns, unwrap_or, set_status, advance_to_next_step,
  detect_regression,
}
use anml_client_rust.Flow.Update.{update_step, update_steps}
use anml_client_rust.Flow.Invariant.{IsValid, length_of_Budgets}
use anml_client_rust.Flow.Progress.{advance_to_next_step-settle}

-- No step of the flow names its next step.
abbrev pub IsPlain : List StepInfo → Type 0
IsPlain steps = All (λ x. x.next ≡ none) steps

split_at :
    (steps : List StepInfo) (i : ℕ)
    → i < length steps
    → (before : List StepInfo) × (s : StepInfo) × (after : List StepInfo) × (steps
        ≡ before ++ (s ∷ after))
      × (i ≡ length before)
      × (length after < length steps)
split_at [] i h = elim h [ ]
split_at (x ∷ steps) zero h = ([], x, steps, refl, refl, omega arith)
split_at (x ∷ steps) (suc i) h =
    let (before, s, after, e, n, shorter) = split_at steps i (omega arith) in
    (x ∷ before, s, after, ap (◌∷◌ x) e, ap suc n, omega arith)

All-behind : (before after : List StepInfo) → IsPlain (before ++ after) → IsPlain after
All-behind [] after h = h
All-behind (x ∷ before) after (h, hs) = All-behind before after hs

pub IsPlain-set_status :
    (i : ℕ) (st : StepStatus) (steps : List StepInfo)
    → IsPlain steps
    → IsPlain (set_status i st steps)
IsPlain-set_status i st [] h = tt
IsPlain-set_status zero st (s ∷ steps) (h, hs) = (h, hs)
IsPlain-set_status (suc i) st (s ∷ steps) (h, hs) = (h, IsPlain-set_status i st steps hs)

abbrev PlainResult : Result (List StepInfo) → Type 0
PlainResult (ok steps) = IsPlain steps
PlainResult (err e) = Unit

update_step-IsPlain :
    (new : AnmlStep) (steps : List StepInfo) → IsPlain steps → PlainResult (update_step new steps)
unfolding update_step
update_step-IsPlain new [] h = tt
update_step-IsPlain new (s ∷ steps) (h, hs) = elim (Bool-cases (text_eq s.id new.id)) [
  | inl here ↦ elim (Bool-cases (detect_regression s.status (unwrap_or new.status pending))) [
    | inl worse ↦ rw (here, worse) tt
    | inr fine ↦ rw (here, fine) (h, hs)
  ]
  | inr other ↦ rw other (extend (update_step new steps) (update_step-IsPlain new steps hs))
]
  where
    extend :
        (r : Result (List StepInfo)) → PlainResult r → PlainResult (r >>= λ steps'. ok (s ∷ steps'))
    extend (ok steps') k = (h, k)
    extend (err e) k = tt

pub update_steps-IsPlain :
    (news : List AnmlStep) (steps : List StepInfo)
    → IsPlain steps
    → IsPlain (update_steps news steps).0
unfolding update_steps
update_steps-IsPlain [] steps h = h
update_steps-IsPlain (new ∷ news) steps h = elim (Result-cases (update_step new steps)) [
  | inl (steps', e) ↦
      rw (e, update_steps)
        (update_steps-IsPlain news steps' (rw e at (update_step-IsPlain new steps h)))
  | inr (x, e) ↦ rw (e, update_steps) h
]

pub advance_to_next_step-returns :
    (ev : Evaluator) (now fuel : ℕ) (nav : FlowNavigator)
    → IsValid nav
    → IsPlain nav.steps
    → length nav.retry_states ≤ fuel
    → (advance_to_next_step ev now fuel nav).1 ≡ returns (ok tt)
advance_to_next_step-returns ev now fuel nav v plain bound =
    let same = length_of_Budgets nav.steps nav.retry_states v.budgets in
    let (before, s, after, e, n, shorter) =
      split_at nav.steps nav.current_index (omega (arith, v.in_range)) in
    (advance_to_next_step-settle ev now fuel nav before s after (record { steps = e; index = n })
      (All-behind before (s ∷ after) (rw e at plain)) (omega arith)).0
