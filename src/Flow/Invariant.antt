-- ===== src/Flow/Invariant.antt =====
-- The invariant of the navigator of src/flow/mod.rs: the current index is in range, and each step has
-- its own count of attempts, within its budget. No method panics under it.
use anml_client_rust.Common.{
  ℕ, zero, suc, ◌≤◌, ◌<◌, some, List, [], ◌∷◌, ◌≡◌, refl, ◌≢◌, ap, inl, inr, arith, get_elem?, set,
  length, Bool-cases, text_eq,
}
use anml_client_rust.Document.{StepStatus, pending, AnmlStep}
use anml_client_rust.Error.{Result, ok, err, ◌>>=◌}
use anml_client_rust.Flow.{
  StepInfo, FlowNavigator, Ending, panics, unwrap_or, set_status, detect_regression,
}
use anml_client_rust.Flow.Update.{update_step, update_steps}

-- The attempts of each step are within its budget, and there are as many counts as steps.
abbrev pub Budgets : List StepInfo → List ℕ → Type 0
Budgets [] [] = Unit
Budgets (s ∷ steps) (a ∷ attempts) = (a ≤ s.retry_budget) × Budgets steps attempts
Budgets _ _ = ⊥

pub record IsValid (nav : FlowNavigator) : Type 0 where
  pub in_range : nav.current_index < length nav.retry_states
  pub budgets : Budgets nav.steps nav.retry_states

pub length_of_Budgets :
    (steps : List StepInfo) (attempts : List ℕ)
    → Budgets steps attempts
    → length steps ≡ length attempts
length_of_Budgets [] [] h = refl
length_of_Budgets [] (a ∷ attempts) h = absurd h
length_of_Budgets (s ∷ steps) [] h = absurd h
length_of_Budgets (s ∷ steps) (a ∷ attempts) (h, hs) = ap suc (length_of_Budgets steps attempts hs)

pub Budgets-set_status :
    (i : ℕ) (st : StepStatus) (steps : List StepInfo) (attempts : List ℕ)
    → Budgets steps attempts
    → Budgets (set_status i st steps) attempts
Budgets-set_status i st [] [] h = tt
Budgets-set_status i st [] (a ∷ attempts) h = absurd h
Budgets-set_status i st (s ∷ steps) [] h = absurd h
Budgets-set_status zero st (s ∷ steps) (a ∷ attempts) h = h
Budgets-set_status (suc i) st (s ∷ steps) (a ∷ attempts) (h, hs) =
    (h, Budgets-set_status i st steps attempts hs)

pub Budgets-set :
    (i : ℕ) (steps : List StepInfo) (attempts : List ℕ) (s : StepInfo) (a : ℕ)
    → Budgets steps attempts
    → get_elem? steps i ≡ some s
    → get_elem? attempts i ≡ some a
    → a < s.retry_budget
    → Budgets steps (set attempts i (suc a))
Budgets-set i [] [] s a h p q lt = tt
Budgets-set i [] (b ∷ attempts) s a h p q lt = absurd h
Budgets-set i (x ∷ steps) [] s a h p q lt = absurd h
Budgets-set zero (x ∷ steps) (b ∷ attempts) s a (h, hs) p q lt = (ground arith, hs)
Budgets-set (suc i) (x ∷ steps) (b ∷ attempts) s a (h, hs) p q lt =
    (h, Budgets-set i steps attempts s a hs p q lt)

abbrev Within : List ℕ → Result (List StepInfo) → Type 0
Within attempts (ok steps) = Budgets steps attempts
Within attempts (err e) = Unit

update_step-Within :
    (new : AnmlStep) (steps : List StepInfo) (attempts : List ℕ)
    → Budgets steps attempts
    → Within attempts (update_step new steps)
unfolding update_step
update_step-Within new [] [] h = tt
update_step-Within new [] (a ∷ attempts) h = absurd h
update_step-Within new (s ∷ steps) [] h = absurd h
update_step-Within new (s ∷ steps) (a ∷ attempts) (h, hs) =
    elim (Bool-cases (text_eq s.id new.id)) [
      | inl here ↦ elim (Bool-cases (detect_regression s.status (unwrap_or new.status pending))) [
        | inl worse ↦ rw (here, worse) tt
        | inr fine ↦ rw (here, fine) (h, hs)
      ]
      | inr other ↦
          rw other (extend (update_step new steps) (update_step-Within new steps attempts hs))
    ]
  where
    extend :
        (r : Result (List StepInfo))
        → Within attempts r
        → Within (a ∷ attempts) (r >>= λ steps'. ok (s ∷ steps'))
    extend (ok steps') k = (h, k)
    extend (err e) k = tt

pub update_steps-Budgets :
    (news : List AnmlStep) (steps : List StepInfo) (attempts : List ℕ)
    → Budgets steps attempts
    → Budgets (update_steps news steps).0 attempts
unfolding update_steps
update_steps-Budgets [] steps attempts h = h
update_steps-Budgets (new ∷ news) steps attempts h =
    go (update_step new steps) refl (update_step-Within new steps attempts h)
      (λ steps'. update_steps-Budgets news steps' attempts)
  where
    go :
        (r : Result (List StepInfo))
        → update_step new steps ≡ r
        → Within attempts r
        → ((steps' : List StepInfo)
            → Budgets steps' attempts
            → Budgets (update_steps news steps').0 attempts)
        → Budgets (update_steps (new ∷ news) steps).0 attempts
    go (ok steps') e k next = rw (e, update_steps) (next steps' k)
    go (err x) e k next = rw (e, update_steps) h

-- A method keeps the invariant and does not panic.
abbrev pub Safe : {A : Type 0} → FlowNavigator × Ending A → Type 0
Safe r = IsValid r.0 × (r.1 ≢ panics)
