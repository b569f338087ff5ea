-- ===== src/Action/Budget.antt =====
-- The `ActionBudgetTracker` of src/action/mod.rs. The counter is 32 bits wide and wraps around; the
-- set of origins is a list, the newest first. `check_and_record` takes no lock around its two uses
-- of the counter, so it is the load, `admit`, and the rest, `finish`.
pub mod Bounds
pub mod Race
use anml_client_rust.Common.{
  ℕ, ◌+◌, ◌%◌, ◌^◌, Bool, true, false, List, [], ◌∷◌, leb, any, length, if◌then◌else◌, Text,
  text_eq, codes,
}
use anml_client_rust.Config.{ActionBudget}
use anml_client_rust.Error.{action_budget_exceeded, Result, ok, err}

pub record ActionBudgetTracker : Type 0 where
  pub budget : ActionBudget
  pub request_count : ℕ
  pub origins : List Text

abbrev pub new_tracker : ActionBudget → ActionBudgetTracker
new_tracker budget = record { budget = budget; request_count = 0; origins = [] }

abbrev pub contains : Text → List Text → Bool
contains origin origins = any (λ o. text_eq o origin) origins

-- The load of the counter, and its check.
unfoldable pub admit : ActionBudgetTracker → Result (Unit {0})
admit t =
    if leb t.budget.max_requests t.request_count
    then err (action_budget_exceeded (codes "max_requests") t.budget.max_requests)
    else ok tt

-- `fetch_add`
abbrev pub count_request : ActionBudgetTracker → ActionBudgetTracker
count_request t = record t { request_count = (t.request_count + 1) % 2 ^ 32 }

-- The block under the lock of the origins, and the count.
unfoldable pub finish : Text → ActionBudgetTracker → ActionBudgetTracker × Result (Unit {0})
finish origin t =
    if contains origin t.origins
    then (count_request t, ok tt)
    else if leb t.budget.max_distinct_origins (length t.origins % 2 ^ 32)
    then (
      t,
      err (action_budget_exceeded (codes "max_distinct_origins") t.budget.max_distinct_origins),
    )
    else (count_request (record t { origins = origin ∷ t.origins }), ok tt)

unfoldable pub check_and_record :
    Text → ActionBudgetTracker → ActionBudgetTracker × Result (Unit {0})
unfolding admit finish
check_and_record origin t = elim (admit t) [ err e ↦ (t, err e) | ok u ↦ finish origin t ]

unfoldable pub reset : ActionBudgetTracker → ActionBudgetTracker
reset t = record t { request_count = 0; origins = [] }
