-- ===== src/Action/Budget/Race.antt =====
-- Calls of `check_and_record` of src/action/mod.rs that overlap: the load of the counter and its
-- increment are two steps, with other calls' steps between them.
use anml_client_rust.Common.{
  ℕ, zero, suc, ◌+◌, ◌%◌, ◌^◌, ◌<◌, true, List, [], ◌∷◌, ◌≡◌, Text, arith, replicate,
}
use anml_client_rust.Error.{ok}
use anml_client_rust.Action.Budget.{ActionBudgetTracker, contains, admit, finish, count_request}

-- The second steps of calls that have all been admitted, one after the other.
abbrev pub finish_all : List Text → ActionBudgetTracker → ActionBudgetTracker
finish_all [] t = t
finish_all (o ∷ os) t = finish_all os (finish o t).0

-- Any number of callers that load the counter before one of them counts are all let through when one
-- request is left: with `n` callers for a known origin, the counter ends at `max_requests + n - 1`,
-- while it does not wrap around.
pub finish_all-overrun :
    (t : ActionBudgetTracker) (origin : Text) (n : ℕ)
    → t.request_count + 1 ≡ t.budget.max_requests
    → contains origin t.origins ≡ true
    → t.request_count + n < 2 ^ 32
    → (admit t ≡ ok tt)
      × ((finish_all (replicate n origin) t).request_count + 1 ≡ t.budget.max_requests + n)
unfolding admit finish
finish_all-overrun t origin n one_left known bound =
    (ground arith, omega (arith, counts n t known bound))
  where
    counts :
        (n : ℕ) (t : ActionBudgetTracker)
        → contains origin t.origins ≡ true
        → t.request_count + n < 2 ^ 32
        → (finish_all (replicate n origin) t).request_count ≡ t.request_count + n
    counts zero t known bound = omega arith
    counts (suc n) t known bound =
        let one : (t.request_count + 1) % 2 ^ 32 ≡ t.request_count + 1 = omega arith in
        rw (known, finish_all, finish)
          (omega (arith, one, counts n (count_request t) known (omega (arith, one))))
