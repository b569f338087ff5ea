-- ===== src/Action/Examples.antt =====
-- Witnesses for src/action/mod.rs.
use anml_client_rust.Common.{
  ◌^◌, ◌≤◌, true, length, List, [], ◌∷◌, ◌≡◌, ◌↔◌, ◌⊎◌, All, Text, codes, arith,
}
use anml_client_rust.Config.{ActionBudget, default_budget}
use anml_client_rust.Action.Budget.{new_tracker, contains}
use anml_client_rust.Action.Budget.Bounds.{run_requests, run_requests-bounded}
use anml_client_rust.Action.Address.{v4, is_private_ip}
use anml_client_rust.Action.Address.Ranges.{value_of, In, is_private_ip_iff}

abbrev small_budget : ActionBudget
small_budget = record default_budget { max_requests = 3; max_distinct_origins = 2 }

abbrev requests : List Text
requests = codes "a" ∷ codes "b" ∷ codes "c" ∷ codes "a" ∷ codes "b" ∷ []

run_requests-bounded_example :
    ((run_requests requests (new_tracker small_budget)).1.request_count
      ≡ length (run_requests requests (new_tracker small_budget)).0)
    × (length (run_requests requests (new_tracker small_budget)).0 ≤ 3)
    × ((origins : List Text) × (length origins ≤ 2)
        × All (λ o. contains o origins ≡ true) (run_requests requests (new_tracker small_budget)).0)
run_requests-bounded_example =
    run_requests-bounded small_budget requests (omega arith) (omega arith)

is_private_ip_iff_example : (is_private_ip (v4 172 31 255 255) ≡ true) ↔ (
    In (value_of 127 0 0 0) (2 ^ 24) (value_of 172 31 255 255)
    ⊎ (In (value_of 10 0 0 0) (2 ^ 24) (value_of 172 31 255 255)
        ⊎ (In (value_of 172 16 0 0) (2 ^ 20) (value_of 172 31 255 255)
            ⊎ (In (value_of 192 168 0 0) (2 ^ 16) (value_of 172 31 255 255)
                ⊎ (value_of 172 31 255 255 ≡ 0)))))
is_private_ip_iff_example =
    is_private_ip_iff 172 31 255 255 (omega arith) (omega arith) (omega arith) (omega arith)
