-- ===== src/Integrity.antt =====
-- Of src/integrity.rs, the budget of a document's media fetches. The counters wrap around at 32 and
-- 64 bits.
mod Examples
pub mod Bandwidth
pub mod Verify
use anml_client_rust.Common.{ℕ, ◌+◌, ◌%◌, ◌^◌, Bool, true, false, ltb, if◌then◌else◌, codes}
use anml_client_rust.Config.{ActionBudget}
use anml_client_rust.Error.{resource_limit_exceeded, Result, ok, err}

pub record MediaBudgetTracker : Type 0 where
  pub fetch_count : ℕ
  pub bandwidth_bytes : ℕ
  pub max_fetches : ℕ
  pub max_bandwidth : ℕ

-- `MediaBudgetTracker::new`
abbrev pub new_media_tracker : ActionBudget → MediaBudgetTracker
new_media_tracker budget = record {
  fetch_count = 0;
  bandwidth_bytes = 0;
  max_fetches = budget.max_media_fetches;
  max_bandwidth = budget.max_media_bandwidth;
}

-- The part of `record_fetch` behind the count.
unfoldable pub record_bytes : ℕ → MediaBudgetTracker → MediaBudgetTracker × Result (Unit {0})
record_bytes size t =
    let total : ℕ = (t.bandwidth_bytes + size) % 2 ^ 64 in
    (
      record t { bandwidth_bytes = total },
      if ltb t.max_bandwidth total
          then err (resource_limit_exceeded (codes "max_media_bandwidth") total t.max_bandwidth)
          else ok tt,
    )

unfoldable pub record_fetch : ℕ → MediaBudgetTracker → MediaBudgetTracker × Result (Unit {0})
unfolding record_bytes
record_fetch size t =
    let count : ℕ = (t.fetch_count + 1) % 2 ^ 32 in
    if ltb t.max_fetches count
    then (
      record t { fetch_count = count },
      err (resource_limit_exceeded (codes "max_media_fetches") count t.max_fetches),
    )
    else record_bytes size (record t { fetch_count = count })
