-- ===== src/Flow/Retry.antt =====
-- The backoff of src/flow/mod.rs: the delay before a step is tried again.
use anml_client_rust.Common.{ℕ, ◌*◌, ◌^◌, ◌≤◌, min, none, some, ◌≡◌, ap, arith}
use anml_client_rust.Config.{from_secs, from_millis}
use anml_client_rust.Flow.{backoff_delay, u64_max}

saturated :
    (p m : ℕ)
    → 60000 ≤ m
    → min (from_millis (min (1000 * min p m) m)) (from_secs 60) ≡ min (from_secs p) (from_secs 60)
saturated p m h = omega arith

-- The delay before a retry is 2 ^ attempts seconds, at most 60 seconds and at most the time that is
-- left to the flow, also where the arithmetic of 64 bits saturates.
pub backoff_delay_lem :
    (attempts : ℕ)
    → (backoff_delay attempts none ≡ min (from_secs (2 ^ attempts)) (from_secs 60))
      × ((ttl : ℕ)
          → backoff_delay attempts (some ttl)
            ≡ min (min (from_secs (2 ^ attempts)) (from_secs 60)) ttl)
unfolding backoff_delay
backoff_delay_lem attempts =
    let e = saturated (2 ^ attempts) u64_max (omega arith) in (e, λ ttl. ap (λ d. min d ttl) e)
