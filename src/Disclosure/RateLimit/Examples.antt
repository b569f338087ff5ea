-- ===== src/Disclosure/RateLimit/Examples.antt =====
-- Witnesses for src/disclosure/rate_limit.rs.
use anml_client_rust.Common.{
  ℕ, ◌+◌, ◌*◌, ◌≤◌, ◌<◌, none, List, [], ◌∷◌, ◌≡◌, refl, ◌≢◌, codes, arith,
}
use anml_client_rust.Config.{Origin, from_secs}
use anml_client_rust.Disclosure.Consent.{key_instance}
use anml_client_rust.Disclosure.RateLimit.{
  window_duration, cutoff, seconds_left, allowed, retry_after, rate_key, check_timestamps,
}
use anml_client_rust.Disclosure.RateLimit.Window.{Call, run_calls, IsWithin, run_calls-IsWithin}
use anml_client_rust.Disclosure.RateLimit.Retry.{check_timestamps-retry}

abbrev shop : Origin
shop = record { scheme = codes "https"; host = codes "shop.example"; port = none }

abbrev call_at : ℕ → Call
call_at t = record { field = codes "email"; origin = shop; limit = 2; now = window_duration + t }

abbrev three_calls : List Call
three_calls = call_at 0 ∷ call_at 5 ∷ call_at 9 ∷ []

run_calls-IsWithin_example :
    IsWithin 2 (run_calls (rate_key (codes "email") shop) three_calls [] [])
run_calls-IsWithin_example =
    run_calls-IsWithin (rate_key (codes "email") shop) 2 window_duration three_calls (omega arith)
      (omega arith, (omega arith, (omega arith, tt)))
      ((λ e. omega arith), ((λ e. omega arith), ((λ e. omega arith), tt)))

abbrev next_day : ℕ
next_day = window_duration + 1000

abbrev one_second_in : ℕ
one_second_in = window_duration + from_secs 1

abbrev five_seconds : List ℕ
five_seconds = from_secs 5 ∷ []

refused_at : (check_timestamps 1 one_second_in five_seconds).1 ≡ retry_after 4
unfolding check_timestamps cutoff seconds_left
refused_at = refl

check_timestamps-retry_example :
    (one_second_in + from_secs 2 < one_second_in + 4 * 1_000_000_000
      → (check_timestamps 1
          (one_second_in + from_secs 2)
          (check_timestamps 1 one_second_in five_seconds).0).1
        ≢ allowed)
    × (one_second_in + (4 + 1) * 1_000_000_000 ≤ one_second_in + from_secs 2
        → (check_timestamps 1
            (one_second_in + from_secs 2)
            (check_timestamps 1 one_second_in five_seconds).0).1
          ≡ allowed)
check_timestamps-retry_example =
    check_timestamps-retry 1 one_second_in (one_second_in + from_secs 2) 4 five_seconds
      (omega arith) (omega arith) (omega arith) (omega arith) (tt, tt) refused_at
