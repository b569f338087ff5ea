-- ===== src/Client/Delay.antt =====
-- `RetryPolicy` of src/client.rs, and the delay before a retry. The standard library's `f64` is the
-- record `DelayFloats`, in which a float is its 64 bits, and an `i32` its 32.
use anml_client_rust.Common.{ℕ, ◌/◌, ◌≤◌, leb, if◌then◌else◌, arith}
use anml_client_rust.Config.{from_secs, from_millis}

pub record DelayFloats : Type 0 where
  -- `as f64` of a `u128`
  pub from_int : ℕ → ℕ
  pub times : ℕ → ℕ → ℕ
  pub powi : ℕ → ℕ → ℕ
  pub min : ℕ → ℕ → ℕ
  -- `as u64`, which saturates
  pub to_u64 : ℕ → ℕ
  -- the literal 2.0
  pub two : ℕ

pub record RetryPolicy : Type 0 where
  pub max_retries : ℕ
  pub base_delay : ℕ
  pub multiplier : ℕ
  pub max_delay : ℕ

-- `RetryPolicy::default`
abbrev pub default_policy : DelayFloats → RetryPolicy
default_policy floats = record {
  max_retries = 3;
  base_delay = from_secs 1;
  multiplier = floats.two;
  max_delay = from_secs 30;
}

abbrev pub as_millis : ℕ → ℕ
as_millis d = d / 1_000_000

-- `Duration::min`
abbrev pub min_duration : ℕ → ℕ → ℕ
min_duration a b = if leb a b then a else b

module _ (floats : DelayFloats) where
  abbrev pub capped : RetryPolicy → ℕ → ℕ
  capped policy attempt = from_millis (
      floats.to_u64 (
        floats.min
          (floats.times (floats.from_int (as_millis policy.base_delay))
            (floats.powi policy.multiplier attempt))
          (floats.from_int (as_millis policy.max_delay))))

  unfoldable pub delay_for_attempt : RetryPolicy → ℕ → ℕ
  delay_for_attempt policy attempt = min_duration (capped policy attempt) policy.max_delay

  -- Whatever the floats do, a delay is at most the greatest delay of the policy.
  pub delay_for_attempt-le :
      (policy : RetryPolicy) (attempt : ℕ) → delay_for_attempt policy attempt ≤ policy.max_delay
  unfolding delay_for_attempt
  delay_for_attempt-le policy attempt = ground arith
