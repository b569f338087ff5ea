-- ===== src/Client/Breaker.antt =====
-- The circuit breaker of src/client.rs. Instants are nanoseconds of a monotone clock; the counters are
-- 32 bits wide and wrap around. The locks and atomics are those of one thread at a time.
use anml_client_rust.Common.{
  ℕ, ◌+◌, ◌-◌, ◌%◌, ◌^◌, Bool, false, Option, none, some, List, [], ltb, leb, if◌then◌else◌, Text,
  text_instance,
}
use anml_client_rust.Common.Assoc.{get, insert}
use anml_client_rust.Config.{from_secs}

pub record CircuitBreakerState : Type 0 where
  pub failures : ℕ
  pub last_failure : Option ℕ

pub record CircuitBreaker : Type 0 where
  pub failure_threshold : ℕ
  pub cooldown : ℕ
  pub states : List (Text × CircuitBreakerState)

abbrev pub fresh_state : CircuitBreakerState
fresh_state = record { failures = 0; last_failure = none }

-- `CircuitBreaker::default`
abbrev pub default_breaker : CircuitBreaker
default_breaker = record { failure_threshold = 5; cooldown = from_secs 60; states = [] }

unfoldable pub is_open : ℕ → Text → CircuitBreaker → Bool
is_open now origin breaker = elim (get origin breaker.states) [
  | none ↦ false
  | some state ↦
      if leb breaker.failure_threshold state.failures
      then elim state.last_failure [
        | none ↦ false
        | some last_time ↦ ltb (now - last_time) breaker.cooldown
      ]
      else false
]

unfoldable pub record_success : Text → CircuitBreaker → CircuitBreaker
record_success origin breaker = elim (get origin breaker.states) [
  | none ↦ breaker
  | some state ↦ record breaker {
    states = insert origin (record state { failures = 0 }) breaker.states;
  }
]

-- The state that `or_insert_with` gives, counted up.
abbrev pub failed_at : ℕ → CircuitBreakerState → CircuitBreakerState
failed_at now state = record { failures = (state.failures + 1) % 2 ^ 32; last_failure = some now }

unfoldable pub record_failure : ℕ → Text → CircuitBreaker → CircuitBreaker
record_failure now origin breaker = elim (get origin breaker.states) [
  | none ↦ record breaker { states = insert origin (failed_at now fresh_state) breaker.states }
  | some state ↦ record breaker { states = insert origin (failed_at now state) breaker.states }
]
