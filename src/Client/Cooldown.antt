-- ===== src/Client/Cooldown.antt =====
-- What the circuit breaker of src/client.rs promises, read from the requests alone: an origin is
-- blocked from its last failure until the cooldown is over, if enough failures came after its last
-- success.
use anml_client_rust.Common.{
  ℕ, suc, ◌+◌, ◌-◌, ◌%◌, ◌^◌, ◌≤◌, ◌<◌, false, ◌&&◌, Option, none, some, List, [], ◌∷◌, ◌≡◌, refl,
  ◌∙◌, ap, ltb, leb, if◌then◌else◌, Text, text_eq, text_eq_iff, text_instance, length, arith,
  Option-cases, Bool-cases, inl, inr,
}
use anml_client_rust.Common.Assoc.{get, get-insert}
use anml_client_rust.Client.Breaker.{
  CircuitBreakerState, CircuitBreaker, fresh_state, is_open, record_success, failed_at,
  record_failure,
}

-- How a request to an origin ended, and when.
pub data Event : Type 0 where
  succeeded : Text → Event
  failed : ℕ → Text → Event

-- The breaker after the events, the newest first.
abbrev pub after : CircuitBreaker → List Event → CircuitBreaker
after breaker [] = breaker
after breaker (succeeded o ∷ events) = record_success o (after breaker events)
after breaker (failed now o ∷ events) = record_failure now o (after breaker events)

-- The failures of the origin since its last success.
abbrev pub streak : Text → List Event → ℕ
streak origin [] = 0
streak origin (succeeded o ∷ events) = if text_eq o origin then 0 else streak origin events
streak origin (failed now o ∷ events) =
    let n = streak origin events in if text_eq o origin then suc n else n

abbrev pub last_failure_of : Text → List Event → Option ℕ
last_failure_of origin [] = none
last_failure_of origin (succeeded o ∷ events) = last_failure_of origin events
last_failure_of origin (failed now o ∷ events) =
    if text_eq o origin then some now else last_failure_of origin events

-- The state that the events leave of the origin.
abbrev pub state_of : Text → List Event → Option CircuitBreakerState
state_of origin events = elim (last_failure_of origin events) [
  | none ↦ none
  | some t ↦ some (record { failures = streak origin events; last_failure = some t })
]

streak_le : (origin : Text) (events : List Event) → streak origin events ≤ length events
streak_le origin [] = omega arith
streak_le origin (succeeded o ∷ events) = ground (arith, streak_le origin events)
streak_le origin (failed now o ∷ events) = ground (arith, streak_le origin events)

never_failed :
    (origin : Text) (events : List Event)
    → last_failure_of origin events ≡ none
    → streak origin events ≡ 0
never_failed origin [] h = refl
never_failed origin (succeeded o ∷ events) h = ground (arith, never_failed origin events)
never_failed origin (failed now o ∷ events) h = ground (arith, never_failed origin events)

get-record_success :
    (o origin : Text) (b : CircuitBreaker)
    → get origin (record_success o b).states ≡ (
        if text_eq o origin
        then elim (get origin b.states) [ none ↦ none | some s ↦ some (record s { failures = 0 }) ]
        else get origin b.states)
unfolding record_success
get-record_success o origin b = elim (Option-cases (get o b.states)) [
  | inl unknown ↦ elim (Bool-cases (text_eq o origin)) [
    | inl same ↦
        let e = (text_eq_iff o origin).0 same in
        rw (unknown, same, rw e at unknown, record_success) refl
    | inr other ↦ rw (unknown, other, record_success) refl
  ]
  | inr (s, known) ↦ elim (Bool-cases (text_eq o origin)) [
    | inl same ↦
        let e = (text_eq_iff o origin).0 same in
        rw (known, record_success) (get-insert o origin _ b.states ∙ rw (same, rw e at known) refl)
    | inr other ↦ rw (known, record_success) (get-insert o origin _ b.states ∙ rw other refl)
  ]
]

get-record_failure :
    (now : ℕ) (o origin : Text) (b : CircuitBreaker)
    → get origin (record_failure now o b).states ≡ (
        if text_eq o origin
        then elim (get origin b.states) [
          | none ↦ some (failed_at now fresh_state)
          | some s ↦ some (failed_at now s)
        ]
        else get origin b.states)
unfolding record_failure
get-record_failure now o origin b = elim (Option-cases (get o b.states)) [
  | inl unknown ↦ elim (Bool-cases (text_eq o origin)) [
    | inl same ↦
        let e = (text_eq_iff o origin).0 same in
        rw (unknown, record_failure)
          (get-insert o origin _ b.states ∙ rw (same, rw e at unknown) refl)
    | inr other ↦ rw (unknown, record_failure) (get-insert o origin _ b.states ∙ rw other refl)
  ]
  | inr (s, known) ↦ elim (Bool-cases (text_eq o origin)) [
    | inl same ↦
        let e = (text_eq_iff o origin).0 same in
        rw (known, record_failure) (get-insert o origin _ b.states ∙ rw (same, rw e at known) refl)
    | inr other ↦ rw (known, record_failure) (get-insert o origin _ b.states ∙ rw other refl)
  ]
]

module _ (failure_threshold cooldown : ℕ) where
  abbrev pub no_requests : CircuitBreaker
  no_requests = record { failure_threshold = failure_threshold; cooldown = cooldown; states = [] }

  after-keeps :
      (events : List Event)
      → ((after no_requests events).failure_threshold ≡ failure_threshold)
        × ((after no_requests events).cooldown ≡ cooldown)
  unfolding record_success record_failure
  after-keeps [] = (refl, refl)
  after-keeps (succeeded o ∷ events) =
      elim (Option-cases (get o (after no_requests events).states)) [
        | inl e ↦ rw (e, record_success) (after-keeps events)
        | inr (s, e) ↦ rw (e, record_success) (after-keeps events)
      ]
  after-keeps (failed now o ∷ events) =
      elim (Option-cases (get o (after no_requests events).states)) [
        | inl e ↦ rw (e, record_failure) (after-keeps events)
        | inr (s, e) ↦ rw (e, record_failure) (after-keeps events)
      ]

  get-after :
      (origin : Text) (events : List Event)
      → length events < 2 ^ 32
      → get origin (after no_requests events).states ≡ state_of origin events
  get-after origin [] h = refl
  get-after origin (succeeded o ∷ events) h =
      get-record_success o origin (after no_requests events)
      ∙ elim (Option-cases (last_failure_of origin events)) [
        | inl never ↦ elim (Bool-cases (text_eq o origin)) [
          | inl same ↦ rw (same, get-after origin events (omega arith), never, state_of) refl
          | inr other ↦ rw (other, get-after origin events (omega arith), never, state_of) refl
        ]
        | inr (t, last) ↦ elim (Bool-cases (text_eq o origin)) [
          | inl same ↦ rw (same, get-after origin events (omega arith), last, state_of, same) refl
          | inr other ↦
              rw (other, get-after origin events (omega arith), last, state_of, other) refl
        ]
      ]
  get-after origin (failed now o ∷ events) h =
      let few : (streak origin events + 1) % 2 ^ 32 ≡ suc (streak origin events) =
        omega (arith, streak_le origin events) in
      get-record_failure now o origin (after no_requests events)
      ∙ elim (Option-cases (last_failure_of origin events)) [
        | inl never ↦ elim (Bool-cases (text_eq o origin)) [
          | inl same ↦
              rw
                (
                  same,
                  get-after origin events (omega arith),
                  never,
                  state_of,
                  same,
                  never_failed origin events never,
                )
                refl
          | inr other ↦ rw (other, get-after origin events (omega arith), never, state_of) refl
        ]
        | inr (t, last) ↦ elim (Bool-cases (text_eq o origin)) [
          | inl same ↦
              rw (same, get-after origin events (omega arith), last, state_of, same)
                (ap (λ n. some (record { failures = n; last_failure = some now })) few)
          | inr other ↦
              rw (other, get-after origin events (omega arith), last, state_of, other) refl
        ]
      ]

-- After fewer than 2 ^ 32 requests, recorded one after the other on a new breaker, an origin is
-- blocked exactly if it has failed, its failures since its last success reach the threshold, and
-- less than the cooldown has passed since its last failure.
pub is_open-after :
    (failure_threshold cooldown now : ℕ) (origin : Text) (events : List Event)
    → length events < 2 ^ 32
    → is_open now origin (after (no_requests failure_threshold cooldown) events)
      ≡ elim (last_failure_of origin events) [
        | none ↦ false
        | some t ↦ leb failure_threshold (streak origin events) && ltb (now - t) cooldown
      ]
unfolding is_open
is_open-after failure_threshold cooldown now origin events h =
    let (same_threshold, same_cooldown) = after-keeps failure_threshold cooldown events in
    elim (Option-cases (last_failure_of origin events)) [
      | inl never ↦ rw (get-after failure_threshold cooldown origin events h, never, is_open) refl
      | inr (t, last) ↦
          rw
            (
              get-after failure_threshold cooldown origin events h,
              last,
              same_threshold,
              same_cooldown,
              is_open,
            )
            (ground arith)
    ]
