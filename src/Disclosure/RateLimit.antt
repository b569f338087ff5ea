-- ===== src/Disclosure/RateLimit.antt =====
-- src/disclosure/rate_limit.rs: the sliding window of disclosures for each field and origin. An
-- `Instant` is the number of nanoseconds since the earliest instant that the platform represents, so
-- `checked_sub` gives nothing where the difference would lie before it.
mod Examples
pub mod Window
pub mod Retry
use anml_client_rust.Common.{
  ℕ, ◌+◌, ◌-◌, ◌*◌, ◌/◌, ◌≤◌, Bool, true, false, Option, none, some, List, [], ◌∷◌, ◌++◌, ◌≡◌, ◌↔◌,
  if◌then◌else◌, ltb, leb, length, retain, Text, text_eq, text_eq_iff, Eq, arith,
}
use anml_client_rust.Common.Assoc.{get, insert, remove}
use anml_client_rust.Config.{Origin, origin_text, from_secs}

pub record RateLimitKey : Type 0 where
  pub field : Text
  pub origin : Text

abbrev pub rate_key_eq : RateLimitKey → RateLimitKey → Bool
rate_key_eq a b = if text_eq a.field b.field then text_eq a.origin b.origin else false

pub rate_key_eq_iff : (a b : RateLimitKey) → (rate_key_eq a b ≡ true) ↔ (a ≡ b)
rate_key_eq_iff a b = ground (arith, text_eq_iff a.field b.field, text_eq_iff a.origin b.origin)

instance abbrev pub rate_key_instance : Eq RateLimitKey
rate_key_instance = record { beq = rate_key_eq; beq_iff = rate_key_eq_iff }

abbrev pub Tracker : Type 0
Tracker = List (RateLimitKey × List ℕ)

abbrev pub window_duration : ℕ
window_duration = from_secs (24 * 60 * 60)

abbrev pub checked_sub : ℕ → ℕ → Option ℕ
checked_sub a b = if ltb a b then none else some (a - b)

-- `now.checked_sub(WINDOW_DURATION).unwrap_or(now)`
unfoldable pub cutoff : ℕ → ℕ
cutoff now = elim (checked_sub now window_duration) [ some c ↦ c | none ↦ now ]

abbrev pub or_default : Option (List ℕ) → List ℕ
or_default none = []
or_default (some ts) = ts

pub data Outcome : Type 0 where
  allowed : Outcome
  -- whole seconds until the oldest disclosure expires
  retry_after : ℕ → Outcome

-- `as_secs`
abbrev pub as_secs : ℕ → ℕ
as_secs d = d / 1_000_000_000

unfoldable pub seconds_left : List ℕ → ℕ → ℕ
seconds_left [] now = 0
seconds_left (oldest ∷ ts) now =
    if ltb now (oldest + window_duration) then as_secs (oldest + window_duration - now) else 0

-- The work on one key's list: what it holds afterwards, and the outcome.
unfoldable pub check_timestamps : ℕ → ℕ → List ℕ → List ℕ × Outcome
check_timestamps max_per_window now ts =
    let kept = retain (λ t. ltb (cutoff now) t) ts in
    if leb max_per_window (length kept)
    then (kept, retry_after (seconds_left kept now))
    else (kept ++ (now ∷ []), allowed)

abbrev pub rate_key : Text → Origin → RateLimitKey
rate_key f o = record { field = f; origin = origin_text o }

unfoldable pub check_and_record_at : Text → Origin → ℕ → ℕ → Tracker → Tracker × Outcome
check_and_record_at f o max_per_window now entries =
    let r = check_timestamps max_per_window now (or_default (get (rate_key f o) entries)) in
    (insert (rate_key f o) r.0 entries, r.1)

unfoldable pub current_count : Text → Origin → ℕ → Tracker → ℕ
current_count f o now entries =
    length (retain (λ t. ltb (cutoff now) t) (or_default (get (rate_key f o) entries)))

unfoldable pub clear : Tracker → Tracker
clear entries = []
