-- ===== src/Disclosure/RateLimit/Retry.antt =====
-- The refusals of src/disclosure/rate_limit.rs: the waiting time that they report, and the time
-- before a whole window has passed.
use anml_client_rust.Common.{
  ℕ, ◌+◌, ◌-◌, ◌*◌, ◌/◌, ◌≤◌, ◌<◌, List, [], ◌∷◌, ◌≡◌, refl, ◌↔◌, ◌≢◌, ltb, length, retain, All,
  All-retain, length-retain-le, arith,
}
use anml_client_rust.Disclosure.RateLimit.{
  window_duration, cutoff, allowed, retry_after, seconds_left, check_timestamps,
}
use anml_client_rust.Disclosure.RateLimit.Window.{count_after}

-- The instants are listed from the earliest on, as `push` leaves them.
abbrev pub IsSorted : List ℕ → Type 0
IsSorted [] = Unit
IsSorted (t ∷ ts) = All (λ u. t ≤ u) ts × IsSorted ts

nothing_after : (c : ℕ) (ts : List ℕ) → All (λ t. t ≤ c) ts → retain (λ t. ltb c t) ts ≡ []
nothing_after c [] h = refl
nothing_after c (t ∷ ts) (h, hs) = ground (arith, nothing_after c ts hs)

-- Before a whole window has passed since the earliest instant, a call forgets every disclosure that
-- was recorded, and allows the new one whatever was recorded before, if the limit is not zero.
pub check_timestamps-early :
    (limit now : ℕ) (ts : List ℕ)
    → now < window_duration
    → All (λ t. t ≤ now) ts
    → 0 < limit
    → check_timestamps limit now ts ≡ (now ∷ [], allowed)
unfolding check_timestamps cutoff
check_timestamps-early limit now ts early past some_left = ground (arith, nothing_after now ts past)

-- A call is allowed exactly when the window that ends now holds fewer than `limit` disclosures. It is
-- supposed that a whole window has passed since the earliest instant.
pub check_timestamps-refused_iff :
    (limit now : ℕ) (ts : List ℕ)
    → window_duration ≤ now
    → ((check_timestamps limit now ts).1 ≡ allowed)
      ↔ (count_after (now - window_duration) ts < limit)
unfolding check_timestamps cutoff
check_timestamps-refused_iff limit now ts late = ground arith

IsSorted-retain : (c : ℕ) (ts : List ℕ) → IsSorted ts → IsSorted (retain (λ t. ltb c t) ts)
IsSorted-retain c [] h = tt
IsSorted-retain c (t ∷ ts) (h, hs) =
    ground (arith, IsSorted-retain c ts hs, All-retain (λ u. t ≤ u) (λ u. ltb c u) ts h)

retain_after : (c : ℕ) (ts : List ℕ) → All (λ t. c < t) (retain (λ t. ltb c t) ts)
retain_after c [] = tt
retain_after c (t ∷ ts) = ground (arith, retain_after c ts)

sorted_after : (c o : ℕ) (ts : List ℕ) → c < o → All (λ u. o ≤ u) ts → count_after c ts ≡ length ts
sorted_after c o [] h k = refl
sorted_after c o (t ∷ ts) h (k, ks) = ground (arith, sorted_after c o ts h ks)

-- The list that a refused call leaves, asked again later.
again :
    (limit now later : ℕ) (kept : List ℕ)
    → window_duration ≤ now
    → now ≤ later
    → 0 < limit
    → length kept ≤ limit
    → limit ≤ length kept
    → IsSorted kept
    → All (λ t. now - window_duration < t) kept
    → (later < now + seconds_left kept now * 1_000_000_000
        → limit ≤ count_after (later - window_duration) kept)
      × (now + (seconds_left kept now + 1) * 1_000_000_000 ≤ later
          → count_after (later - window_duration) kept < limit)
again limit now later [] w l p a b s k = absurd (omega arith)
again limit now later (o ∷ kept) w l p a b (s, ss) (k, ks) = (
  λ h.
      ground (
        arith,
        sorted_after (later - window_duration) o kept (omega (arith, left)) s,
        first_kept h,
      ),
  λ h.
      ground (arith, first_dropped h, length-retain-le (λ t. ltb (later - window_duration) t) kept),
)
  where
    left : seconds_left (o ∷ kept) now ≡ (o + window_duration - now) / 1_000_000_000
    left = unfold seconds_left in ground arith

    first_kept :
        later < now + seconds_left (o ∷ kept) now * 1_000_000_000 → later - window_duration < o
    first_kept h = omega (arith, left)

    first_dropped :
        now + (seconds_left (o ∷ kept) now + 1) * 1_000_000_000 ≤ later
        → o ≤ later - window_duration
    first_dropped h = omega (arith, left)

-- For a limit of at least one, and where the clock has run for at least the window of 24 hours: a
-- refused call reports a whole number of seconds. A call before that many seconds are over is refused
-- as well; a call one second after they are over is allowed. It is supposed that the key's instants
-- are sorted and no more than the limit, as the calls leave them, that the later call is not earlier
-- on the clock, and that no other call comes between.
pub check_timestamps-retry :
    (limit now later n : ℕ) (ts : List ℕ)
    → window_duration ≤ now
    → now ≤ later
    → 0 < limit
    → length ts ≤ limit
    → IsSorted ts
    → (check_timestamps limit now ts).1 ≡ retry_after n
    → (later < now + n * 1_000_000_000
        → (check_timestamps limit later (check_timestamps limit now ts).0).1 ≢ allowed)
      × (now + (n + 1) * 1_000_000_000 ≤ later
          → (check_timestamps limit later (check_timestamps limit now ts).0).1 ≡ allowed)
unfolding check_timestamps cutoff
check_timestamps-retry limit now later n ts w l p a s h = ground (
  arith,
  again limit now later kept w l p
      (omega (arith, length-retain-le (λ t. ltb (now - window_duration) t) ts)) full
      (IsSorted-retain (now - window_duration) ts s) (retain_after (now - window_duration) ts),
)
  where
    kept : List ℕ
    kept = retain (λ t. ltb (now - window_duration) t) ts

    full : limit ≤ length (retain (λ t. ltb (now - window_duration) t) ts)
    full = ground arith
