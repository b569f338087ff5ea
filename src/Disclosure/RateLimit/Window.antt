-- ===== src/Disclosure/RateLimit/Window.antt =====
-- The limiter of src/disclosure/rate_limit.rs over a whole sequence of calls.
use anml_client_rust.Common.{
  ℕ, ◌+◌, ◌-◌, ◌≤◌, Bool, true, false, ◌&&◌, List, [], ◌∷◌, ◌++◌, ◌≡◌, refl, inl, inr,
  if◌then◌else◌, ltb, length, retain, All, Text, arith, Bool-cases, ◌∙◌,
}
use anml_client_rust.Common.Assoc.{get, get-insert}
use anml_client_rust.Config.{Origin}
use anml_client_rust.Disclosure.RateLimit.{
  RateLimitKey, rate_key_eq, rate_key_eq_iff, rate_key_instance, Tracker, window_duration, cutoff,
  or_default, Outcome, allowed, retry_after, check_timestamps, rate_key, check_and_record_at,
}

-- How many of the instants lie after `c`.
abbrev pub count_after : ℕ → List ℕ → ℕ
count_after c ts = length (retain (λ t. ltb c t) ts)

count_after-append :
    (c : ℕ) (xs ys : List ℕ) → count_after c (xs ++ ys) ≡ count_after c xs + count_after c ys
count_after-append c [] ys = omega arith
count_after-append c (x ∷ xs) ys = ground (arith, count_after-append c xs ys)

count_after-retain :
    (c d : ℕ) (ts : List ℕ) → d ≤ c → count_after c (retain (λ t. ltb d t) ts) ≡ count_after c ts
count_after-retain c d [] h = refl
count_after-retain c d (t ∷ ts) h = ground (arith, count_after-retain c d ts h)

-- One call: which field and origin, the limit of the governing rule, and the time.
pub record Call : Type 0 where
  pub field : Text
  pub origin : Origin
  pub limit : ℕ
  pub now : ℕ

abbrev pub call_key : Call → RateLimitKey
call_key c = rate_key c.field c.origin

abbrev is_allowed : Outcome → Bool
is_allowed allowed = true
is_allowed (retry_after n) = false

-- The calls in turn. The second list holds the instants at which a disclosure under the key `k`
-- was allowed, the latest first.
pub run_calls : RateLimitKey → List Call → Tracker → List ℕ → List ℕ
run_calls k [] entries granted = granted
run_calls k (c ∷ calls) entries granted =
    let r = check_and_record_at c.field c.origin c.limit c.now entries in
    run_calls k calls r.0
      (if is_allowed r.1 && rate_key_eq (call_key c) k then c.now ∷ granted else granted)

-- The clock does not run backwards from `t` on.
abbrev pub IsMonotone : ℕ → List Call → Type 0
IsMonotone t [] = Unit
IsMonotone t (c ∷ calls) = (t ≤ c.now) × IsMonotone c.now calls

-- The latest of the instants and those in the 24 hours before it are at most `limit`, and so for
-- each earlier one.
abbrev pub IsWithin : ℕ → List ℕ → Type 0
IsWithin limit [] = Unit
IsWithin limit (t ∷ earlier) =
    (count_after (t - window_duration) (t ∷ earlier) ≤ limit) × IsWithin limit earlier

-- What the tracker remembers for the key agrees with the history after the cutoff of time `t`.
abbrev Agrees : RateLimitKey → ℕ → Tracker → List ℕ → Type 0
Agrees k t entries granted =
    (c : ℕ)
    → t ≤ c + window_duration
    → count_after c (or_default (get k entries)) ≡ count_after c granted

step_allowed :
    (limit now : ℕ) (ts granted : List ℕ)
    → window_duration ≤ now
    → ((c : ℕ) → now ≤ c + window_duration → count_after c ts ≡ count_after c granted)
    → (check_timestamps limit now ts).1 ≡ allowed
    → (count_after (now - window_duration) (now ∷ granted) ≤ limit)
      × ((c : ℕ)
          → now ≤ c + window_duration
          → count_after c (check_timestamps limit now ts).0 ≡ count_after c (now ∷ granted))
unfolding check_timestamps cutoff
step_allowed limit now ts granted late agree h = (
  ground (arith, agree (now - window_duration) (omega arith)),
  λ c after. ground (
    arith,
    agree c after,
    count_after-append c (retain (λ t. ltb (now - window_duration) t) ts) (now ∷ []),
    count_after-retain c (now - window_duration) ts,
  ),
)

step_refused :
    (limit now : ℕ) (ts granted : List ℕ)
    → window_duration ≤ now
    → ((c : ℕ) → now ≤ c + window_duration → count_after c ts ≡ count_after c granted)
    → is_allowed (check_timestamps limit now ts).1 ≡ false
    → (c : ℕ) → now ≤ c + window_duration
    → count_after c (check_timestamps limit now ts).0 ≡ count_after c granted
unfolding check_timestamps cutoff
step_refused limit now ts granted late agree h c after =
    ground (arith, agree c after, count_after-retain c (now - window_duration) ts)

module _ (k : RateLimitKey) (c : Call) (entries : Tracker) where
  abbrev after : Tracker × Outcome
  after = check_and_record_at c.field c.origin c.limit c.now entries

  abbrev at_key : List ℕ × Outcome
  at_key = check_timestamps c.limit c.now (or_default (get k entries))

  same_key :
      rate_key_eq (call_key c) k ≡ true
      → (or_default (get k after.0) ≡ at_key.0) × (after.1 ≡ at_key.1)
  unfolding check_and_record_at
  same_key h =
      let e : call_key c ≡ k = (rate_key_eq_iff (call_key c) k).0 h in (rw h (rw e refl), rw e refl)

  other_key : rate_key_eq (call_key c) k ≡ false → get k after.0 ≡ get k entries
  unfolding check_and_record_at
  other_key h = get-insert (call_key c) k _ entries ∙ rw h

and-false : (b : Bool) → (b && false) ≡ false
and-false true = refl
and-false false = refl

run_calls-IsWithin_from :
    (k : RateLimitKey) (limit t : ℕ) (calls : List Call) (entries : Tracker) (granted : List ℕ)
    → window_duration ≤ t
    → IsMonotone t calls
    → All (λ c. call_key c ≡ k → c.limit ≤ limit) calls
    → Agrees k t entries granted
    → IsWithin limit granted
    → IsWithin limit (run_calls k calls entries granted)
unfolding run_calls
run_calls-IsWithin_from k limit t [] entries granted late mono lim agree within = within
run_calls-IsWithin_from k limit t (c ∷ calls) entries granted late (m, mono) (l, lim) agree within =
    elim (Bool-cases (rate_key_eq (call_key c) k)) [
      | inl same ↦
          let (stored, outcome) = same_key k c entries same in
          elim (Bool-cases (is_allowed (at_key k c entries).1)) [
            | inl yes_allowed ↦
                let (fits, agree') =
                  step_allowed c.limit c.now (or_default (get k entries)) granted (omega arith)
                    (λ d h. agree d (omega arith)) (ground arith) in
                rw (same, outcome, yes_allowed)
                  (run_calls-IsWithin_from k limit c.now calls _ _ (omega arith) mono lim
                    (λ d h. rw stored (agree' d h))
                    (omega (arith, l ((rate_key_eq_iff (call_key c) k).0 same)), within))
            | inr refused ↦
                rw (same, outcome, refused)
                  (run_calls-IsWithin_from k limit c.now calls _ _ (omega arith) mono lim
                    (λ d h. rw stored (
                      step_refused c.limit c.now (or_default (get k entries)) granted (omega arith)
                        (λ b g. agree b (omega arith)) refused d h))
                    within)
          ]
      | inr other ↦
          rw (other, and-false (is_allowed (after k c entries).1))
            (run_calls-IsWithin_from k limit c.now calls _ granted (omega arith) mono lim
              (λ d h. rw (other_key k c entries other) (agree d (omega arith))) within)
    ]

-- Over any sequence of calls, to this and to other fields and origins, of which those under the key
-- `k` have a limit of at most `limit`: where the clock does not run backwards and a whole window has
-- passed since the earliest instant, no 24 hours that end at an allowed disclosure under `k` contain
-- more than `limit` allowed disclosures under `k`.
pub run_calls-IsWithin :
    (k : RateLimitKey) (limit t : ℕ) (calls : List Call)
    → window_duration ≤ t
    → IsMonotone t calls
    → All (λ c. call_key c ≡ k → c.limit ≤ limit) calls
    → IsWithin limit (run_calls k calls [] [])
run_calls-IsWithin k limit t calls late mono lim =
    run_calls-IsWithin_from k limit t calls [] [] late mono lim (λ c h. refl) tt
